-- ===== src/Can/Mode/Global.antt =====
-- The modes of the controller: can_mode_global.h and can_mode_global.c of
-- src/device/peripheral/rh850f1k/can, the functions for all channels of can_mode_channel.c, and
-- can_register_reset_global of mapping/can_register_mapping_io_global.c.
use athrill_target_rh850f1x.Base.{ℕ, Bool, true, false, List, [], ◌∷◌}
use athrill_target_rh850f1x.Can.Mode.Channel.{
  CanModeChannel, CanModeChannelEvent, can_mode_channel_event, mcu_reset_channel,
}
use athrill_target_rh850f1x.Can.Mode.Channel as Channel

pub data GlobalMode : Type 0 where
  stop reset run test : GlobalMode

-- CAN_MODE_GLOBAL_MODE_RUN, CAN_MODE_GLOBAL_MODE_RESET, CAN_MODE_GLOBAL_MODE_WAIT
abbrev pub global_mode_run : ℕ
global_mode_run = 0

abbrev pub global_mode_reset : ℕ
global_mode_reset = 1

abbrev pub global_mode_wait : ℕ
global_mode_wait = 2

-- CAN_CHANNEL_NUM
abbrev pub can_channel_num : ℕ
can_channel_num = 6

pub record GlobalConfig : Type 0 where
  pub enable_dlc_check : Bool
  pub enable_tx_bufno_first : Bool

pub record GlobalCtrl : Type 0 where
  pub enable_tx_history : Bool
  pub enable_dlc_error : Bool
  pub enable_fifo_msglost : Bool
  pub stop_bit : Bool
  pub select_mode : ℕ

pub record GlobalStatus : Type 0 where
  pub gslpsts : Bool
  pub ghltsts : Bool
  pub grststs : Bool
  pub dlc_error : Bool

pub record CanModeGlobal : Type 0 where
  pub mode : GlobalMode
  pub config : GlobalConfig
  pub ctrl : GlobalCtrl
  pub status : GlobalStatus
  pub channel : List CanModeChannel

pub data CanModeGlobalEvent : Type 0 where
  clr_stop set_stop set_run set_reset set_test : CanModeGlobalEvent

-- for (cid = 0; cid < CAN_CHANNEL_NUM; cid++) can_mode_channel_event(&gmode->channel[cid], e);
unfoldable pub each_channel : CanModeChannelEvent → List CanModeChannel → List CanModeChannel
each_channel e [] = []
each_channel e (c ∷ cs) = can_mode_channel_event c e ∷ each_channel e cs

abbrev pub to_channels : CanModeChannelEvent → CanModeGlobal → CanModeGlobal
to_channels e g = record g { channel = each_channel e g.channel }

unfoldable pub can_mode_global_channel_event : CanModeGlobal → CanModeGlobalEvent → CanModeGlobal
can_mode_global_channel_event g clr_stop = g
can_mode_global_channel_event g set_stop = to_channels Channel.set_stop g
can_mode_global_channel_event g set_run = g
can_mode_global_channel_event g set_reset = to_channels Channel.set_reset g
can_mode_global_channel_event g set_test = to_channels Channel.set_wait g

-- can_mode_globa_reset, as far as the modes go: can_register_reset_global with
-- CanRegisterResetType_GLOBAL_RESET. The other resets leave the modes alone.
unfoldable pub can_mode_globa_reset : CanModeGlobal → CanModeGlobal
can_mode_globa_reset g = record g {
  status = record {
    gslpsts = g.status.gslpsts;
    ghltsts = false;
    grststs = g.status.grststs;
    dlc_error = false;
  };
}

-- gmode->mode and the three flags of the status register
abbrev pub enter : GlobalMode → Bool → Bool → Bool → CanModeGlobal → CanModeGlobal
enter m gslpsts ghltsts grststs g = record g {
  mode = m;
  status = record {
    gslpsts = gslpsts;
    ghltsts = ghltsts;
    grststs = grststs;
    dlc_error = g.status.dlc_error;
  };
}

-- gmode->ctrl.stop = b, and gmode->ctrl.select_mode = s
abbrev pub set_stop_bit : Bool → CanModeGlobal → CanModeGlobal
set_stop_bit b g = record g {
  ctrl = record {
    enable_tx_history = g.ctrl.enable_tx_history;
    enable_dlc_error = g.ctrl.enable_dlc_error;
    enable_fifo_msglost = g.ctrl.enable_fifo_msglost;
    stop_bit = b;
    select_mode = g.ctrl.select_mode;
  };
}

abbrev pub set_select : ℕ → CanModeGlobal → CanModeGlobal
set_select s g = record g {
  ctrl = record {
    enable_tx_history = g.ctrl.enable_tx_history;
    enable_dlc_error = g.ctrl.enable_dlc_error;
    enable_fifo_msglost = g.ctrl.enable_fifo_msglost;
    stop_bit = g.ctrl.stop_bit;
    select_mode = s;
  };
}

unfoldable pub global_clr_stop : CanModeGlobal → CanModeGlobal
unfolding can_mode_global_channel_event can_mode_globa_reset
global_clr_stop g =
    let g1 = can_mode_global_channel_event (set_stop_bit false g) clr_stop in
    elim g.mode [ stop ↦ enter reset false false true (can_mode_globa_reset g1) | _ ↦ g ]

unfoldable pub global_set_stop : CanModeGlobal → CanModeGlobal
unfolding can_mode_global_channel_event
global_set_stop g =
    let g1 = can_mode_global_channel_event (set_stop_bit true g) set_stop in
    elim g.mode [ reset ↦ enter stop true false true g1 | _ ↦ g ]

unfoldable pub global_set_run : CanModeGlobal → CanModeGlobal
unfolding can_mode_global_channel_event
global_set_run g =
    let g1 = can_mode_global_channel_event (set_select global_mode_run g) set_run in
    let g2 = enter run false false false g1 in elim g.mode [ test ↦ g2 | reset ↦ g2 | _ ↦ g ]

unfoldable pub global_set_reset : CanModeGlobal → CanModeGlobal
unfolding can_mode_global_channel_event can_mode_globa_reset
global_set_reset g =
    let g1 = can_mode_global_channel_event (set_select global_mode_reset g) set_reset in
    let g2 = enter reset false false true (can_mode_globa_reset g1) in
    elim g.mode [ run ↦ g2 | test ↦ g2 | _ ↦ g ]

unfoldable pub global_set_test : CanModeGlobal → CanModeGlobal
unfolding can_mode_global_channel_event
global_set_test g =
    let g1 = can_mode_global_channel_event (set_select global_mode_wait g) set_test in
    let g2 = enter test false true false g1 in elim g.mode [ reset ↦ g2 | run ↦ g2 | _ ↦ g ]

unfoldable pub can_mode_global_event : CanModeGlobal → CanModeGlobalEvent → CanModeGlobal
unfolding global_clr_stop global_set_stop global_set_run global_set_reset global_set_test
can_mode_global_event g clr_stop = global_clr_stop g
can_mode_global_event g set_stop = global_set_stop g
can_mode_global_event g set_run = global_set_run g
can_mode_global_event g set_reset = global_set_reset g
can_mode_global_event g set_test = global_set_test g

-- can_register_reset_global and can_register_reset_channel with CanRegisterResetType_MCU_RESET;
-- enable_tx_history keeps its value, which is 0 at first.
abbrev pub mcu_reset : CanModeGlobal
mcu_reset = record {
  mode = stop;
  config = record { enable_dlc_check = false; enable_tx_bufno_first = false };
  ctrl = record {
    enable_tx_history = false;
    enable_dlc_error = false;
    enable_fifo_msglost = false;
    stop_bit = true;
    select_mode = global_mode_reset;
  };
  status = record { gslpsts = true; ghltsts = false; grststs = true; dlc_error = false };
  channel =
      mcu_reset_channel 0
      ∷ mcu_reset_channel 1
      ∷ mcu_reset_channel 2
      ∷ mcu_reset_channel 3
      ∷ mcu_reset_channel 4
      ∷ mcu_reset_channel 5
      ∷ [];
}
