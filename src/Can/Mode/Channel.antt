-- ===== src/Can/Mode/Channel.antt =====
-- The modes of a channel: can_mode_channel.h and can_mode_channel.c of
-- src/device/peripheral/rh850f1k/can, and can_register_reset_channel of
-- mapping/can_register_mapping_io_channel.c there.
use athrill_target_rh850f1x.Base.{ℕ, Bool, true, false, if◌then◌else◌, ◌==◌}

pub data ChannelMode : Type 0 where
  stop reset wait comm : ChannelMode

pub data ChannelModeComm : Type 0 where
  idle rx tx : ChannelModeComm

-- CAN_MODE_CHANNEL_MODE_COMM, CAN_MODE_CHANNEL_MODE_RESET, CAN_MODE_CHANNEL_MODE_WAIT
abbrev pub channel_mode_comm : ℕ
channel_mode_comm = 0

abbrev pub channel_mode_reset : ℕ
channel_mode_reset = 1

abbrev pub channel_mode_wait : ℕ
channel_mode_wait = 2

pub record ChannelCtrl : Type 0 where
  pub stop_bit : Bool
  pub select_mode : ℕ

pub record ChannelStatus : Type 0 where
  pub can_comm : Bool
  pub receiving : Bool
  pub sending : Bool
  pub mode_stop : Bool
  pub mode_wait : Bool
  pub mode_reset : Bool

-- `cid` is the index of the channel, so can_mode_global.channel[cmode->cid] is the channel itself.
pub record CanModeChannel : Type 0 where
  pub cid : ℕ
  pub mode : ChannelMode
  pub comm_mode : ChannelModeComm
  pub ctrl : ChannelCtrl
  pub status : ChannelStatus

pub data CanModeChannelEvent : Type 0 where
  clr_stop set_stop set_comm set_reset set_wait : CanModeChannelEvent
  comm_tx_start comm_tx_done comm_rx_start comm_rx_done : CanModeChannelEvent

-- The three flags of the communication, and then the three of the mode.
abbrev pub flags : Bool → Bool → Bool → Bool → Bool → Bool → ChannelStatus
flags can_comm receiving sending mode_stop mode_wait mode_reset = record {
  can_comm = can_comm;
  receiving = receiving;
  sending = sending;
  mode_stop = mode_stop;
  mode_wait = mode_wait;
  mode_reset = mode_reset;
}

-- CAN_MODE_CHANNEL_COMM_MODE_SET_IDLE, CAN_MODE_CHANNEL_COMM_MODE_SET_RX,
-- CAN_MODE_CHANNEL_COMM_MODE_SET_TX
unfoldable pub comm_mode_set_idle : CanModeChannel → CanModeChannel
comm_mode_set_idle c = record c {
  comm_mode = idle;
  status = flags true false false false false false;
}

unfoldable pub comm_mode_set_rx : CanModeChannel → CanModeChannel
comm_mode_set_rx c = record c { comm_mode = rx; status = flags true true false false false false }

unfoldable pub comm_mode_set_tx : CanModeChannel → CanModeChannel
comm_mode_set_tx c = record c { comm_mode = tx; status = flags true false true false false false }

-- can_register_reset_channel(CanRegisterResetType_MCU_RESET, cid)
unfoldable pub mcu_reset_channel : ℕ → CanModeChannel
mcu_reset_channel cid = record {
  cid = cid;
  mode = stop;
  comm_mode = idle;
  ctrl = record { stop_bit = true; select_mode = channel_mode_reset };
  status = flags false false false true false true;
}

-- can_register_reset_channel(CanRegisterResetType_CHANNEL_RESET, cid), which is what
-- can_mode_channel_reset does to the mode; its other two calls reset transmission buffers and FIFOs.
unfoldable pub can_mode_channel_reset : CanModeChannel → CanModeChannel
can_mode_channel_reset c = record c {
  mode = stop;
  ctrl = record { stop_bit = c.ctrl.stop_bit; select_mode = channel_mode_reset };
  status = flags false false false c.status.mode_stop false c.status.mode_reset;
}

unfoldable pub event_clr_stop : CanModeChannel → CanModeChannel
unfolding can_mode_channel_reset
event_clr_stop c = elim c.mode [
  | stop ↦
      let c1 = record c { ctrl = record { stop_bit = false; select_mode = c.ctrl.select_mode } } in
      record (can_mode_channel_reset c1) {
        status = flags false false false false false true;
        mode = reset;
      }
  | _ ↦ c
]

unfoldable pub event_set_stop : CanModeChannel → CanModeChannel
event_set_stop c = elim c.mode [
  | reset ↦ record c {
    ctrl = record { stop_bit = true; select_mode = c.ctrl.select_mode };
    mode = stop;
    status = flags false false false true false true;
  }
  | _ ↦ c
]

unfoldable pub event_set_comm : CanModeChannel → CanModeChannel
unfolding comm_mode_set_idle
event_set_comm c =
    let c1 = record c {
      mode = comm;
      ctrl = record { stop_bit = c.ctrl.stop_bit; select_mode = channel_mode_comm };
    } in
    elim c.mode [ reset ↦ comm_mode_set_idle c1 | wait ↦ comm_mode_set_idle c1 | _ ↦ c ]

-- The change to the wait mode and its flags, which three of the events make.
abbrev pub to_wait : CanModeChannel → CanModeChannel
to_wait c = record c { mode = wait; status = flags false false false false true false }

unfoldable pub event_set_wait : CanModeChannel → CanModeChannel
event_set_wait c =
    let c1 = record c {
      ctrl = record { stop_bit = c.ctrl.stop_bit; select_mode = channel_mode_wait };
    } in
    let c2 : CanModeChannel = elim c.comm_mode [ idle ↦ to_wait c1 | _ ↦ c1 ] in
    elim c.mode [ reset ↦ c2 | comm ↦ c2 | _ ↦ c ]

unfoldable pub event_set_reset : CanModeChannel → CanModeChannel
unfolding can_mode_channel_reset comm_mode_set_idle
event_set_reset c =
    let c1 = record c {
      ctrl = record { stop_bit = c.ctrl.stop_bit; select_mode = channel_mode_reset };
    } in
    let c2 = comm_mode_set_idle (record (can_mode_channel_reset c1) { mode = reset }) in
    let c3 = record c2 { status = flags false false false false false true } in
    elim c.mode [ comm ↦ c3 | wait ↦ c3 | _ ↦ c ]

unfoldable pub event_comm_tx_start : CanModeChannel → CanModeChannel
unfolding comm_mode_set_tx
event_comm_tx_start c = elim c.mode [
  | comm ↦ elim c.comm_mode [ idle ↦ comm_mode_set_tx c | _ ↦ c ]
  | _ ↦ c
]

-- The end of a message; a wait that was asked for meanwhile takes effect.
unfoldable pub comm_done : CanModeChannel → CanModeChannel
unfolding comm_mode_set_idle
comm_done c =
    let c1 = comm_mode_set_idle c in
    if c1.ctrl.select_mode == channel_mode_wait then to_wait c1 else c1

unfoldable pub event_comm_tx_done : CanModeChannel → CanModeChannel
unfolding comm_done
event_comm_tx_done c = elim c.mode [ comm ↦ elim c.comm_mode [ tx ↦ comm_done c | _ ↦ c ] | _ ↦ c ]

unfoldable pub event_comm_rx_start : CanModeChannel → CanModeChannel
unfolding comm_mode_set_rx
event_comm_rx_start c = elim c.mode [
  | comm ↦ elim c.comm_mode [ idle ↦ comm_mode_set_rx c | _ ↦ c ]
  | _ ↦ c
]

unfoldable pub event_comm_rx_done : CanModeChannel → CanModeChannel
unfolding comm_done
event_comm_rx_done c = elim c.mode [ comm ↦ elim c.comm_mode [ rx ↦ comm_done c | _ ↦ c ] | _ ↦ c ]

unfoldable pub can_mode_channel_event : CanModeChannel → CanModeChannelEvent → CanModeChannel
unfolding event_clr_stop event_set_stop event_set_comm event_set_reset event_set_wait
    event_comm_tx_start event_comm_tx_done event_comm_rx_start event_comm_rx_done
can_mode_channel_event c clr_stop = event_clr_stop c
can_mode_channel_event c set_stop = event_set_stop c
can_mode_channel_event c set_comm = event_set_comm c
can_mode_channel_event c set_reset = event_set_reset c
can_mode_channel_event c set_wait = event_set_wait c
can_mode_channel_event c comm_tx_start = event_comm_tx_start c
can_mode_channel_event c comm_tx_done = event_comm_tx_done c
can_mode_channel_event c comm_rx_start = event_comm_rx_start c
can_mode_channel_event c comm_rx_done = event_comm_rx_done c
