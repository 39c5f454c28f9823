-- ===== src/Can/Mode/Consistent.antt =====
-- A channel after a reset and any sequence of events: its status register tells its mode.
use athrill_target_rh850f1x.Base.{ℕ, ◌≡◌, ◌≢◌, ◌⊎◌, Bool, true, false, List, [], ◌∷◌, arith}
use athrill_target_rh850f1x.Can.Mode.Channel.{
  ChannelMode, stop, reset, wait, comm, ChannelModeComm, idle, rx, tx, CanModeChannel,
  ChannelStatus, flags, CanModeChannelEvent, mcu_reset_channel, can_mode_channel_event,
  channel_mode_comm, channel_mode_reset, channel_mode_wait,
}

-- The status register of a mode.
abbrev pub status_of : ChannelMode → ChannelModeComm → ChannelStatus
status_of stop m = flags false false false true false true
status_of reset m = flags false false false false false true
status_of wait m = flags false false false false true false
status_of comm idle = flags true false false false false false
status_of comm rx = flags true true false false false false
status_of comm tx = flags true false true false false false

-- The mode that the control register selects; during a message a wait may have been asked for.
abbrev pub Selects : ChannelMode → ChannelModeComm → ℕ → Type 0
Selects stop m s = s ≡ channel_mode_reset
Selects reset m s = s ≡ channel_mode_reset
Selects wait m s = s ≡ channel_mode_wait
Selects comm idle s = s ≡ channel_mode_comm
Selects comm _ s = (s ≡ channel_mode_comm) ⊎ (s ≡ channel_mode_wait)

-- The stop bit is set in the stop mode, and only there.
abbrev pub stop_bit_of : ChannelMode → Bool
stop_bit_of stop = true
stop_bit_of _ = false

pub record IsConsistent (c : CanModeChannel) : Type 0 where
  pub status_tells : c.status ≡ status_of c.mode c.comm_mode
  pub comm_only : c.mode ≢ comm → c.comm_mode ≡ idle
  pub selected : Selects c.mode c.comm_mode c.ctrl.select_mode
  pub stopped : c.ctrl.stop_bit ≡ stop_bit_of c.mode

pub mcu_reset_channel-IsConsistent : (cid : ℕ) → IsConsistent (mcu_reset_channel cid)
unfolding mcu_reset_channel
mcu_reset_channel-IsConsistent cid = ground arith

pub event-IsConsistent :
    (c : CanModeChannel) (e : CanModeChannelEvent)
    → IsConsistent c
    → IsConsistent (can_mode_channel_event c e)
unfolding can_mode_channel_event
event-IsConsistent c e h = ground arith

-- A sequence of events.
unfoldable pub channel_after : CanModeChannel → List CanModeChannelEvent → CanModeChannel
channel_after c [] = c
channel_after c (e ∷ es) = channel_after (can_mode_channel_event c e) es

pub channel_after-keeps :
    (c : CanModeChannel) (es : List CanModeChannelEvent)
    → IsConsistent c
    → IsConsistent (channel_after c es)
unfolding channel_after
channel_after-keeps c [] h = h
channel_after-keeps c (e ∷ es) h =
    channel_after-keeps (can_mode_channel_event c e) es (event-IsConsistent c e h)

-- After an MCU reset and any sequence of events, the status register of a channel tells its mode and
-- what it sends or receives, it does so only in the communication mode, the control register selects
-- the mode, or a wait that was asked for during a message, and the stop bit is that of the mode.
pub channel_after-IsConsistent :
    (cid : ℕ) (es : List CanModeChannelEvent)
    → IsConsistent (channel_after (mcu_reset_channel cid) es)
channel_after-IsConsistent cid es =
    channel_after-keeps (mcu_reset_channel cid) es (mcu_reset_channel-IsConsistent cid)
