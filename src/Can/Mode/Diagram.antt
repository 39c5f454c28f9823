-- ===== src/Can/Mode/Diagram.antt =====
-- The transition diagram of a channel's modes, and what can be reached in it.
use athrill_target_rh850f1x.Base.{◌≡◌, ◌≢◌, ◌⊎◌, List, [], ◌∷◌, arith}
use athrill_target_rh850f1x.Can.Mode.Channel.{
  ChannelMode, stop, reset, wait, comm, tx, CanModeChannel, CanModeChannelEvent, clr_stop, set_stop,
  set_comm, set_reset, set_wait, comm_tx_done, can_mode_channel_event, channel_mode_wait,
}
use athrill_target_rh850f1x.Can.Mode.Consistent.{IsConsistent, channel_after}

infix 40 ◌⟶◌
pub data ◌⟶◌ : ChannelMode → ChannelMode → Type 0 where
  wake : stop ⟶ reset
  sleep : reset ⟶ stop
  begin : reset ⟶ comm
  halt : reset ⟶ wait
  resume : wait ⟶ comm
  restart : wait ⟶ reset
  pause : comm ⟶ wait
  abort : comm ⟶ reset

ruleset edges = (wake, sleep, begin, halt, resume, restart, pause, abort)

-- An event leaves the mode or follows an edge.
pub event-edge :
    (c : CanModeChannel) (e : CanModeChannelEvent)
    → let c' = can_mode_channel_event c e in (c'.mode ≡ c.mode) ⊎ (c.mode ⟶ c'.mode)
unfolding can_mode_channel_event
event-edge c e = grind (arith, edges)

-- The events that lead to a mode, from any.
unfoldable pub way_to : ChannelMode → List CanModeChannelEvent
way_to stop = set_reset ∷ clr_stop ∷ set_stop ∷ []
way_to reset = set_reset ∷ clr_stop ∷ []
way_to wait = set_reset ∷ clr_stop ∷ set_wait ∷ []
way_to comm = set_reset ∷ clr_stop ∷ set_comm ∷ []

-- Every mode can be reached from every state of a channel that events leave.
pub way_to_arrives :
    (c : CanModeChannel) (m : ChannelMode) → IsConsistent c → (channel_after c (way_to m)).mode ≡ m
unfolding way_to channel_after can_mode_channel_event
way_to_arrives c m h = ground arith

-- While a message is sent, a wait was asked for.
abbrev pub Pending : CanModeChannel → Type 0
Pending c = (c.mode ≡ comm) × (c.comm_mode ≡ tx) × (c.ctrl.select_mode ≡ channel_mode_wait)

-- The events that do not end the message.
abbrev pub Keeps : List CanModeChannelEvent → Type 0
Keeps [] = Unit
Keeps (e ∷ es) = (e ≢ set_reset) × (e ≢ comm_tx_done) × Keeps es

event-Pending :
    (c : CanModeChannel) (e : CanModeChannelEvent)
    → e ≢ set_reset
    → e ≢ comm_tx_done
    → Pending c
    → Pending (can_mode_channel_event c e)
unfolding can_mode_channel_event
event-Pending c e n m h = ground arith

after-Pending :
    (c : CanModeChannel) (es : List CanModeChannelEvent)
    → Keeps es
    → Pending c
    → Pending (channel_after c es)
unfolding channel_after
after-Pending c [] k h = h
after-Pending c (e ∷ es) k h =
    after-Pending (can_mode_channel_event c e) es k.2 (event-Pending c e k.0 k.1 h)

set_wait-Pending :
    (c : CanModeChannel)
    → c.mode ≡ comm
    → c.comm_mode ≡ tx
    → Pending (can_mode_channel_event c set_wait)
unfolding can_mode_channel_event
set_wait-Pending c m t = ground arith

done-wait : (c : CanModeChannel) → Pending c → (can_mode_channel_event c comm_tx_done).mode ≡ wait
unfolding can_mode_channel_event
done-wait c h = ground arith

-- If the wait mode is asked for while a message is sent, then the channel stays in the communication
-- mode and goes on sending, whatever events follow but a reset, until the message is done, and that
-- brings the wait mode.
pub wait_takes_effect :
    (c : CanModeChannel) (es : List CanModeChannelEvent)
    → c.mode ≡ comm
    → c.comm_mode ≡ tx
    → Keeps es
    → let c' = channel_after (can_mode_channel_event c set_wait) es in
      (c'.mode ≡ comm)
      × (c'.comm_mode ≡ tx)
      × ((can_mode_channel_event c' comm_tx_done).mode ≡ wait)
wait_takes_effect c es m t k =
    let c1 = can_mode_channel_event c set_wait in
    let h = after-Pending c1 es k (set_wait-Pending c m t) in
    (h.0, h.1, done-wait (channel_after c1 es) h)
