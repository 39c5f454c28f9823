-- ===== src/Can/Mode/Tests.antt =====
-- The modes at concrete sequences of events.
use athrill_target_rh850f1x.Base.{◌≡◌, ◌⊎◌, inl, inr, refl, List, [], ◌∷◌}
use mathlib.Core.List.{map}
use athrill_target_rh850f1x.Can.Mode.Channel.{
  ChannelMode, wait, comm, tx, CanModeChannel, set_comm, comm_tx_start, comm_tx_done, comm_rx_start,
  clr_stop, mcu_reset_channel, can_mode_channel_event,
}
use athrill_target_rh850f1x.Can.Mode.Channel as Channel
use athrill_target_rh850f1x.Can.Mode.Consistent.{channel_after, channel_after-IsConsistent}
use athrill_target_rh850f1x.Can.Mode.Diagram.{
  ◌⟶◌, way_to, way_to_arrives, event-edge, wait_takes_effect,
}
use athrill_target_rh850f1x.Can.Mode.Global.{
  CanModeGlobal, run, test, reset, stop, set_run, set_reset, set_stop, set_test, mcu_reset,
  can_mode_global_event,
}
use athrill_target_rh850f1x.Can.Mode.Global as Global
use athrill_target_rh850f1x.Can.Mode.System.{
  All, SystemEvent, global, channel, system_event, system_after, update_at, IsSound,
  system_after-IsSound,
}
use athrill_target_rh850f1x.Can.Mode.Forced.{activity, shut_down, set_test_effects}

-- Channel 2, while it sends a message.
abbrev sending : CanModeChannel
sending = channel_after (mcu_reset_channel 2) (clr_stop ∷ set_comm ∷ comm_tx_start ∷ [])

sending_mode : (sending.mode ≡ comm) × (sending.comm_mode ≡ tx)
unfolding channel_after can_mode_channel_event mcu_reset_channel
sending_mode = (refl, refl)

-- The controller runs, and its channel 0 sends.
abbrev to_run : List SystemEvent
to_run =
    global Global.clr_stop
    ∷ global set_run
    ∷ channel 0 clr_stop
    ∷ channel 0 set_comm
    ∷ channel 0 comm_tx_start
    ∷ []

abbrev running : CanModeGlobal
running = system_after mcu_reset to_run

running_mode : running.mode ≡ run
unfolding system_after system_event can_mode_global_event
running_mode = refl

system_after-IsSound_example : IsSound running
system_after-IsSound_example = system_after-IsSound to_run

way_to_arrives_example : (channel_after sending (way_to wait)).mode ≡ wait
way_to_arrives_example =
    way_to_arrives sending wait
      (channel_after-IsConsistent 2 (clr_stop ∷ set_comm ∷ comm_tx_start ∷ []))

event-edge_example :
    let c' = can_mode_channel_event sending Channel.set_reset in
    (c'.mode ≡ sending.mode) ⊎ (sending.mode ⟶ c'.mode)
event-edge_example = event-edge sending Channel.set_reset

wait_takes_effect_example :
    let c' =
      channel_after
        (can_mode_channel_event sending Channel.set_wait)
        (comm_rx_start ∷ set_comm ∷ []) in
    (c'.mode ≡ comm) × (c'.comm_mode ≡ tx) × ((can_mode_channel_event c' comm_tx_done).mode ≡ wait)
wait_takes_effect_example =
    wait_takes_effect sending (comm_rx_start ∷ set_comm ∷ []) sending_mode.0 sending_mode.1
      (λ e. cc, λ e. cc, (λ e. cc, λ e. cc, tt))

-- Channel 1 is in its reset mode while the others are stopped, but for channel 0, which sends.
abbrev some_awake : CanModeGlobal
some_awake = system_event running (channel 1 clr_stop)

shut_down_example :
    let g1 = can_mode_global_event some_awake set_reset in
    let g2 = can_mode_global_event g1 set_stop in
    (g1.mode ≡ reset)
    × (map (λ c. c.mode) g1.channel
        ≡ Channel.reset ∷ Channel.reset ∷ Channel.stop ∷ Channel.stop ∷ Channel.stop ∷ Channel.stop
          ∷ [])
    × (g2.mode ≡ stop)
    × All (λ c. c.mode ≡ Channel.stop) g2.channel
unfolding system_after system_event can_mode_global_event update_at can_mode_channel_event
    mcu_reset_channel
shut_down_example = shut_down some_awake (inl running_mode)

set_test_effects_example :
    let g1 = can_mode_global_event running set_test in
    (g1.mode ≡ test)
    × (map activity g1.channel
        ≡ (comm, tx, 2)
          ∷ (Channel.stop, Channel.idle, 1)
          ∷ (Channel.stop, Channel.idle, 1)
          ∷ (Channel.stop, Channel.idle, 1)
          ∷ (Channel.stop, Channel.idle, 1)
          ∷ (Channel.stop, Channel.idle, 1)
          ∷ [])
unfolding system_after system_event can_mode_global_event update_at can_mode_channel_event
    mcu_reset_channel
set_test_effects_example = set_test_effects running (system_after-IsSound to_run) (inr running_mode)
