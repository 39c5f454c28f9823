-- ===== src/Can/Mode/Forced.antt =====
-- What an event of the controller forces on its channels.
use athrill_target_rh850f1x.Base.{ℕ, ◌≡◌, ◌⊎◌, refl, ap₂, List, [], ◌∷◌, arith}
use mathlib.Core.List.{map}
use athrill_target_rh850f1x.Can.Mode.Channel.{
  ChannelMode, ChannelModeComm, idle, CanModeChannel, can_mode_channel_event, channel_mode_wait,
  wait, comm,
}
use athrill_target_rh850f1x.Can.Mode.Channel as Channel
use athrill_target_rh850f1x.Can.Mode.Consistent.{IsConsistent}
use athrill_target_rh850f1x.Can.Mode.Global.{
  stop, reset, run, test, CanModeGlobal, set_stop, set_reset, set_test, each_channel,
  can_mode_global_event,
}
use athrill_target_rh850f1x.Can.Mode.System.{All, IsSound}

-- The mode of a channel after a reset: a stopped one stays so.
abbrev pub reset_mode : ChannelMode → ChannelMode
reset_mode Channel.stop = Channel.stop
reset_mode _ = Channel.reset

set_reset-mode :
    (c : CanModeChannel) → (can_mode_channel_event c Channel.set_reset).mode ≡ reset_mode c.mode
unfolding can_mode_channel_event
set_reset-mode c = ground arith

each_channel-reset :
    (cs : List CanModeChannel)
    → map (λ c. c.mode) (each_channel Channel.set_reset cs) ≡ map (λ c. reset_mode c.mode) cs
unfolding each_channel
each_channel-reset [] = refl
each_channel-reset (c ∷ cs) = ap₂ ◌∷◌ (set_reset-mode c) (each_channel-reset cs)

reset-stop :
    (c : CanModeChannel)
    → (can_mode_channel_event (can_mode_channel_event c Channel.set_reset) Channel.set_stop).mode
      ≡ Channel.stop
unfolding can_mode_channel_event
reset-stop c = ground arith

each_channel-stop :
    (cs : List CanModeChannel)
    → All
        (λ c. c.mode ≡ Channel.stop)
        (each_channel Channel.set_stop (each_channel Channel.set_reset cs))
unfolding each_channel
each_channel-stop [] = tt
each_channel-stop (c ∷ cs) = (reset-stop c, each_channel-stop cs)

-- From the run or the test mode, a reset brings the controller into the reset mode, leaves each
-- stopped channel stopped and brings every other one into its reset mode; a stop after it stops the
-- controller and all of its channels.
pub shut_down :
    (g : CanModeGlobal)
    → (g.mode ≡ run) ⊎ (g.mode ≡ test)
    → let g1 = can_mode_global_event g set_reset in
      let g2 = can_mode_global_event g1 set_stop in
      (g1.mode ≡ reset)
      × (map (λ c. c.mode) g1.channel ≡ map (λ c. reset_mode c.mode) g.channel)
      × (g2.mode ≡ stop)
      × All (λ c. c.mode ≡ Channel.stop) g2.channel
unfolding can_mode_global_event
shut_down g h = ground (arith, each_channel-reset g.channel, each_channel-stop g.channel)

-- What a channel does: its mode, its part in the communication, and the mode that its control
-- register selects.
abbrev pub Activity : Type 0
Activity = ChannelMode × ChannelModeComm × ℕ

abbrev pub activity : CanModeChannel → Activity
activity c = (c.mode, c.comm_mode, c.ctrl.select_mode)

-- What it does once it was told to wait: a stopped channel, or one that waits, does not change, and
-- one in the middle of a message goes on with it, with the wait mode selected.
abbrev pub told_to_wait : Activity → Activity
told_to_wait (Channel.stop, m, s) = (Channel.stop, m, s)
told_to_wait (Channel.wait, m, s) = (Channel.wait, m, s)
told_to_wait (Channel.comm, Channel.rx, s) = (Channel.comm, Channel.rx, channel_mode_wait)
told_to_wait (Channel.comm, Channel.tx, s) = (Channel.comm, Channel.tx, channel_mode_wait)
told_to_wait (Channel.comm, Channel.idle, s) = (Channel.wait, Channel.idle, channel_mode_wait)
told_to_wait (Channel.reset, m, s) = (Channel.wait, m, channel_mode_wait)

set_wait-activity :
    (c : CanModeChannel)
    → IsConsistent c
    → activity (can_mode_channel_event c Channel.set_wait) ≡ told_to_wait (activity c)
unfolding can_mode_channel_event
set_wait-activity c h = ground arith

each_channel-wait :
    (cs : List CanModeChannel)
    → All IsConsistent cs
    → map activity (each_channel Channel.set_wait cs) ≡ map (λ c. told_to_wait (activity c)) cs
unfolding each_channel
each_channel-wait [] h = refl
each_channel-wait (c ∷ cs) h = ap₂ ◌∷◌ (set_wait-activity c h.0) (each_channel-wait cs h.1)

-- From the reset or the run mode of a sound controller, SET_TEST brings the controller into the test
-- mode at once. Of its channels, one that receives or sends goes on with its message in the
-- communication mode, with the wait mode selected; one in its reset mode, or idle in the
-- communication mode, waits; and one that is stopped or waits does not change.
pub set_test_effects :
    (g : CanModeGlobal)
    → IsSound g
    → (g.mode ≡ reset) ⊎ (g.mode ≡ run)
    → let g1 = can_mode_global_event g set_test in
      (g1.mode ≡ test) × (map activity g1.channel ≡ map (λ c. told_to_wait (activity c)) g.channel)
unfolding can_mode_global_event
set_test_effects g sound h = ground (arith, each_channel-wait g.channel sound.channels)
