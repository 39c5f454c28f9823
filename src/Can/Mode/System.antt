-- ===== src/Can/Mode/System.antt =====
-- The controller and its six channels together, under events of either kind in any order.
use athrill_target_rh850f1x.Base.{
  ℕ, zero, suc, ◌≡◌, ◌∙◌, refl, ap, Bool, true, false, List, [], ◌∷◌, arith, length,
}
use athrill_target_rh850f1x.Can.Mode.Channel.{
  ChannelMode, ChannelModeComm, idle, CanModeChannel, CanModeChannelEvent, can_mode_channel_event,
}
use athrill_target_rh850f1x.Can.Mode.Channel as Channel
use athrill_target_rh850f1x.Can.Mode.Consistent.{
  IsConsistent, event-IsConsistent, mcu_reset_channel-IsConsistent,
}
use athrill_target_rh850f1x.Can.Mode.Global.{
  GlobalMode, stop, reset, run, test, GlobalStatus, CanModeGlobal, CanModeGlobalEvent, each_channel,
  can_mode_global_event, mcu_reset, global_mode_run, global_mode_reset, global_mode_wait,
}

abbrev pub All {ℓ} : {A : Type ℓ} → (A → Type 0) → List A → Type 0
All P [] = Unit
All P (x ∷ xs) = P x × All P xs

-- The events of the controller, and those of the channel of an index.
pub data SystemEvent : Type 0 where
  global : CanModeGlobalEvent → SystemEvent
  channel : ℕ → CanModeChannelEvent → SystemEvent

unfoldable pub update_at : ℕ → CanModeChannelEvent → List CanModeChannel → List CanModeChannel
update_at i e [] = []
update_at zero e (c ∷ cs) = can_mode_channel_event c e ∷ cs
update_at (suc i) e (c ∷ cs) = c ∷ update_at i e cs

unfoldable pub system_event : CanModeGlobal → SystemEvent → CanModeGlobal
system_event g (global e) = can_mode_global_event g e
system_event g (channel i e) = record g { channel = update_at i e g.channel }

unfoldable pub system_after : CanModeGlobal → List SystemEvent → CanModeGlobal
system_after g [] = g
system_after g (e ∷ es) = system_after (system_event g e) es

-- The three flags of the status register, and the mode that the control register selects.
abbrev pub StatusTells : GlobalMode → GlobalStatus → Type 0
StatusTells stop s = (s.gslpsts ≡ true) × (s.ghltsts ≡ false) × (s.grststs ≡ true)
StatusTells reset s = (s.gslpsts ≡ false) × (s.ghltsts ≡ false) × (s.grststs ≡ true)
StatusTells run s = (s.gslpsts ≡ false) × (s.ghltsts ≡ false) × (s.grststs ≡ false)
StatusTells test s = (s.gslpsts ≡ false) × (s.ghltsts ≡ true) × (s.grststs ≡ false)

abbrev pub select_of : GlobalMode → ℕ
select_of stop = global_mode_reset
select_of reset = global_mode_reset
select_of run = global_mode_run
select_of test = global_mode_wait

abbrev pub stop_bit_of : GlobalMode → Bool
stop_bit_of stop = true
stop_bit_of _ = false

pub record IsSound (g : CanModeGlobal) : Type 0 where
  pub status_tells : StatusTells g.mode g.status
  pub selected : g.ctrl.select_mode ≡ select_of g.mode
  pub stopped : g.ctrl.stop_bit ≡ stop_bit_of g.mode
  pub channels : All IsConsistent g.channel
  pub six : length g.channel ≡ 6

each_channel-All :
    (e : CanModeChannelEvent) (cs : List CanModeChannel)
    → All IsConsistent cs
    → All IsConsistent (each_channel e cs)
unfolding each_channel
each_channel-All e [] h = tt
each_channel-All e (c ∷ cs) h = (event-IsConsistent c e h.0, each_channel-All e cs h.1)

length-each_channel :
    (e : CanModeChannelEvent) (cs : List CanModeChannel) → length (each_channel e cs) ≡ length cs
unfolding each_channel
length-each_channel e [] = refl
length-each_channel e (c ∷ cs) = ap suc (length-each_channel e cs)

update_at-All :
    (i : ℕ) (e : CanModeChannelEvent) (cs : List CanModeChannel)
    → All IsConsistent cs
    → All IsConsistent (update_at i e cs)
unfolding update_at
update_at-All i e [] h = tt
update_at-All zero e (c ∷ cs) h = (event-IsConsistent c e h.0, h.1)
update_at-All (suc i) e (c ∷ cs) h = (h.0, update_at-All i e cs h.1)

length-update_at :
    (i : ℕ) (e : CanModeChannelEvent) (cs : List CanModeChannel)
    → length (update_at i e cs) ≡ length cs
unfolding update_at
length-update_at i e [] = refl
length-update_at zero e (c ∷ cs) = refl
length-update_at (suc i) e (c ∷ cs) = ap suc (length-update_at i e cs)

pub global_event-IsSound :
    (g : CanModeGlobal) (e : CanModeGlobalEvent) → IsSound g → IsSound (can_mode_global_event g e)
unfolding can_mode_global_event
global_event-IsSound g e h = ground (
  arith,
  each_channel-All Channel.set_stop g.channel h.channels,
  each_channel-All Channel.set_reset g.channel h.channels,
  each_channel-All Channel.set_wait g.channel h.channels,
  length-each_channel Channel.set_stop g.channel,
  length-each_channel Channel.set_reset g.channel,
  length-each_channel Channel.set_wait g.channel,
)

system_event-IsSound :
    (g : CanModeGlobal) (e : SystemEvent) → IsSound g → IsSound (system_event g e)
unfolding system_event
system_event-IsSound g (global e) h = global_event-IsSound g e h
system_event-IsSound g (channel i e) h = record {
  status_tells = h.status_tells;
  selected = h.selected;
  stopped = h.stopped;
  channels = update_at-All i e g.channel h.channels;
  six = length-update_at i e g.channel ∙ h.six;
}

system_after-keeps :
    (g : CanModeGlobal) (es : List SystemEvent) → IsSound g → IsSound (system_after g es)
unfolding system_after
system_after-keeps g [] h = h
system_after-keeps g (e ∷ es) h =
    system_after-keeps (system_event g e) es (system_event-IsSound g e h)

mcu_reset-IsSound : IsSound mcu_reset
mcu_reset-IsSound =
    let c = mcu_reset_channel-IsConsistent in
    record {
      status_tells = (refl, refl, refl);
      selected = refl;
      stopped = refl;
      channels = (c 0, (c 1, (c 2, (c 3, (c 4, (c 5, tt))))));
      six = refl;
    }

-- After an MCU reset and any sequence of events of the controller and of its channels, in any order,
-- the status register and the control register of the controller tell its mode, and those of each
-- of the six channels tell the channel's.
pub system_after-IsSound : (es : List SystemEvent) → IsSound (system_after mcu_reset es)
system_after-IsSound es = system_after-keeps mcu_reset es mcu_reset-IsSound
