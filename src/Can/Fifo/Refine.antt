-- ===== src/Can/Fifo/Refine.antt =====
-- The receive FIFO, can_fifo.c, beside the bounded queue of the messages that it holds.
use athrill_target_rh850f1x.Base.{
  ℕ, suc, ◌+◌, ◌%◌, ◌<◌, ◌^◌, ◌≡◌, arith, refl, ap, ◌∙◌, Bool, ◌||◌, ◌*◌, ◌/◌, leb, ltb_of_lt,
  ltb_of_not_lt, ◌==◌, if◌then◌else◌, List, [], ◌∷◌, ◌++◌, get_or, set, length-set, none,
}
use native.Mathlib.Decide.{dec_lt}
use mathlib.Core.List.{map, map-append}
use athrill_target_rh850f1x.Can.Types.{
  CanData, empty_buffer, can_rxbuffer_set_data, can_rxbuffer_ref_data,
}
use athrill_target_rh850f1x.Can.Ring.{
  put_control-IsRing, next_control-IsRing, window, window-pos, window-none, window-set,
}
use athrill_target_rh850f1x.Can.Queue.{Request, put, next, peek, Reply, serve, serve_all}
use athrill_target_rh850f1x.Can.Fifo.{
  RxFifo, fifo_len, can_rxfifo_put_rxdata, can_rxfifo_next_rxdata, can_rxfifo_peek_rxdata,
}
use athrill_target_rh850f1x.Can.Fifo.Steps.{
  IsReady, slots, contents, length-contents, stored, dropped, put_room, put_full, next_some,
  next_none, peek_some, peek_none,
}

-- One call, as the caller sees it.
unfoldable pub call : Request CanData → RxFifo → Reply CanData × RxFifo
unfolding can_rxfifo_put_rxdata can_rxfifo_next_rxdata can_rxfifo_peek_rxdata
call (put x) f = let (status, f') = can_rxfifo_put_rxdata f x in ((status, none), f')
call next f = let (status, f') = can_rxfifo_next_rxdata f in ((status, none), f')
call peek f = (can_rxfifo_peek_rxdata f, f)

unfoldable pub call_all : List (Request CanData) → RxFifo → List (Reply CanData)
unfolding call
call_all [] f = []
call_all (q ∷ qs) f = let (a, f') = call q f in a ∷ call_all qs f'

-- A call answers as the queue of the contents does, and leaves the FIFO ready with the contents
-- of that queue.
unfoldable pub Agrees : Request CanData → RxFifo → Type 0
Agrees q f =
    ((call q f).0 ≡ (serve (fifo_len f) q (contents f)).0)
    × (contents ((call q f).1) ≡ (serve (fifo_len f) q (contents f)).1)
    × (fifo_len ((call q f).1) ≡ fifo_len f)
    × IsReady ((call q f).1)

stored-contents :
    {f : RxFifo} (x : CanData) (intr : Bool)
    → IsReady f
    → f.control.count < fifo_len f
    → contents (stored f x intr) ≡ contents f ++ (x ∷ [])
stored-contents {f} x intr v h =
    let r = v.ring in
    let slot = can_rxbuffer_set_data (get_or f.buffer f.control.woff empty_buffer) x in
    let step =
      window-set empty_buffer f.buffer (fifo_len f) f.control.roff f.control.count f.control.woff
        slot r.small (omega (arith, r.small, r.word)) r.roff_in h r.woff_at in
    let bump : (f.control.count + 1) % 2 ^ 32 ≡ suc f.control.count =
      omega (arith, r.small, r.word) in
    ap
      (λ n.
        map can_rxbuffer_ref_data
          (window empty_buffer (set f.buffer f.control.woff slot) (fifo_len f) f.control.roff n))
      bump
    ∙ (ap (map can_rxbuffer_ref_data) step ∙ map-append can_rxbuffer_ref_data (slots f) (slot ∷ []))

stored-IsReady :
    {f : RxFifo} (x : CanData) (intr : Bool)
    → IsReady f
    → f.control.count < fifo_len f
    → IsReady (stored f x intr)
stored-IsReady {f} x intr v h = record {
  on = v.on;
  ring = rw length-set (put_control-IsRing v.ring h);
  full = ground (arith, v.ring.small, v.ring.word);
  empty = ground (arith, v.ring.small, v.ring.word);
}

dropped-IsReady : {f : RxFifo} → IsReady f → 0 < f.control.count → IsReady (dropped f)
dropped-IsReady {f} v h = record {
  on = v.on;
  ring = next_control-IsRing v.ring h;
  full = ground (arith, v.ring.count_in);
  empty = refl;
}

put-Agrees : (x : CanData) {f : RxFifo} → IsReady f → Agrees (put x) f
unfolding Agrees call serve
put-Agrees x {f} v = elim (dec_lt f.control.count (fifo_len f)) [
  | yes h ↦
      let intr = (can_rxfifo_put_rxdata f x).1.status.rx_intr in
      rw (put_room x v h, length-contents f, ltb_of_lt h)
        (refl, stored-contents x intr v h, refl, stored-IsReady x intr v h)
  | no h ↦
      rw (put_full x v (omega (arith, h)), length-contents f, ltb_of_not_lt h)
        (refl, refl, refl, record { on = v.on; ring = v.ring; full = v.full; empty = v.empty })
]

next-Agrees : {f : RxFifo} → IsReady f → Agrees next f
unfolding Agrees call serve
next-Agrees {f} v = elim (dec_lt 0 f.control.count) [
  | yes h ↦
      rw
        (
          next_some v h,
          window-pos empty_buffer f.buffer (fifo_len f) f.control.roff f.control.count h,
        )
        (refl, refl, refl, dropped-IsReady v h)
  | no h ↦
      let none_left : f.control.count ≡ 0 = omega (arith, h) in
      let gone =
        window-none empty_buffer f.buffer (fifo_len f) f.control.roff f.control.count none_left in
      rw (next_none v none_left, gone) (refl, refl, refl, v)
]

peek-Agrees : {f : RxFifo} → IsReady f → Agrees peek f
unfolding Agrees call serve
peek-Agrees {f} v = elim (dec_lt 0 f.control.count) [
  | yes h ↦
      rw
        (
          peek_some v h,
          window-pos empty_buffer f.buffer (fifo_len f) f.control.roff f.control.count h,
        )
        (refl, refl, refl, v)
  | no h ↦
      let none_left : f.control.count ≡ 0 = omega (arith, h) in
      let gone =
        window-none empty_buffer f.buffer (fifo_len f) f.control.roff f.control.count none_left in
      rw (peek_none v none_left, gone) (refl, refl, refl, v)
]

-- A call on a ready FIFO answers as the bounded queue of its messages does, leaves the FIFO with
-- the messages that this queue then has, and leaves it ready.
pub call_refines : (q : Request CanData) {f : RxFifo} → IsReady f → Agrees q f
call_refines (put x) v = put-Agrees x v
call_refines next v = next-Agrees v
call_refines peek v = peek-Agrees v

-- No sequence of puts, nexts and peeks tells a ready FIFO from the bounded queue of its messages.
pub call_all_refines :
    (qs : List (Request CanData)) {f : RxFifo}
    → IsReady f
    → call_all qs f ≡ serve_all (fifo_len f) qs (contents f)
unfolding call_all serve_all Agrees
call_all_refines [] v = refl
call_all_refines (q ∷ qs) {f} v =
    let one = call_refines q v in rw (call_all_refines qs (one.3), one.0, one.1, one.2) refl

-- The number of messages from which on the FIFO interrupts.
abbrev pub threshold : RxFifo → ℕ
threshold f =
    if f.config.intr_timing_cnt == 7
    then fifo_len f
    else fifo_len f * (f.config.intr_timing_cnt + 1) / 8

-- Storing a message in a ready FIFO with room raises the interrupt, or leaves it raised, where the
-- FIFO interrupts for every message or then holds at least the configured share of its length,
-- whether or not its interrupt is enabled.
pub put-rx_intr :
    {f : RxFifo} (x : CanData)
    → IsReady f
    → f.control.count < fifo_len f
    → (can_rxfifo_put_rxdata f x).1.status.rx_intr ≡ (
        f.status.rx_intr
        || f.config.enable_intr_everytime
        || leb (threshold f) (f.control.count + 1))
unfolding can_rxfifo_put_rxdata
put-rx_intr {f} x v h = ground (arith, v.on, v.ring.count_in, v.ring.small, v.ring.word)
