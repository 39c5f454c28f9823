-- ===== src/Can/TxRxFifo/Transmit/Refine.antt =====
-- A transmitting FIFO of can_fifo.c beside the bounded queue of the messages that it holds.
use athrill_target_rh850f1x.Base.{
  suc, ◌+◌, ◌%◌, ◌^◌, ◌<◌, ◌≡◌, ◌∙◌, arith, refl, ap, ltb_of_lt, ltb_of_not_lt, ◌==◌, ◌||◌, not,
  if◌then◌else◌, List, [], ◌∷◌, ◌++◌, get_or, set, length-set,
}
use native.Mathlib.Decide.{dec_lt}
use mathlib.Core.List.{map, map-append}
use athrill_target_rh850f1x.Can.Types.{
  CanData, empty_tx_buffer, can_txbuffer_set_data, can_txbuffer_ref_data,
}
use athrill_target_rh850f1x.Can.Ring.{
  put_control-IsRing, next_control-IsRing, window, window-pos, window-none, window-set,
}
use athrill_target_rh850f1x.Can.TxRxFifo.{TxRxFifo, txrx_len, can_txrxfifo_notify_txdone}
use athrill_target_rh850f1x.Can.TxRxFifo.Transmit.{
  Transmit, put, get, peek, txdone, transmit, transmit_all, outgoing, outgoing_all, IsSending,
  slots, waiting, length-waiting, stored, taken, put_room, put_full, get_some, get_none, peek_some,
  peek_none,
}

-- A call answers as the queue of the waiting messages does, and leaves the FIFO sending with the
-- messages of that queue.
unfoldable pub Agrees : Transmit → TxRxFifo → Type 0
Agrees q f =
    ((transmit q f).0 ≡ (outgoing (txrx_len f) q (waiting f)).0)
    × (waiting ((transmit q f).1) ≡ (outgoing (txrx_len f) q (waiting f)).1)
    × (txrx_len ((transmit q f).1) ≡ txrx_len f)
    × IsSending ((transmit q f).1)

stored-waiting :
    {f : TxRxFifo} (x : CanData)
    → IsSending f
    → f.control.count < txrx_len f
    → waiting (stored f x) ≡ waiting f ++ (x ∷ [])
stored-waiting {f} x v h =
    let r = v.ring in
    let slot = can_txbuffer_set_data (get_or f.tx f.control.woff empty_tx_buffer) x in
    let step =
      window-set empty_tx_buffer f.tx (txrx_len f) f.control.roff f.control.count f.control.woff
        slot r.small (omega (arith, r.small, r.word)) r.roff_in h r.woff_at in
    let bump : (f.control.count + 1) % 2 ^ 32 ≡ suc f.control.count =
      omega (arith, r.small, r.word) in
    ap
      (λ n.
        map can_txbuffer_ref_data
          (window empty_tx_buffer (set f.tx f.control.woff slot) (txrx_len f) f.control.roff n))
      bump
    ∙ (ap (map can_txbuffer_ref_data) step ∙ map-append can_txbuffer_ref_data (slots f) (slot ∷ []))

stored-IsSending :
    {f : TxRxFifo} (x : CanData)
    → IsSending f
    → f.control.count < txrx_len f
    → IsSending (stored f x)
stored-IsSending {f} x v h = record {
  mode = v.mode;
  on = v.on;
  ring = rw length-set (put_control-IsRing v.ring h);
  full = ground (arith, v.ring.small, v.ring.word);
  empty = λ _. refl;
}

taken-IsSending : {f : TxRxFifo} → IsSending f → 0 < f.control.count → IsSending (taken f)
taken-IsSending {f} v h = record {
  mode = v.mode;
  on = v.on;
  ring = next_control-IsRing v.ring h;
  full = ground (arith, v.ring.count_in);
  empty = λ _. v.empty h;
}

put-Agrees : (x : CanData) {f : TxRxFifo} → IsSending f → Agrees (put x) f
unfolding Agrees transmit outgoing
put-Agrees x {f} v = elim (dec_lt f.control.count (txrx_len f)) [
  | yes h ↦
      rw (put_room x v h, length-waiting f, ltb_of_lt h)
        (refl, stored-waiting x v h, refl, stored-IsSending x v h)
  | no h ↦
      rw (put_full x v (omega (arith, h)), length-waiting f, ltb_of_not_lt h)
        (
          refl,
          refl,
          refl,
          record { mode = v.mode; on = v.on; ring = v.ring; full = v.full; empty = v.empty },
        )
]

get-Agrees : {f : TxRxFifo} → IsSending f → Agrees get f
unfolding Agrees transmit outgoing
get-Agrees {f} v = elim (dec_lt 0 f.control.count) [
  | yes h ↦
      rw
        (
          get_some v h,
          window-pos empty_tx_buffer f.tx (txrx_len f) f.control.roff f.control.count h,
        )
        (refl, refl, refl, taken-IsSending v h)
  | no h ↦
      let none_left : f.control.count ≡ 0 = omega (arith, h) in
      let gone =
        window-none empty_tx_buffer f.tx (txrx_len f) f.control.roff f.control.count none_left in
      rw (get_none v none_left, gone) (refl, refl, refl, v)
]

peek-Agrees : {f : TxRxFifo} → IsSending f → Agrees peek f
unfolding Agrees transmit outgoing
peek-Agrees {f} v = elim (dec_lt 0 f.control.count) [
  | yes h ↦
      rw
        (
          peek_some v h,
          window-pos empty_tx_buffer f.tx (txrx_len f) f.control.roff f.control.count h,
        )
        (refl, refl, refl, v)
  | no h ↦
      let none_left : f.control.count ≡ 0 = omega (arith, h) in
      let gone =
        window-none empty_tx_buffer f.tx (txrx_len f) f.control.roff f.control.count none_left in
      rw (peek_none v none_left, gone) (refl, refl, refl, v)
]

txdone-Agrees : {f : TxRxFifo} → IsSending f → Agrees txdone f
unfolding Agrees transmit outgoing can_txrxfifo_notify_txdone
txdone-Agrees {f} v = rw v.on (
  refl,
  refl,
  refl,
  record {
    mode = v.mode;
    on = refl;
    ring = v.ring;
    full = v.full;
    empty = λ p. ground (arith, v.empty p);
  },
)

call-Agrees : (q : Transmit) {f : TxRxFifo} → IsSending f → Agrees q f
call-Agrees (put x) v = put-Agrees x v
call-Agrees get v = get-Agrees v
call-Agrees peek v = peek-Agrees v
call-Agrees txdone v = txdone-Agrees v

-- No sequence of puts, gets, peeks and ends of transmissions tells a sending FIFO from the bounded
-- queue of its messages, of which a get takes the oldest.
pub transmit_all_refines :
    (qs : List Transmit) {f : TxRxFifo}
    → IsSending f
    → transmit_all qs f ≡ outgoing_all (txrx_len f) qs (waiting f)
unfolding transmit_all outgoing_all Agrees
transmit_all_refines [] v = refl
transmit_all_refines (q ∷ qs) {f} v =
    let one = call-Agrees q v in rw (transmit_all_refines qs (one.3), one.0, one.1, one.2) refl

-- The end of a transmission raises the interrupt, or leaves it raised, where the FIFO interrupts for
-- every message or holds none. A FIFO that is switched off loses its messages, and one that holds
-- none, or none any more, tells that it is empty.
pub txdone_effects :
    (f : TxRxFifo)
    → let f' = (can_txrxfifo_notify_txdone f).1 in
      (f'.status.tx_intr
        ≡ (f.config.enable_intr_everytime || f.control.count == 0 || f.status.tx_intr))
      × (f'.control.count ≡ (if f.config.enable_fifo then f.control.count else 0))
      × (f'.status.txrx_empty
          ≡ (not f.config.enable_fifo || f.control.count == 0 || f.status.txrx_empty))
unfolding can_txrxfifo_notify_txdone
txdone_effects f = (ground arith, ground arith, ground arith)
