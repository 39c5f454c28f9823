-- ===== src/Can/TxRxFifo/Receive.antt =====
-- In the receiving and the gateway mode the FIFO for both directions of can_fifo.c works as the
-- receive FIFO does.
use athrill_target_rh850f1x.Base.{
  ◌≡◌, ◌∙◌, refl, Bool-cases, inl, inr, leb, arith, ◌==◌, false, List, [], ◌∷◌, none,
}
use athrill_target_rh850f1x.Can.Types.{CanData}
use athrill_target_rh850f1x.Can.Queue.{Request, put, next, peek, Reply, serve_all}
use athrill_target_rh850f1x.Can.Fifo.{
  RxFifo, fifo_len, can_rxfifo_put_rxdata, can_rxfifo_next_rxdata, can_rxfifo_peek_rxdata,
}
use athrill_target_rh850f1x.Can.Fifo.Steps.{IsReady, contents}
use athrill_target_rh850f1x.Can.Fifo.Refine.{call, call_all, call_all_refines}
use athrill_target_rh850f1x.Can.TxRxFifo.{
  TxRxFifo, is_tx, can_txrxfifo_put_rxdata, can_txrxfifo_next_rxdata, can_txrxfifo_peek_rxdata,
}

-- The receive FIFO with the same settings, flags and messages.
abbrev pub as_rx : TxRxFifo → RxFifo
as_rx f = record {
  config = record {
    intr_timing_cnt = f.config.intr_timing_cnt;
    enable_intr_everytime = f.config.enable_intr_everytime;
    quelen = f.config.quelen;
    enable_intr = f.config.enable_rx_intr;
    enable_fifo = f.config.enable_fifo;
  };
  status = record {
    rx_intr = f.status.rx_intr;
    rx_lost = f.status.txrx_lost;
    rx_full = f.status.txrx_full;
    rx_empty = f.status.txrx_empty;
  };
  control = f.control;
  buffer = f.rx;
}

-- One call, as the caller sees it.
unfoldable pub receive : Request CanData → TxRxFifo → Reply CanData × TxRxFifo
unfolding can_txrxfifo_put_rxdata can_txrxfifo_next_rxdata can_txrxfifo_peek_rxdata
receive (put x) f = let (status, f') = can_txrxfifo_put_rxdata f x in ((status, none), f')
receive next f = let (status, f') = can_txrxfifo_next_rxdata f in ((status, none), f')
receive peek f = (can_txrxfifo_peek_rxdata f, f)

unfoldable pub receive_all : List (Request CanData) → TxRxFifo → List (Reply CanData)
unfolding receive
receive_all [] f = []
receive_all (q ∷ qs) f = let (a, f') = receive q f in a ∷ receive_all qs f'

receives_as :
    (q : Request CanData) (f : TxRxFifo)
    → is_tx f ≡ false
    → ((receive q f).0 ≡ (call q (as_rx f)).0)
      × (as_rx ((receive q f).1) ≡ (call q (as_rx f)).1)
      × (is_tx ((receive q f).1) ≡ false)
unfolding receive call can_txrxfifo_put_rxdata can_txrxfifo_next_rxdata can_txrxfifo_peek_rxdata
    can_rxfifo_put_rxdata can_rxfifo_next_rxdata can_rxfifo_peek_rxdata
receives_as (put x) f h = elim (Bool-cases f.config.enable_fifo) [
  | inl on ↦ elim (Bool-cases (leb (fifo_len (as_rx f)) f.control.count)) [
    | inl full ↦ rw (h, on, full) (refl, refl, h)
    | inr room ↦ rw (h, on, room) (refl, refl, h)
  ]
  | inr off ↦ rw (h, off) (refl, refl, h)
]
receives_as next f h = elim (Bool-cases f.config.enable_fifo) [
  | inl on ↦ elim (Bool-cases (f.control.count == 0)) [
    | inl gone ↦ rw (h, on, gone) (refl, refl, h)
    | inr some_left ↦ rw (h, on, some_left) (refl, refl, h)
  ]
  | inr off ↦ rw (h, off) (refl, refl, h)
]
receives_as peek f h = ground (arith, h)

-- But in the transmission mode, a sequence of puts, nexts and peeks of received messages gets the
-- answers that a receive FIFO with the same settings, flags and messages gives.
pub receive_all-call_all :
    (qs : List (Request CanData)) (f : TxRxFifo)
    → is_tx f ≡ false
    → receive_all qs f ≡ call_all qs (as_rx f)
unfolding receive_all call_all
receive_all-call_all [] f h = refl
receive_all-call_all (q ∷ qs) f h =
    let one = receives_as q f h in
    rw (receive_all-call_all qs ((receive q f).1) (one.2), one.0, one.1) refl

-- But in the transmission mode, no sequence of puts, nexts and peeks tells a FIFO for both directions
-- that is switched on, with its offsets in its ring and its flags right, from the bounded queue of its
-- messages.
pub receive_all_refines :
    (qs : List (Request CanData)) (f : TxRxFifo)
    → is_tx f ≡ false
    → IsReady (as_rx f)
    → receive_all qs f ≡ serve_all (fifo_len (as_rx f)) qs (contents (as_rx f))
receive_all_refines qs f h v = receive_all-call_all qs f h ∙ call_all_refines qs v
