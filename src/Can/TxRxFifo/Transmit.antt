-- ===== src/Can/TxRxFifo/Transmit.antt =====
-- In the transmission mode the FIFO for both directions of can_fifo.c is a bounded queue too, whose
-- oldest message is taken and read at once; its flag for the empty FIFO waits for the end of the
-- transmission.
pub mod Refine
use athrill_target_rh850f1x.Base.{
  ℕ, zero, suc, ◌+◌, ◌-◌, ◌%◌, ◌^◌, ◌≤◌, ◌<◌, ◌≡◌, ◌∙◌, arith, refl, ap, Bool, true, false, leb,
  ltb, ltb_of_lt, ltb_of_not_lt, ◌==◌, if◌then◌else◌, List, [], ◌∷◌, ◌++◌, length, get_or, set,
  length-set, Option, none, some,
}
use native.Mathlib.Decide.{dec_lt}
use mathlib.Core.List.{map, map-append}
use athrill_target_rh850f1x.Can.Types.{
  StdReturn, std_e_ok, std_e_limit, std_e_noent, CanData, CanTxBuffer, empty_tx_buffer,
  can_txbuffer_set_data, can_txbuffer_ref_data,
}
use athrill_target_rh850f1x.Can.Ring.{
  IsRing, put_control, next_control, put_control-IsRing, next_control-IsRing, window,
  length-map-window, window-pos, window-none, window-set,
}
use athrill_target_rh850f1x.Can.Queue.{Reply}
use athrill_target_rh850f1x.Can.TxRxFifo.{
  TxRxFifo, is_tx, txrx_len, can_txrxfifo_put_txdata, can_txrxfifo_get_txdata,
  can_txrxfifo_peek_txdata, can_txrxfifo_notify_txdone,
}

pub data Transmit : Type 0 where
  put : CanData → Transmit
  get : Transmit
  peek : Transmit
  txdone : Transmit

-- One call, as the caller sees it.
unfoldable pub transmit : Transmit → TxRxFifo → Reply CanData × TxRxFifo
unfolding can_txrxfifo_put_txdata can_txrxfifo_get_txdata can_txrxfifo_peek_txdata
    can_txrxfifo_notify_txdone
transmit (put x) f = let (status, f') = can_txrxfifo_put_txdata f x in ((status, none), f')
transmit get f = can_txrxfifo_get_txdata f
transmit peek f = (can_txrxfifo_peek_txdata f, f)
transmit txdone f = let (status, f') = can_txrxfifo_notify_txdone f in ((status, none), f')

unfoldable pub transmit_all : List Transmit → TxRxFifo → List (Reply CanData)
unfolding transmit
transmit_all [] f = []
transmit_all (q ∷ qs) f = let (a, f') = transmit q f in a ∷ transmit_all qs f'

-- The bounded queue: `get` takes the oldest message, and the end of a transmission changes nothing.
unfoldable pub outgoing : ℕ → Transmit → List CanData → Reply CanData × List CanData
outgoing most (put x) xs =
    if ltb (length xs) most then ((std_e_ok, none), xs ++ (x ∷ [])) else ((std_e_limit, none), xs)
outgoing most get [] = ((std_e_noent, none), [])
outgoing most get (x ∷ xs) = ((std_e_ok, some x), xs)
outgoing most peek [] = ((std_e_noent, none), [])
outgoing most peek (x ∷ xs) = ((std_e_ok, some x), x ∷ xs)
outgoing most txdone xs = ((std_e_ok, none), xs)

unfoldable pub outgoing_all : ℕ → List Transmit → List CanData → List (Reply CanData)
unfolding outgoing
outgoing_all most [] xs = []
outgoing_all most (q ∷ qs) xs = let (a, ys) = outgoing most q xs in a ∷ outgoing_all most qs ys

-- The FIFO transmits and is switched on, its ring lies in its buffer, its flag for the full FIFO is
-- right, and it does not tell that it is empty while it holds a message.
pub record IsSending (f : TxRxFifo) : Type 0 where
  pub mode : is_tx f ≡ true
  pub on : f.config.enable_fifo ≡ true
  pub ring : IsRing (txrx_len f) (length f.tx) f.control
  pub full : f.status.txrx_full ≡ leb (txrx_len f) f.control.count
  pub empty : 0 < f.control.count → f.status.txrx_empty ≡ false

abbrev pub slots : TxRxFifo → List CanTxBuffer
slots f = window empty_tx_buffer f.tx (txrx_len f) f.control.roff f.control.count

-- The messages that the FIFO holds, oldest first.
abbrev pub waiting : TxRxFifo → List CanData
waiting f = map can_txbuffer_ref_data (slots f)

pub length-waiting : (f : TxRxFifo) → length (waiting f) ≡ f.control.count
length-waiting f =
    length-map-window empty_tx_buffer can_txbuffer_ref_data f.tx (txrx_len f) f.control.roff
      f.control.count

-- What the FIFO is after it stored a message, and after its oldest was taken.
abbrev pub stored : TxRxFifo → CanData → TxRxFifo
stored f x = record f {
  tx =
      set f.tx f.control.woff
        (can_txbuffer_set_data (get_or f.tx f.control.woff empty_tx_buffer) x);
  control = put_control (txrx_len f) f.control;
  status = record (f.status) {
    txrx_full = leb (txrx_len f) (f.control.count + 1);
    txrx_empty = false;
  };
}

abbrev pub taken : TxRxFifo → TxRxFifo
taken f = record f {
  control = next_control (txrx_len f) f.control;
  status = record (f.status) { txrx_full = false };
}

pub put_room :
    {f : TxRxFifo} (x : CanData)
    → IsSending f
    → f.control.count < txrx_len f
    → can_txrxfifo_put_txdata f x ≡ (std_e_ok, stored f x)
unfolding can_txrxfifo_put_txdata
put_room {f} x v h =
    rw (v.mode, v.on) (ground (arith, v.full, v.ring.count_in, v.ring.small, v.ring.word))

pub put_full :
    {f : TxRxFifo} (x : CanData)
    → IsSending f
    → txrx_len f ≤ f.control.count
    → can_txrxfifo_put_txdata f x
      ≡ (std_e_limit, record f { status = record (f.status) { txrx_lost = true } })
unfolding can_txrxfifo_put_txdata
put_full {f} x v h = rw (v.mode, v.on) (ground arith)

pub get_some :
    {f : TxRxFifo}
    → IsSending f
    → 0 < f.control.count
    → can_txrxfifo_get_txdata f ≡ (
      (std_e_ok, some (can_txbuffer_ref_data (get_or f.tx f.control.roff empty_tx_buffer))),
      taken f,
    )
unfolding can_txrxfifo_get_txdata
get_some {f} v h = rw (v.mode, v.on) (ground (arith, v.ring.count_in))

pub get_none :
    {f : TxRxFifo}
    → IsSending f
    → f.control.count ≡ 0
    → can_txrxfifo_get_txdata f ≡ ((std_e_noent, none), f)
unfolding can_txrxfifo_get_txdata
get_none {f} v h = rw (v.mode, v.on) (ground arith)

pub peek_some :
    {f : TxRxFifo}
    → IsSending f
    → 0 < f.control.count
    → can_txrxfifo_peek_txdata f
      ≡ (std_e_ok, some (can_txbuffer_ref_data (get_or f.tx f.control.roff empty_tx_buffer)))
unfolding can_txrxfifo_peek_txdata
peek_some {f} v h = rw (v.mode, v.on) (ground arith)

pub peek_none :
    {f : TxRxFifo}
    → IsSending f
    → f.control.count ≡ 0
    → can_txrxfifo_peek_txdata f ≡ (std_e_noent, none)
unfolding can_txrxfifo_peek_txdata
peek_none {f} v h = rw (v.mode, v.on) (ground arith)
