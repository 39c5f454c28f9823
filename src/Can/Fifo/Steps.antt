-- ===== src/Can/Fifo/Steps.antt =====
-- What each call does to a ready receive FIFO.
use athrill_target_rh850f1x.Base.{
  ◌+◌, ◌-◌, ◌≤◌, ◌<◌, ◌≡◌, arith, Bool, true, false, leb, ◌==◌, List, length, get_or, set, none,
  some,
}
use mathlib.Core.List.{map}
use athrill_target_rh850f1x.Can.Types.{
  std_e_ok, std_e_limit, std_e_noent, CanData, CanRxBuffer, empty_buffer, can_rxbuffer_set_data,
  can_rxbuffer_ref_data,
}
use athrill_target_rh850f1x.Can.Ring.{IsRing, put_control, next_control, window, length-map-window}
use athrill_target_rh850f1x.Can.Fifo.{
  RxFifo, fifo_len, can_rxfifo_put_rxdata, can_rxfifo_next_rxdata, can_rxfifo_peek_rxdata,
}

-- The FIFO is switched on, its ring lies in its buffer, and its flags say how full it is.
pub record IsReady (f : RxFifo) : Type 0 where
  pub on : f.config.enable_fifo ≡ true
  pub ring : IsRing (fifo_len f) (length f.buffer) f.control
  pub full : f.status.rx_full ≡ leb (fifo_len f) f.control.count
  pub empty : f.status.rx_empty ≡ (f.control.count == 0)

-- The messages that the FIFO holds, oldest first.
abbrev pub slots : RxFifo → List CanRxBuffer
slots f = window empty_buffer f.buffer (fifo_len f) f.control.roff f.control.count

abbrev pub contents : RxFifo → List CanData
contents f = map can_rxbuffer_ref_data (slots f)

pub length-contents : (f : RxFifo) → length (contents f) ≡ f.control.count
length-contents f =
    length-map-window empty_buffer can_rxbuffer_ref_data f.buffer (fifo_len f) f.control.roff
      f.control.count

-- What the FIFO is after it stored a message, and after it dropped its oldest.
abbrev pub stored : RxFifo → CanData → Bool → RxFifo
stored f x intr = record f {
  buffer =
      set f.buffer f.control.woff
        (can_rxbuffer_set_data (get_or f.buffer f.control.woff empty_buffer) x);
  control = put_control (fifo_len f) f.control;
  status = record (f.status) {
    rx_full = leb (fifo_len f) (f.control.count + 1);
    rx_empty = false;
    rx_intr = intr;
  };
}

abbrev pub dropped : RxFifo → RxFifo
dropped f = record f {
  control = next_control (fifo_len f) f.control;
  status = record (f.status) { rx_full = false; rx_empty = (f.control.count - 1) == 0 };
}

pub put_room :
    {f : RxFifo} (x : CanData)
    → IsReady f
    → f.control.count < fifo_len f
    → can_rxfifo_put_rxdata f x
      ≡ (std_e_ok, stored f x ((can_rxfifo_put_rxdata f x).1.status.rx_intr))
unfolding can_rxfifo_put_rxdata
put_room {f} x v h = ground (arith, v.on, v.full, v.ring.count_in, v.ring.small, v.ring.word)

pub put_full :
    {f : RxFifo} (x : CanData)
    → IsReady f
    → fifo_len f ≤ f.control.count
    → can_rxfifo_put_rxdata f x
      ≡ (std_e_limit, record f { status = record (f.status) { rx_lost = true } })
unfolding can_rxfifo_put_rxdata
put_full {f} x v h = ground (arith, v.on)

pub next_some :
    {f : RxFifo}
    → IsReady f
    → 0 < f.control.count
    → can_rxfifo_next_rxdata f ≡ (std_e_ok, dropped f)
unfolding can_rxfifo_next_rxdata
next_some {f} v h = ground (arith, v.on, v.empty, v.ring.count_in)

pub next_none :
    {f : RxFifo} → IsReady f → f.control.count ≡ 0 → can_rxfifo_next_rxdata f ≡ (std_e_noent, f)
unfolding can_rxfifo_next_rxdata
next_none {f} v h = ground (arith, v.on)

pub peek_some :
    {f : RxFifo}
    → IsReady f
    → 0 < f.control.count
    → can_rxfifo_peek_rxdata f
      ≡ (std_e_ok, some (can_rxbuffer_ref_data (get_or f.buffer f.control.roff empty_buffer)))
unfolding can_rxfifo_peek_rxdata
peek_some {f} v h = ground (arith, v.on)

pub peek_none :
    {f : RxFifo} → IsReady f → f.control.count ≡ 0 → can_rxfifo_peek_rxdata f ≡ (std_e_noent, none)
unfolding can_rxfifo_peek_rxdata
peek_none {f} v h = ground (arith, v.on)
