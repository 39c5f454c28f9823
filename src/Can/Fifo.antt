-- ===== src/Can/Fifo.antt =====
-- The receive FIFO, can_fifo.c of src/device/peripheral/rh850f1k/can. An operation takes the FIFO
-- that its number selects in can_rx_fifo_control, and returns it beside its result.
pub mod Steps
pub mod Refine
use athrill_target_rh850f1x.Base.{
  ℕ, ◌+◌, ◌*◌, ◌/◌, ◌%◌, ◌^◌, Bool, true, false, if◌then◌else◌, ltb, leb, ◌==◌, List, [], ◌∷◌,
  get_or, set, Option, none, some,
}
use athrill_target_rh850f1x.Can.Types.{
  StdReturn, std_e_ok, std_e_perm, std_e_limit, std_e_noent, CanData, CanRxBuffer, CanFifoControl,
  can_rxbuffer_set_data, can_rxbuffer_ref_data, empty_buffer, can_fifo_clear,
}
use athrill_target_rh850f1x.Can.Ring.{put_control, next_control}

-- CAN_RX_FIFO_QUEUE_MAX
abbrev pub can_rx_fifo_queue_max : ℕ
can_rx_fifo_queue_max = 128

-- The lengths that the configuration selects from.
abbrev pub can_fifo_quelen : List ℕ
can_fifo_quelen = 0 ∷ 4 ∷ 8 ∷ 16 ∷ 32 ∷ 48 ∷ 64 ∷ can_rx_fifo_queue_max ∷ []

pub record RxFifoConfig : Type 0 where
  pub intr_timing_cnt : ℕ
  pub enable_intr_everytime : Bool
  pub quelen : ℕ
  pub enable_intr : Bool
  pub enable_fifo : Bool

pub record RxFifoStatus : Type 0 where
  pub rx_intr : Bool
  pub rx_lost : Bool
  pub rx_full : Bool
  pub rx_empty : Bool

-- CanRxFifoBufferType
pub record RxFifo : Type 0 where
  pub config : RxFifoConfig
  pub status : RxFifoStatus
  pub control : CanFifoControl
  pub buffer : List CanRxBuffer

-- can_fifo_quelen[fifo->config.quelen]; the field has three bits.
abbrev pub fifo_len : RxFifo → ℕ
fifo_len f = get_or can_fifo_quelen f.config.quelen 0

-- CanFifoRxInterruptParamType
pub record IntrParam : Type 0 where
  pub enable_intr : Bool
  pub enable_intr_everytime : Bool
  pub intr_timing_cnt : ℕ
  pub quelen_max : ℕ

unfoldable pub can_fifo_rx_interrupt_occured : CanFifoControl → IntrParam → Bool
can_fifo_rx_interrupt_occured control param =
    if param.enable_intr
    then (if param.enable_intr_everytime
        then true
        else (let intr_count =
              if param.intr_timing_cnt == 7
              then param.quelen_max
              else param.quelen_max * (param.intr_timing_cnt + 1) / 8 in
            leb intr_count control.count))
    else false

-- `if (test) flag = TRUE;`
abbrev pub raise : Bool → Bool → Bool
raise test flag = if test then true else flag

-- The interrupt parameter takes its `enable_intr` from `enable_fifo`.
unfoldable pub can_rxfifo_put_rxdata : RxFifo → CanData → StdReturn × RxFifo
unfolding can_fifo_rx_interrupt_occured
can_rxfifo_put_rxdata f rxdata =
    if f.config.enable_fifo
    then (if leb (fifo_len f) f.control.count
        then (std_e_limit, record f { status = record (f.status) { rx_lost = true } })
        else (let slot =
              can_rxbuffer_set_data (get_or f.buffer f.control.woff empty_buffer) rxdata in
            let control = put_control (fifo_len f) f.control in
            let param : IntrParam = record {
              enable_intr = f.config.enable_fifo;
              enable_intr_everytime = f.config.enable_intr_everytime;
              intr_timing_cnt = f.config.intr_timing_cnt;
              quelen_max = fifo_len f;
            } in
            let status = record (f.status) {
              rx_full = raise (leb (fifo_len f) control.count) f.status.rx_full;
              rx_empty = false;
              rx_intr = raise (can_fifo_rx_interrupt_occured control param) f.status.rx_intr;
            } in
            (
              std_e_ok,
              record f {
                buffer = set f.buffer f.control.woff slot;
                control = control;
                status = status;
              },
            )))
    else (std_e_perm, f)

unfoldable pub can_rxfifo_next_rxdata : RxFifo → StdReturn × RxFifo
can_rxfifo_next_rxdata f =
    if f.config.enable_fifo
    then (if f.control.count == 0
        then (std_e_noent, f)
        else (let control = next_control (fifo_len f) f.control in
            let status = record (f.status) {
              rx_full = if ltb control.count (fifo_len f) then false else f.status.rx_full;
              rx_empty = raise (leb control.count 0) f.status.rx_empty;
            } in
            (std_e_ok, record f { control = control; status = status })))
    else (std_e_perm, f)

unfoldable pub can_rxfifo_peek_rxdata : RxFifo → StdReturn × Option CanData
can_rxfifo_peek_rxdata f =
    if f.config.enable_fifo
    then (if f.control.count == 0
        then (std_e_noent, none)
        else (std_e_ok, some (can_rxbuffer_ref_data (get_or f.buffer f.control.roff empty_buffer))))
    else (std_e_perm, none)

unfoldable pub can_rxfifo_clear : RxFifo → StdReturn × RxFifo
can_rxfifo_clear f = (std_e_ok, record f { control = can_fifo_clear })
