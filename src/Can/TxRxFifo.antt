-- ===== src/Can/TxRxFifo.antt =====
-- The FIFO for both directions, the can_txrxfifo_ functions of can_fifo.c in
-- src/device/peripheral/rh850f1k/can. An operation takes the FIFO that its channel and number
-- select in can_txrx_fifo_control, and returns it beside its result.
pub mod Receive
pub mod Transmit
mod Tests
use athrill_target_rh850f1x.Base.{
  ℕ, ◌+◌, ◌*◌, ◌/◌, ◌%◌, ◌^◌, Bool, true, false, if◌then◌else◌, ltb, leb, ◌==◌, not, List, [], ◌∷◌,
  get_or, set, Option, none, some,
}
use athrill_target_rh850f1x.Can.Types.{
  StdReturn, std_e_ok, std_e_perm, std_e_limit, std_e_noent, CanData, CanRxBuffer, CanTxBuffer,
  CanFifoControl, can_rxbuffer_set_data, can_rxbuffer_ref_data, can_txbuffer_set_data,
  can_txbuffer_ref_data, empty_buffer, empty_tx_buffer, can_fifo_clear,
}
use athrill_target_rh850f1x.Can.Ring.{put_control, next_control}
use athrill_target_rh850f1x.Can.Fifo.{
  can_fifo_quelen, IntrParam, can_fifo_rx_interrupt_occured, raise,
}

abbrev pub can_txrx_fifo_mode_tx : ℕ
can_txrx_fifo_mode_tx = 1

pub record TxRxFifoConfig : Type 0 where
  pub tx_bufno : ℕ
  pub mode : ℕ
  pub intr_timing_cnt : ℕ
  pub enable_intr_everytime : Bool
  pub quelen : ℕ
  pub enable_tx_intr : Bool
  pub enable_rx_intr : Bool
  pub enable_fifo : Bool

pub record TxRxFifoStatus : Type 0 where
  pub msg_num : ℕ
  pub tx_intr : Bool
  pub rx_intr : Bool
  pub txrx_lost : Bool
  pub txrx_full : Bool
  pub txrx_empty : Bool

-- CanTxRxFifoBufferType. `rx` and `tx` are the arms of a union; a function uses the arm of the
-- mode, which none changes, so that the overlap does not show.
pub record TxRxFifo : Type 0 where
  pub config : TxRxFifoConfig
  pub status : TxRxFifoStatus
  pub fifo_ptr : ℕ
  pub control : CanFifoControl
  pub rx : List CanRxBuffer
  pub tx : List CanTxBuffer

abbrev pub is_tx : TxRxFifo → Bool
is_tx f = f.config.mode == can_txrx_fifo_mode_tx

-- can_fifo_quelen[fifo->config.quelen]
abbrev pub txrx_len : TxRxFifo → ℕ
txrx_len f = get_or can_fifo_quelen f.config.quelen 0

unfoldable pub can_txrxfifo_put_rxdata : TxRxFifo → CanData → StdReturn × TxRxFifo
unfolding can_fifo_rx_interrupt_occured
can_txrxfifo_put_rxdata f rxdata =
    if is_tx f
    then (std_e_perm, f)
    else if not f.config.enable_fifo
    then (std_e_perm, f)
    else if leb (txrx_len f) f.control.count
    then (std_e_limit, record f { status = record (f.status) { txrx_lost = true } })
    else (let slot = can_rxbuffer_set_data (get_or f.rx f.control.woff empty_buffer) rxdata in
        let control = put_control (txrx_len f) f.control in
        let param : IntrParam = record {
          enable_intr = f.config.enable_fifo;
          enable_intr_everytime = f.config.enable_intr_everytime;
          intr_timing_cnt = f.config.intr_timing_cnt;
          quelen_max = txrx_len f;
        } in
        let status = record (f.status) {
          txrx_full = raise (leb (txrx_len f) control.count) f.status.txrx_full;
          txrx_empty = false;
          rx_intr = raise (can_fifo_rx_interrupt_occured control param) f.status.rx_intr;
        } in
        (
          std_e_ok,
          record f { rx = set f.rx f.control.woff slot; control = control; status = status },
        ))

unfoldable pub can_txrxfifo_peek_rxdata : TxRxFifo → StdReturn × Option CanData
can_txrxfifo_peek_rxdata f =
    if is_tx f
    then (std_e_perm, none)
    else if not f.config.enable_fifo
    then (std_e_perm, none)
    else if f.control.count == 0
    then (std_e_noent, none)
    else (std_e_ok, some (can_rxbuffer_ref_data (get_or f.rx f.control.roff empty_buffer)))

unfoldable pub can_txrxfifo_next_rxdata : TxRxFifo → StdReturn × TxRxFifo
can_txrxfifo_next_rxdata f =
    if is_tx f
    then (std_e_perm, f)
    else if not f.config.enable_fifo
    then (std_e_perm, f)
    else if f.control.count == 0
    then (std_e_noent, f)
    else (let control = next_control (txrx_len f) f.control in
        let status = record (f.status) {
          txrx_full = if ltb control.count (txrx_len f) then false else f.status.txrx_full;
          txrx_empty = raise (leb control.count 0) f.status.txrx_empty;
        } in
        (std_e_ok, record f { control = control; status = status }))

unfoldable pub can_txrxfifo_put_txdata : TxRxFifo → CanData → StdReturn × TxRxFifo
can_txrxfifo_put_txdata f txdata =
    if not (is_tx f)
    then (std_e_perm, f)
    else if not f.config.enable_fifo
    then (std_e_perm, f)
    else if leb (txrx_len f) f.control.count
    then (std_e_limit, record f { status = record (f.status) { txrx_lost = true } })
    else (let slot = can_txbuffer_set_data (get_or f.tx f.control.woff empty_tx_buffer) txdata in
        let control = put_control (txrx_len f) f.control in
        let status = record (f.status) {
          txrx_full = raise (leb (txrx_len f) control.count) f.status.txrx_full;
          txrx_empty = false;
        } in
        (
          std_e_ok,
          record f { tx = set f.tx f.control.woff slot; control = control; status = status },
        ))

unfoldable pub can_txrxfifo_get_txdata : TxRxFifo → (StdReturn × Option CanData) × TxRxFifo
can_txrxfifo_get_txdata f =
    if not (is_tx f)
    then ((std_e_perm, none), f)
    else if not f.config.enable_fifo
    then ((std_e_perm, none), f)
    else if f.control.count == 0
    then ((std_e_noent, none), f)
    else (let message = can_txbuffer_ref_data (get_or f.tx f.control.roff empty_tx_buffer) in
        let control = next_control (txrx_len f) f.control in
        let status = record (f.status) {
          txrx_full = if ltb control.count (txrx_len f) then false else f.status.txrx_full;
        } in
        ((std_e_ok, some message), record f { control = control; status = status }))

unfoldable pub can_txrxfifo_peek_txdata : TxRxFifo → StdReturn × Option CanData
can_txrxfifo_peek_txdata f =
    if not (is_tx f)
    then (std_e_perm, none)
    else if not f.config.enable_fifo
    then (std_e_perm, none)
    else if f.control.count == 0
    then (std_e_noent, none)
    else (std_e_ok, some (can_txbuffer_ref_data (get_or f.tx f.control.roff empty_tx_buffer)))

unfoldable pub can_txrxfifo_notify_txdone : TxRxFifo → StdReturn × TxRxFifo
can_txrxfifo_notify_txdone f =
    let tx_intr =
      if f.config.enable_intr_everytime
      then true
      else raise (leb f.control.count 0) f.status.tx_intr in
    let control = if f.config.enable_fifo then f.control else can_fifo_clear in
    let status = record (f.status) {
      tx_intr = tx_intr;
      txrx_empty = raise (leb control.count 0) f.status.txrx_empty;
    } in
    (std_e_ok, record f { control = control; status = status })

unfoldable pub can_txrxfifo_clear : TxRxFifo → StdReturn × TxRxFifo
can_txrxfifo_clear f = (std_e_ok, record f { control = can_fifo_clear })
