-- ===== src/Can/History.antt =====
-- The transmission history of a channel, can_tx_history.c of src/device/peripheral/rh850f1k/can. An
-- operation takes the history that its channel selects in can_tx_history, and returns it.
pub mod Refine
mod Tests
use athrill_target_rh850f1x.Base.{
  ℕ, Bool, true, false, if◌then◌else◌, leb, ◌==◌, List, [], get_or, set, Option, none, some,
}
use athrill_target_rh850f1x.Can.Types.{
  StdReturn, std_e_ok, std_e_invalid, std_e_limit, std_e_noent, CanFifoControl,
}
use athrill_target_rh850f1x.Can.Ring.{put_control, next_control}

-- CAN_TX_HISTORY_BUFFER_NUM
abbrev pub can_tx_history_buffer_num : ℕ
can_tx_history_buffer_num = 16

-- CAN_TX_HISTORY_INTR_BUFNUM
abbrev pub can_tx_history_intr_bufnum : ℕ
can_tx_history_intr_bufnum = 12

-- CanTxHistoryDataType
pub record TxHistoryData : Type 0 where
  pub label : ℕ
  pub bufno : ℕ
  pub buftype : ℕ

pub record TxHistoryConfig : Type 0 where
  pub select_tx_buffer : Bool
  pub select_intr_factor : Bool
  pub enable_intr : Bool
  pub enable_history : Bool

pub record TxHistoryStatus : Type 0 where
  pub thl_intr : Bool
  pub thl_ovr : Bool
  pub thl_full : Bool
  pub thl_empty : Bool

-- CanTxHistoryType
pub record TxHistory : Type 0 where
  pub config : TxHistoryConfig
  pub status : TxHistoryStatus
  pub control : CanFifoControl
  pub buffer : List TxHistoryData

-- An entry that nothing was written to.
abbrev pub empty_entry : TxHistoryData
empty_entry = record { label = 0; bufno = 0; buftype = 0 }

unfoldable pub can_txhl_put_thldata : TxHistory → TxHistoryData → StdReturn × TxHistory
can_txhl_put_thldata t thldata =
    if t.config.enable_history
    then (if leb can_tx_history_buffer_num t.control.count
        then (std_e_limit, record t { status = record (t.status) { thl_ovr = true } })
        else (let control = put_control can_tx_history_buffer_num t.control in
            let thl_intr =
              if t.config.select_intr_factor
              then true
              else if control.count == can_tx_history_intr_bufnum
              then true
              else t.status.thl_intr in
            let thl_full =
              if leb can_tx_history_buffer_num control.count then true else t.status.thl_full in
            (
              std_e_ok,
              record t {
                buffer = set t.buffer t.control.woff thldata;
                control = control;
                status = record (t.status) {
                  thl_intr = thl_intr;
                  thl_full = thl_full;
                  thl_empty = false;
                };
              },
            )))
    else (std_e_invalid, t)

unfoldable pub can_txhl_next_thldata : TxHistory → StdReturn × TxHistory
can_txhl_next_thldata t =
    if t.config.enable_history
    then (if leb t.control.count 0
        then (std_e_noent, t)
        else (let control = next_control can_tx_history_buffer_num t.control in
            let thl_empty = if leb control.count 0 then true else t.status.thl_empty in
            (
              std_e_ok,
              record t {
                control = control;
                status = record (t.status) { thl_full = false; thl_empty = thl_empty };
              },
            )))
    else (std_e_invalid, t)

unfoldable pub can_txhl_peek_thldata : TxHistory → StdReturn × Option TxHistoryData
can_txhl_peek_thldata t =
    if t.config.enable_history
    then (if leb t.control.count 0
        then (std_e_noent, none)
        else (std_e_ok, some (get_or t.buffer t.control.roff empty_entry)))
    else (std_e_invalid, none)
