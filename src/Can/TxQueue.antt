-- ===== src/Can/TxQueue.antt =====
-- The transmission queue of a channel, can_tx_queue.c of src/device/peripheral/rh850f1k/can: the
-- messages that wait in the upper buffers of the channel. An operation takes the queue that its
-- channel selects in can_tx_queue, and returns it.
pub mod Search
pub mod Inv
pub mod Serve
use athrill_target_rh850f1x.Base.{
  ℕ, zero, suc, ◌+◌, ◌-◌, ◌%◌, ◌^◌, Bool, true, false, if◌then◌else◌, leb, ◌==◌, List, [], get_or,
  set, Option, none, some,
}
use athrill_target_rh850f1x.Can.Types.{
  StdReturn, std_e_ok, std_e_invalid, std_e_noent, CanData, CanTxBuffer, can_txbuffer_ref_data,
}

-- CAN_TX_CHANNEL_BUFFER_NUM
abbrev pub can_tx_channel_buffer_num : ℕ
can_tx_channel_buffer_num = 16

-- CanTxQueueDataType
pub record TxQueueData : Type 0 where
  pub tx_req : Bool
  pub message : CanData

pub record TxQueueConfig : Type 0 where
  pub intr_factor : Bool
  pub enable_intr : Bool
  pub quelen : ℕ
  pub enable_queue : Bool

pub record TxQueueStatus : Type 0 where
  pub intr_req : Bool
  pub is_full : Bool
  pub is_empty : Bool

-- CanTxQueueControlType
pub record TxQueueControl : Type 0 where
  pub reqbufnum : ℕ
  pub tx_data : List TxQueueData

-- CanTxQueueType
pub record TxQueue : Type 0 where
  pub config : TxQueueConfig
  pub status : TxQueueStatus
  pub control : TxQueueControl

abbrev pub no_data : CanData
no_data = record { ide = false; rtr = false; dlc = 0; label = 0; id = 0; bytes = [] }

-- control.tx_data[i]
abbrev pub slot : List TxQueueData → ℕ → TxQueueData
slot qs i = get_or qs i (record { tx_req = false; message = no_data })

unfoldable pub can_txque_peek_txdata : ℕ → TxQueue → StdReturn × Option CanData
can_txque_peek_txdata txbufno q =
    if q.config.enable_queue
    then (if q.config.quelen == 0
        then (std_e_invalid, none)
        else if (slot q.control.tx_data txbufno).tx_req
        then (std_e_ok, some ((slot q.control.tx_data txbufno).message))
        else (std_e_noent, none))
    else (std_e_invalid, none)

unfoldable pub can_txque_get_txdata : ℕ → TxQueue → StdReturn × Option CanData
can_txque_get_txdata txbufno q = can_txque_peek_txdata txbufno q

-- The loop that looks for a buffer without a request, `count` buffers from `bufno` down.
unfoldable pub free_buffer : ℕ → ℕ → List TxQueueData → Option ℕ
free_buffer zero bufno qs = none
free_buffer (suc count) bufno qs =
    let below = free_buffer count ((bufno + 2 ^ 32 - 1) % 2 ^ 32) qs in
    if (slot qs bufno).tx_req then below else some bufno

-- The uint8 maxquelen.
abbrev pub maxquelen : TxQueueConfig → ℕ
maxquelen config = (config.quelen + 1) % 2 ^ 8

-- From `tx_data[bufno].tx_req = TRUE` on; nothing without a buffer.
unfoldable pub store : Option ℕ → CanTxBuffer → TxQueue → TxQueue
store none buf q = q
store (some bufno) buf q = record q {
  control = record (q.control) {
    tx_data =
        set q.control.tx_data bufno (record { tx_req = true; message = can_txbuffer_ref_data buf });
  };
  status = record (q.status) {
    is_full = if leb (maxquelen q.config) q.control.reqbufnum then true else q.status.is_full;
    is_empty = false;
  };
}

-- `buf` is can_tx_buffer_control.buf[cid][CAN_TX_CHANNEL_BUFFER_NUM - 1].
unfoldable pub can_txque_put_txdata : CanTxBuffer → TxQueue → TxQueue
unfolding store
can_txque_put_txdata buf q =
    if q.config.enable_queue
    then (if q.config.quelen == 0
        then q
        else if leb (maxquelen q.config) q.control.reqbufnum
        then q
        else (let q1 = record q {
          control = record (q.control) { reqbufnum = (q.control.reqbufnum + 1) % 2 ^ 8 };
        } in
            store
              (free_buffer (maxquelen q.config) (can_tx_channel_buffer_num - 1) q.control.tx_data)
              buf q1))
    else q

unfoldable pub can_txque_notify_txdone : ℕ → TxQueue → StdReturn × TxQueue
can_txque_notify_txdone txbufno q =
    if (slot q.control.tx_data txbufno).tx_req
    then (let left = (q.control.reqbufnum + 2 ^ 8 - 1) % 2 ^ 8 in
        let done = record (slot q.control.tx_data txbufno) { tx_req = false } in
        let is_empty = if left == 0 then true else q.status.is_empty in
        let intr_req =
          if q.config.intr_factor then true else if is_empty then true else q.status.intr_req in
        (
          std_e_ok,
          record q {
            control = record { reqbufnum = left; tx_data = set q.control.tx_data txbufno done };
            status = record { intr_req = intr_req; is_full = false; is_empty = is_empty };
          },
        ))
    else (std_e_ok, q)
