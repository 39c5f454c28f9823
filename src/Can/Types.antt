-- ===== src/Can/Types.antt =====
-- CAN messages and the buffers that hold them: can_data.h, can_buffer.h, can_config.h of
-- src/device/peripheral/rh850f1k/can.
use athrill_target_rh850f1x.Base.{ℕ, List, Bool, false, []}

-- The results of the operations, of Std_ReturnType.
pub data StdReturn : Type 0 where
  std_e_ok : StdReturn
  std_e_perm : StdReturn
  std_e_limit : StdReturn
  std_e_noent : StdReturn
  std_e_invalid : StdReturn

-- CanDataType; `bytes` is data[8].
pub record CanData : Type 0 where
  pub ide : Bool
  pub rtr : Bool
  pub dlc : ℕ
  pub label : ℕ
  pub id : ℕ
  pub bytes : List ℕ

-- CanRxBufferType, its nested structs laid flat; `body` is body.buffer[8].
pub record CanRxBuffer : Type 0 where
  pub ide : Bool
  pub rtr : Bool
  pub id : ℕ
  pub dlc : ℕ
  pub label : ℕ
  pub body : List ℕ

abbrev pub can_rxbuffer_set_data : CanRxBuffer → CanData → CanRxBuffer
can_rxbuffer_set_data buf rxdata = record buf {
  id = rxdata.id;
  ide = rxdata.ide;
  rtr = rxdata.rtr;
  label = rxdata.label;
  dlc = rxdata.dlc;
  body = rxdata.bytes;
}

abbrev pub can_rxbuffer_ref_data : CanRxBuffer → CanData
can_rxbuffer_ref_data buf = record {
  id = buf.id;
  ide = buf.ide;
  rtr = buf.rtr;
  label = buf.label;
  dlc = buf.dlc;
  bytes = buf.body;
}

-- A buffer that nothing was written to.
abbrev pub empty_buffer : CanRxBuffer
empty_buffer = record { ide = false; rtr = false; id = 0; dlc = 0; label = 0; body = [] }

-- CanFifoControlType
pub record CanFifoControl : Type 0 where
  pub count : ℕ
  pub roff : ℕ
  pub woff : ℕ

-- CAN_FIFO_CLEAR
abbrev pub can_fifo_clear : CanFifoControl
can_fifo_clear = record { count = 0; roff = 0; woff = 0 }

-- CanTxBufferType, as the receive buffer laid flat.
pub record CanTxBuffer : Type 0 where
  pub ide : Bool
  pub rtr : Bool
  pub id : ℕ
  pub dlc : ℕ
  pub label : ℕ
  pub body : List ℕ

abbrev pub can_txbuffer_ref_data : CanTxBuffer → CanData
can_txbuffer_ref_data buf = record {
  id = buf.id;
  ide = buf.ide;
  rtr = buf.rtr;
  dlc = buf.dlc;
  label = buf.label;
  bytes = buf.body;
}

abbrev pub can_txbuffer_set_data : CanTxBuffer → CanData → CanTxBuffer
can_txbuffer_set_data buf txdata = record buf {
  id = txdata.id;
  ide = txdata.ide;
  rtr = txdata.rtr;
  dlc = txdata.dlc;
  label = txdata.label;
  body = txdata.bytes;
}

-- A transmission buffer that nothing was written to.
abbrev pub empty_tx_buffer : CanTxBuffer
empty_tx_buffer = record { ide = false; rtr = false; id = 0; dlc = 0; label = 0; body = [] }
