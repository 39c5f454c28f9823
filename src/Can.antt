-- ===== src/Can.antt =====
-- The CAN controller's queues of messages.
pub mod Types
pub mod Ring
pub mod Queue
pub mod Fifo
pub mod TxQueue
pub mod TxRxFifo
pub mod History
pub mod Mode
mod Tests
