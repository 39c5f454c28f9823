-- ===== src/Cpu.antt =====
-- The core: its registers and the operations on them.
pub mod State
pub mod Psw
pub mod Ops
pub mod Cond
pub mod Branch
pub mod Arith
pub mod Sat
pub mod Logic
pub mod Shift
pub mod Swap
pub mod Compare
pub mod Bit
pub mod Memory
pub mod Extra
pub mod Decoded
mod Tests
