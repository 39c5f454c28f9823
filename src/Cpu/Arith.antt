-- ===== src/Cpu/Arith.antt =====
-- The arithmetic operations, src/cpu/cpu_exec/op_exec_arithm.c.
pub mod Format1
pub mod Immediate
pub mod Conditional
pub mod Div
pub mod Mul
