-- ===== src/Dec.antt =====
-- The instruction decoder (src/cpu/cpu_dec): from the three half words at the program counter to
-- an operation code and its decoded operands.
pub mod Format
pub mod CodeId
mod CodeFormat
pub mod Fields
pub mod Types
pub mod Decode
mod Parse
