-- ===== src/Cpu/Memory.antt =====
-- The operations that read and write over the bus.
pub mod Bus
pub mod Load
pub mod Load14
pub mod Store
pub mod BitOps
pub mod Special
pub mod LoadEffects
pub mod StoreEffects
pub mod RoundTrip
mod Tests
