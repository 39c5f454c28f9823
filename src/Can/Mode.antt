-- ===== src/Can/Mode.antt =====
-- The modes of the CAN controller and of its channels.
pub mod Channel
pub mod Consistent
pub mod Diagram
pub mod Global
pub mod System
pub mod Forced
mod Tests
