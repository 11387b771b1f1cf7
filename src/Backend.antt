-- ===== src/Backend.antt =====
-- The devices that packets are captured from.
pub mod Cynthion
mod Tests
