-- ===== src/Capture.antt =====
-- src/capture.rs: what the decoder writes and what it knows of devices.
pub mod Bitfield
pub mod Device
pub mod Writer
pub mod Reader
mod Tests
