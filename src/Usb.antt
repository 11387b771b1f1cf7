-- ===== src/Usb.antt =====
-- src/usb.rs: packet identifiers, checksums, packet validation, bitfields and descriptors.
pub mod Pid
pub mod Crc
pub mod Samples
mod Tests
pub mod Validate
pub mod WellFormed
pub mod Fields
pub mod Descriptors
