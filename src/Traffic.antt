-- ===== src/Traffic.antt =====
-- src/capture.rs: what `CaptureReader` makes of a capture, for the list of its traffic.
pub mod Transactions
pub mod Transfers
pub mod Items
pub mod Devices
pub mod Connectors
pub mod Text
mod Tests
