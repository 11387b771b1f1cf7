-- ===== src/Decoder.antt =====
-- src/decoder.rs: packets are grouped to transactions, and transactions to transfers.
pub mod Status
pub mod State
pub mod Transfer
pub mod Items
pub mod Packets
pub mod Closed
pub mod Log
pub mod Tests
