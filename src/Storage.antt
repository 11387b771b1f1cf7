-- ===== src/Storage.antt =====
-- What the capture stores its data in.
pub mod Index
pub mod Compact
pub mod Stream
pub mod Items
pub mod Memory
mod Tests
