-- ===== src/Tests.antt =====
-- The theorems at concrete inputs, by the part of the program they are about.
pub mod Rooms
pub mod Sessions
pub mod Access
pub mod Bytes
pub mod Wal
pub mod Net
