-- ===== src/Wal.antt =====
-- phira-mp-plus-server/src/persistence/wal: the write-ahead log of the persistence worker.
pub mod Format
pub mod State
pub mod Append
pub mod Recovery
pub mod Replay
pub mod Compact
pub mod Ledger
pub mod Lines
pub mod Reading
pub mod Durability
pub mod Calls
pub mod Crash
pub mod Compaction
pub mod Sequence
pub mod Damage
