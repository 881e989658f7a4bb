-- ===== src/Access.antt =====
-- phira-mp-plus-server/src/ban.rs, and extensions.rs, in whose store the bans are kept.
pub mod Store
pub mod Reason
pub mod Bans
pub mod Addresses
pub mod Rooms
pub mod Runs
