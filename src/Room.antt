-- ===== src/Room.antt =====
-- The room actor of phira-mp-plus-server/src/room_actor.
pub mod State
pub mod Ids
pub mod LiveData
pub mod Rounds
pub mod Start
pub mod Answer
pub mod Play
pub mod Settings
pub mod Members
pub mod Departure
pub mod Progress
pub mod Leaving
pub mod Commands
pub mod WellFormed
pub mod Refusals
pub mod Stuck
pub mod History
pub mod Opening
pub mod Sequence
pub mod Capacity
