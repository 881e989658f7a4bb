-- ===== src/Wire/Commands.antt =====
-- phira-mp/phira-mp-common/src/command.rs: the commands, with the `BinaryData` that the derive
-- macro gives them.
pub mod Game
pub mod Client
pub mod Message
pub mod Rooms
pub mod RoomData
pub mod Server
