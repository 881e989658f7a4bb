-- ===== src/Wire.antt =====
-- The wire protocol of phira-mp/phira-mp-common.
pub mod Reader
pub mod Cursor
pub mod Uleb
pub mod Codec
pub mod Text
pub mod Containers
pub mod Derive
pub mod RoomId
pub mod Commands
pub mod Frame
pub mod Connection
