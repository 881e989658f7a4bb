-- ===== src/Tests/Bytes.antt =====
-- The theorems on phira-mp/phira-mp-common/src at concrete bytes.
use phira_mp_plus.Common.{
  ℕ, ◌≤◌, ◌≡◌, List, [], ◌∷◌, true, pos, ok, arith, length, replicate, length-replicate,
}
use phira_mp_plus.Wire.Reader.{unexpected_eof, take_bytes}
use phira_mp_plus.Wire.Cursor.{Cursor, IsInRange}
use phira_mp_plus.Wire.Uleb.{read_uleb_from, read_uleb}
use phira_mp_plus.Wire.Text.{from_utf8_lossy, decode_from, first_byte}
use phira_mp_plus.Wire.RoomId.{
  IsRoomId, read_room_id, read_varchar, validate, all_room_chars, is_room_char,
}
use phira_mp_plus.Wire.RoomId.Laws.{read_room_id-IsRoomId}
use phira_mp_plus.Wire.Frame.{encode_packet, max_packet, receive, send_all}
use phira_mp_plus.Wire.Derive.{enum_data, write_variant}
use phira_mp_plus.Wire.Codec.{to_le_bytes, to_bits}
use phira_mp_plus.Wire.Commands.Client.{client_command_data}
use phira_mp_plus.Wire.Commands.Client
use phira_mp_plus.Wire.Commands.Server.{server_command_data}
use phira_mp_plus.Wire.Commands.Server
use phira_mp_plus.Wire.Connection.{client_commands-receive, server_commands-receive}

ping_size : length (encode_packet client_command_data Client.ping []) ≤ max_packet
unfolding encode_packet enum_data write_variant to_le_bytes to_bits
ping_size = omega arith

chart_size :
    length (encode_packet client_command_data (Client.select_chart (pos 300)) []) ≤ max_packet
unfolding encode_packet enum_data write_variant to_le_bytes to_bits
chart_size = omega arith

pong_size : length (encode_packet server_command_data Server.pong []) ≤ max_packet
unfolding encode_packet enum_data write_variant to_le_bytes to_bits
pong_size = omega arith

host_size : length (encode_packet server_command_data (Server.change_host true) []) ≤ max_packet
unfolding encode_packet enum_data write_variant to_le_bytes to_bits
host_size = omega arith

client_commands-receive_example :
    receive client_command_data
      (send_all client_command_data (Client.ping ∷ Client.select_chart (pos 300) ∷ []))
    ≡ (Client.ping ∷ Client.select_chart (pos 300) ∷ [], unexpected_eof)
client_commands-receive_example =
    client_commands-receive (Client.ping ∷ Client.select_chart (pos 300) ∷ [])
      ((tt, ping_size), ((omega arith, chart_size), tt))

server_commands-receive_example :
    receive server_command_data
      (send_all server_command_data (Server.pong ∷ Server.change_host true ∷ []))
    ≡ (Server.pong ∷ Server.change_host true ∷ [], unexpected_eof)
server_commands-receive_example =
    server_commands-receive (Server.pong ∷ Server.change_host true ∷ [])
      ((tt, pong_size), ((tt, host_size), tt))

-- The room id `a1`, after its length.
room_a1 : read_room_id (2 ∷ b'a' ∷ b'1' ∷ 9 ∷ []) ≡ ok (b'a' ∷ b'1' ∷ [], 9 ∷ [])
unfolding read_room_id read_varchar read_uleb read_uleb_from take_bytes from_utf8_lossy decode_from
    first_byte validate all_room_chars is_room_char
room_a1 = ground arith

read_room_id-IsRoomId_example : IsRoomId (b'a' ∷ b'1' ∷ [])
read_room_id-IsRoomId_example =
    read_room_id-IsRoomId (2 ∷ b'a' ∷ b'1' ∷ 9 ∷ []) (9 ∷ []) (b'a' ∷ b'1' ∷ []) room_a1

varchar_a1 : read_varchar 20 (2 ∷ b'a' ∷ b'1' ∷ 9 ∷ []) ≡ ok (b'a' ∷ b'1' ∷ [], 9 ∷ [])
unfolding read_varchar read_uleb read_uleb_from take_bytes from_utf8_lossy decode_from first_byte
varchar_a1 = ground arith

abbrev cursor1 : Cursor
cursor1 = record { slice = 7 ∷ 8 ∷ 9 ∷ []; pos = 1 }

cursor1-IsInRange : IsInRange cursor1
cursor1-IsInRange = record { inside = omega arith; addressable = omega arith }

unfoldable zeros : ℕ → List ℕ
zeros n = replicate n 0

length-zeros : (n : ℕ) → length (zeros n) ≡ n
unfolding zeros
length-zeros n = length-replicate n 0
