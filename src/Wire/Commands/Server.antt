-- ===== src/Wire/Commands/Server.antt =====
-- phira-mp/phira-mp-common/src/command.rs: `ServerCommand`.
pub mod Laws
use phira_mp_plus.Common.{
  ℕ, ◌≡◌, refl, List, [], ◌∷◌, Bool, Option, none, some, Result, ℤ, int_eq, arith,
}
use phira_mp_plus.Wire.Codec.{
  BinaryData, Lawful, Lawful-weaken, unit_data, u8_data, u16_data, u32_data, f32_data, i8_data,
  i32_data, bool_data,
}
use phira_mp_plus.Wire.Text.{Text, text_eq}
use phira_mp_plus.Wire.RoomId.{varchar_data, room_id_data, IsRoomId}
use phira_mp_plus.Wire.Containers.{
  string_data, pair_data, option_data, result_data, vec_data, map_data,
}
use phira_mp_plus.Wire.Derive.{struct_data, Variant, variant, enum_data}
use phira_mp_plus.Wire.Commands.Game.{TouchFrame, touch_frame_data, JudgeEvent, judge_event_data}
use phira_mp_plus.Wire.Commands.Message.{Message, message_data}
use phira_mp_plus.Wire.Commands.Rooms.{
  RoomState, room_state_data, UserInfo, user_info_data, ClientRoomState, client_room_state_data,
  JoinRoomResponse, join_room_response_data,
}
use phira_mp_plus.Wire.Commands.RoomData.{RoomData, room_data_data, RoomEvent, room_event_data}

-- `ServerCommand`
pub data ServerCommand : Type 0 where
  pong : ServerCommand
  authenticate : (Result Text (UserInfo × (Option ClientRoomState))) → ServerCommand
  chat : Result Text (Unit {0}) → ServerCommand
  touches : ℤ → List TouchFrame → ServerCommand
  judges : ℤ → List JudgeEvent → ServerCommand
  message : Message → ServerCommand
  change_state : RoomState → ServerCommand
  change_host : Bool → ServerCommand
  create_room : Result Text (Unit {0}) → ServerCommand
  join_room : Result Text JoinRoomResponse → ServerCommand
  on_join_room : UserInfo → ServerCommand
  leave_room : Result Text (Unit {0}) → ServerCommand
  lock_room : Result Text (Unit {0}) → ServerCommand
  cycle_room : Result Text (Unit {0}) → ServerCommand
  select_chart : Result Text (Unit {0}) → ServerCommand
  request_start : Result Text (Unit {0}) → ServerCommand
  ready : Result Text (Unit {0}) → ServerCommand
  cancel_ready : Result Text (Unit {0}) → ServerCommand
  played : Result Text (Unit {0}) → ServerCommand
  abort : Result Text (Unit {0}) → ServerCommand
  room_response : (Result Text ((List (Text × RoomData)) × (List (ℤ × Text)))) → ServerCommand
  room_event : RoomEvent → ServerCommand
  user_visit : ℤ → ServerCommand

abbrev pub server_command_variants : List (Variant ServerCommand)
server_command_variants =
    variant unit_data (λ _. pong) (λ x. elim x [ pong ↦ some tt | _ ↦ none ])
    ∷ variant
        (result_data (pair_data user_info_data (option_data client_room_state_data)) string_data)
        authenticate (λ x. elim x [ authenticate a ↦ some a | _ ↦ none ])
    ∷ variant (result_data unit_data string_data) chat (λ x. elim x [ chat a ↦ some a | _ ↦ none ])
    ∷ variant (pair_data i32_data (vec_data touch_frame_data)) (λ p. touches p.0 p.1)
        (λ x. elim x [ touches a b ↦ some (a, b) | _ ↦ none ])
    ∷ variant (pair_data i32_data (vec_data judge_event_data)) (λ p. judges p.0 p.1)
        (λ x. elim x [ judges a b ↦ some (a, b) | _ ↦ none ])
    ∷ variant message_data message (λ x. elim x [ message a ↦ some a | _ ↦ none ])
    ∷ variant room_state_data change_state (λ x. elim x [ change_state a ↦ some a | _ ↦ none ])
    ∷ variant bool_data change_host (λ x. elim x [ change_host a ↦ some a | _ ↦ none ])
    ∷ variant (result_data unit_data string_data) create_room
        (λ x. elim x [ create_room a ↦ some a | _ ↦ none ])
    ∷ variant (result_data join_room_response_data string_data) join_room
        (λ x. elim x [ join_room a ↦ some a | _ ↦ none ])
    ∷ variant user_info_data on_join_room (λ x. elim x [ on_join_room a ↦ some a | _ ↦ none ])
    ∷ variant (result_data unit_data string_data) leave_room
        (λ x. elim x [ leave_room a ↦ some a | _ ↦ none ])
    ∷ variant (result_data unit_data string_data) lock_room
        (λ x. elim x [ lock_room a ↦ some a | _ ↦ none ])
    ∷ variant (result_data unit_data string_data) cycle_room
        (λ x. elim x [ cycle_room a ↦ some a | _ ↦ none ])
    ∷ variant (result_data unit_data string_data) select_chart
        (λ x. elim x [ select_chart a ↦ some a | _ ↦ none ])
    ∷ variant (result_data unit_data string_data) request_start
        (λ x. elim x [ request_start a ↦ some a | _ ↦ none ])
    ∷ variant (result_data unit_data string_data) ready
        (λ x. elim x [ ready a ↦ some a | _ ↦ none ])
    ∷ variant (result_data unit_data string_data) cancel_ready
        (λ x. elim x [ cancel_ready a ↦ some a | _ ↦ none ])
    ∷ variant (result_data unit_data string_data) played
        (λ x. elim x [ played a ↦ some a | _ ↦ none ])
    ∷ variant (result_data unit_data string_data) abort
        (λ x. elim x [ abort a ↦ some a | _ ↦ none ])
    ∷ variant
        (result_data
          (pair_data (map_data room_id_data room_data_data) (map_data i32_data room_id_data))
          string_data)
        room_response (λ x. elim x [ room_response a ↦ some a | _ ↦ none ])
    ∷ variant room_event_data room_event (λ x. elim x [ room_event a ↦ some a | _ ↦ none ])
    ∷ variant i32_data user_visit (λ x. elim x [ user_visit a ↦ some a | _ ↦ none ])
    ∷ []

abbrev pub server_command_data : BinaryData ServerCommand
server_command_data = enum_data server_command_variants
