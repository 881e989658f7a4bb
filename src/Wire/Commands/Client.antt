-- ===== src/Wire/Commands/Client.antt =====
-- phira-mp/phira-mp-common/src/command.rs: `ClientCommand`.
pub mod Laws
use phira_mp_plus.Common.{
  ℕ, ◌≡◌, refl, List, [], ◌∷◌, Bool, Option, none, some, Result, ℤ, int_eq, arith,
}
use phira_mp_plus.Wire.Codec.{
  BinaryData, Lawful, Lawful-weaken, unit_data, u8_data, u16_data, u32_data, f32_data, i8_data,
  i32_data, bool_data,
}
use phira_mp_plus.Wire.Text.{Text, text_eq}
use phira_mp_plus.Wire.RoomId.{varchar_data, room_id_data, IsRoomId}
use phira_mp_plus.Wire.Containers.{
  string_data, pair_data, option_data, result_data, vec_data, map_data,
}
use phira_mp_plus.Wire.Derive.{struct_data, Variant, variant, enum_data}
use phira_mp_plus.Wire.Commands.Game.{TouchFrame, touch_frame_data, JudgeEvent, judge_event_data}

-- `ClientCommand`
pub data ClientCommand : Type 0 where
  ping : ClientCommand
  authenticate : Text → ClientCommand
  chat : Text → ClientCommand
  touches : List TouchFrame → ClientCommand
  judges : List JudgeEvent → ClientCommand
  create_room : Text → ClientCommand
  join_room : Text → Bool → ClientCommand
  leave_room : ClientCommand
  lock_room : Bool → ClientCommand
  cycle_room : Bool → ClientCommand
  select_chart : ℤ → ClientCommand
  request_start : ClientCommand
  ready : ClientCommand
  cancel_ready : ClientCommand
  played : ℤ → ClientCommand
  abort : ClientCommand
  console_authenticate : Text → ClientCommand
  room_monitor_authenticate : List ℕ → ClientCommand
  query_room_info : ClientCommand
  game_monitor_authenticate : Text → ClientCommand

abbrev pub client_command_variants : List (Variant ClientCommand)
client_command_variants =
    variant unit_data (λ _. ping) (λ x. elim x [ ping ↦ some tt | _ ↦ none ])
    ∷ variant (varchar_data 32) authenticate (λ x. elim x [ authenticate a ↦ some a | _ ↦ none ])
    ∷ variant (varchar_data 200) chat (λ x. elim x [ chat a ↦ some a | _ ↦ none ])
    ∷ variant (vec_data touch_frame_data) touches (λ x. elim x [ touches a ↦ some a | _ ↦ none ])
    ∷ variant (vec_data judge_event_data) judges (λ x. elim x [ judges a ↦ some a | _ ↦ none ])
    ∷ variant room_id_data create_room (λ x. elim x [ create_room a ↦ some a | _ ↦ none ])
    ∷ variant (pair_data room_id_data bool_data) (λ p. join_room p.0 p.1)
        (λ x. elim x [ join_room a b ↦ some (a, b) | _ ↦ none ])
    ∷ variant unit_data (λ _. leave_room) (λ x. elim x [ leave_room ↦ some tt | _ ↦ none ])
    ∷ variant bool_data lock_room (λ x. elim x [ lock_room a ↦ some a | _ ↦ none ])
    ∷ variant bool_data cycle_room (λ x. elim x [ cycle_room a ↦ some a | _ ↦ none ])
    ∷ variant i32_data select_chart (λ x. elim x [ select_chart a ↦ some a | _ ↦ none ])
    ∷ variant unit_data (λ _. request_start) (λ x. elim x [ request_start ↦ some tt | _ ↦ none ])
    ∷ variant unit_data (λ _. ready) (λ x. elim x [ ready ↦ some tt | _ ↦ none ])
    ∷ variant unit_data (λ _. cancel_ready) (λ x. elim x [ cancel_ready ↦ some tt | _ ↦ none ])
    ∷ variant i32_data played (λ x. elim x [ played a ↦ some a | _ ↦ none ])
    ∷ variant unit_data (λ _. abort) (λ x. elim x [ abort ↦ some tt | _ ↦ none ])
    ∷ variant (varchar_data 32) console_authenticate
        (λ x. elim x [ console_authenticate a ↦ some a | _ ↦ none ])
    ∷ variant (vec_data u8_data) room_monitor_authenticate
        (λ x. elim x [ room_monitor_authenticate a ↦ some a | _ ↦ none ])
    ∷ variant unit_data (λ _. query_room_info)
        (λ x. elim x [ query_room_info ↦ some tt | _ ↦ none ])
    ∷ variant (varchar_data 32) game_monitor_authenticate
        (λ x. elim x [ game_monitor_authenticate a ↦ some a | _ ↦ none ])
    ∷ []

abbrev pub client_command_data : BinaryData ClientCommand
client_command_data = enum_data client_command_variants
