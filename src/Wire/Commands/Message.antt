-- ===== src/Wire/Commands/Message.antt =====
-- phira-mp/phira-mp-common/src/command.rs: `Message`.
pub mod Laws
use phira_mp_plus.Common.{
  ℕ, ◌≡◌, refl, List, [], ◌∷◌, Bool, Option, none, some, Result, ℤ, int_eq, arith,
}
use phira_mp_plus.Wire.Codec.{
  BinaryData, Lawful, Lawful-weaken, unit_data, u8_data, u16_data, u32_data, f32_data, i8_data,
  i32_data, bool_data,
}
use phira_mp_plus.Wire.Text.{Text, text_eq}
use phira_mp_plus.Wire.RoomId.{varchar_data, room_id_data, IsRoomId}
use phira_mp_plus.Wire.Containers.{
  string_data, pair_data, option_data, result_data, vec_data, map_data,
}
use phira_mp_plus.Wire.Derive.{struct_data, Variant, variant, enum_data}

-- `Message`
pub data Message : Type 0 where
  chat : ℤ → Text → Message
  create_room : ℤ → Message
  join_room : ℤ → Text → Message
  leave_room : ℤ → Text → Message
  new_host : ℤ → Message
  select_chart : ℤ → Text → ℤ → Message
  game_start : ℤ → Message
  ready : ℤ → Message
  cancel_ready : ℤ → Message
  cancel_game : ℤ → Message
  start_playing : Message
  played : ℤ → ℤ → ℕ → Bool → ℤ → ℤ → ℤ → ℤ → ℤ → Message
  game_end : Message
  abort : ℤ → Message
  lock_room : Bool → Message
  cycle_room : Bool → Message

abbrev pub message_variants : List (Variant Message)
message_variants =
    variant (pair_data i32_data string_data) (λ p. chat p.0 p.1)
      (λ x. elim x [ chat a b ↦ some (a, b) | _ ↦ none ])
    ∷ variant i32_data create_room (λ x. elim x [ create_room a ↦ some a | _ ↦ none ])
    ∷ variant (pair_data i32_data string_data) (λ p. join_room p.0 p.1)
        (λ x. elim x [ join_room a b ↦ some (a, b) | _ ↦ none ])
    ∷ variant (pair_data i32_data string_data) (λ p. leave_room p.0 p.1)
        (λ x. elim x [ leave_room a b ↦ some (a, b) | _ ↦ none ])
    ∷ variant i32_data new_host (λ x. elim x [ new_host a ↦ some a | _ ↦ none ])
    ∷ variant (pair_data i32_data (pair_data string_data i32_data))
        (λ p. select_chart p.0 p.1.0 p.1.1)
        (λ x. elim x [ select_chart a b c ↦ some (a, (b, c)) | _ ↦ none ])
    ∷ variant i32_data game_start (λ x. elim x [ game_start a ↦ some a | _ ↦ none ])
    ∷ variant i32_data ready (λ x. elim x [ ready a ↦ some a | _ ↦ none ])
    ∷ variant i32_data cancel_ready (λ x. elim x [ cancel_ready a ↦ some a | _ ↦ none ])
    ∷ variant i32_data cancel_game (λ x. elim x [ cancel_game a ↦ some a | _ ↦ none ])
    ∷ variant unit_data (λ _. start_playing) (λ x. elim x [ start_playing ↦ some tt | _ ↦ none ])
    ∷ variant
        (pair_data i32_data (
          pair_data i32_data (
            pair_data f32_data (
              pair_data bool_data (
                pair_data i32_data
                  (pair_data i32_data (pair_data i32_data (pair_data i32_data i32_data))))))))
        (λ p.
          played p.0 p.1.0 p.1.1.0 p.1.1.1.0 p.1.1.1.1.0 p.1.1.1.1.1.0 p.1.1.1.1.1.1.0
            p.1.1.1.1.1.1.1.0 p.1.1.1.1.1.1.1.1)
        (λ x. elim x [
          | played a b c d e f g h k ↦ some (a, (b, (c, (d, (e, (f, (g, (h, k))))))))
          | _ ↦ none
        ])
    ∷ variant unit_data (λ _. game_end) (λ x. elim x [ game_end ↦ some tt | _ ↦ none ])
    ∷ variant i32_data abort (λ x. elim x [ abort a ↦ some a | _ ↦ none ])
    ∷ variant bool_data lock_room (λ x. elim x [ lock_room a ↦ some a | _ ↦ none ])
    ∷ variant bool_data cycle_room (λ x. elim x [ cycle_room a ↦ some a | _ ↦ none ])
    ∷ []

abbrev pub message_data : BinaryData Message
message_data = enum_data message_variants
