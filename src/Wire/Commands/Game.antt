-- ===== src/Wire/Commands/Game.antt =====
-- phira-mp/phira-mp-common/src/command.rs: `CompactPos`, `TouchFrame`, `Judgement`, `JudgeEvent`.
pub mod Laws
use phira_mp_plus.Common.{
  ℕ, ◌≡◌, refl, List, [], ◌∷◌, Bool, Option, none, some, Result, ℤ, int_eq, arith,
}
use phira_mp_plus.Wire.Codec.{
  BinaryData, Lawful, Lawful-weaken, unit_data, u8_data, u16_data, u32_data, f32_data, i8_data,
  i32_data, bool_data,
}
use phira_mp_plus.Wire.Text.{Text, text_eq}
use phira_mp_plus.Wire.RoomId.{varchar_data, room_id_data, IsRoomId}
use phira_mp_plus.Wire.Containers.{
  string_data, pair_data, option_data, result_data, vec_data, map_data,
}
use phira_mp_plus.Wire.Derive.{struct_data, Variant, variant, enum_data}

-- `CompactPos`
pub record CompactPos : Type 0 where
  pub x : ℕ
  pub y : ℕ

abbrev pub compact_pos_data : BinaryData CompactPos
compact_pos_data =
    struct_data (pair_data u16_data u16_data) (λ f. record { x = f.0; y = f.1 }) (λ r. (r.x, r.y))

-- `TouchFrame`
pub record TouchFrame : Type 0 where
  pub time : ℕ
  pub points : List (ℤ × CompactPos)

abbrev pub touch_frame_data : BinaryData TouchFrame
touch_frame_data =
    struct_data (pair_data f32_data (vec_data (pair_data i8_data compact_pos_data)))
      (λ f. record { time = f.0; points = f.1 }) (λ r. (r.time, r.points))

-- `Judgement`
pub data Judgement : Type 0 where
  perfect : Judgement
  good : Judgement
  bad : Judgement
  miss : Judgement
  hold_perfect : Judgement
  hold_good : Judgement

abbrev pub judgement_variants : List (Variant Judgement)
judgement_variants =
    variant unit_data (λ _. perfect) (λ x. elim x [ perfect ↦ some tt | _ ↦ none ])
    ∷ variant unit_data (λ _. good) (λ x. elim x [ good ↦ some tt | _ ↦ none ])
    ∷ variant unit_data (λ _. bad) (λ x. elim x [ bad ↦ some tt | _ ↦ none ])
    ∷ variant unit_data (λ _. miss) (λ x. elim x [ miss ↦ some tt | _ ↦ none ])
    ∷ variant unit_data (λ _. hold_perfect) (λ x. elim x [ hold_perfect ↦ some tt | _ ↦ none ])
    ∷ variant unit_data (λ _. hold_good) (λ x. elim x [ hold_good ↦ some tt | _ ↦ none ])
    ∷ []

abbrev pub judgement_data : BinaryData Judgement
judgement_data = enum_data judgement_variants

-- `JudgeEvent`
pub record JudgeEvent : Type 0 where
  pub time : ℕ
  pub line_id : ℕ
  pub note_id : ℕ
  pub judgement : Judgement

abbrev pub judge_event_data : BinaryData JudgeEvent
judge_event_data =
    struct_data (pair_data f32_data (pair_data u32_data (pair_data u32_data judgement_data)))
      (λ f. record { time = f.0; line_id = f.1.0; note_id = f.1.1.0; judgement = f.1.1.1 })
      (λ r. (r.time, (r.line_id, (r.note_id, r.judgement))))
