-- ===== src/Wire/Commands/Game/Laws.antt =====
-- The derived implementations of Game.antt are lawful on the values of their types.
use phira_mp_plus.Common.{refl, int_eq, arith}
use phira_mp_plus.Wire.Codec.{Lawful, Lawful-weaken}
use phira_mp_plus.Wire.Text.{text_eq}
use phira_mp_plus.Wire.Codec.Numbers.{
  IsAny, IsI8, IsU16, IsU32, unit_data-Lawful, le_data-Lawful, i8_data-Lawful,
}
use phira_mp_plus.Wire.Containers.Laws.{IsVec, pair_data-Lawful, vec_data-Lawful}
use phira_mp_plus.Wire.Derive.Laws.{
  struct_data-Lawful, lawful_variant, FieldPredicates, AllLawful, IsEnum, enum_data-Lawful,
}
use phira_mp_plus.Wire.Commands.Game.{
  CompactPos, compact_pos_data, TouchFrame, touch_frame_data, Judgement, judgement_data, perfect,
  good, bad, miss, hold_perfect, hold_good, judgement_variants, JudgeEvent, judge_event_data,
}

abbrev pub IsCompactPos : CompactPos → Type 0
IsCompactPos r = IsU16 r.x × IsU16 r.y

pub compact_pos_data-Lawful : Lawful compact_pos_data IsCompactPos
compact_pos_data-Lawful =
    struct_data-Lawful (pair_data-Lawful (le_data-Lawful 2) (le_data-Lawful 2)) _ _ (λ r. refl)

abbrev pub IsTouchFrame : TouchFrame → Type 0
IsTouchFrame r = IsU32 r.time × ((IsVec (λ p. IsI8 p.0 × IsCompactPos p.1)) r.points)

pub touch_frame_data-Lawful : Lawful touch_frame_data IsTouchFrame
touch_frame_data-Lawful =
    struct_data-Lawful
      (pair_data-Lawful (le_data-Lawful 4)
        (vec_data-Lawful (pair_data-Lawful i8_data-Lawful compact_pos_data-Lawful)))
      _ _ (λ r. refl)

abbrev pub IsJudgement : Judgement → Type 0
IsJudgement perfect = Unit {0}
IsJudgement good = Unit {0}
IsJudgement bad = Unit {0}
IsJudgement miss = Unit {0}
IsJudgement hold_perfect = Unit {0}
IsJudgement hold_good = Unit {0}

abbrev judgement_predicates : FieldPredicates judgement_variants
judgement_predicates = (IsAny, (IsAny, (IsAny, (IsAny, (IsAny, (IsAny, tt))))))

judgement_fields : AllLawful judgement_variants judgement_predicates
judgement_fields = (
  lawful_variant unit_data-Lawful (λ x f e. ground arith),
  (
    lawful_variant unit_data-Lawful (λ x f e. ground arith),
    (
      lawful_variant unit_data-Lawful (λ x f e. ground arith),
      (
        lawful_variant unit_data-Lawful (λ x f e. ground arith),
        (
          lawful_variant unit_data-Lawful (λ x f e. ground arith),
          (lawful_variant unit_data-Lawful (λ x f e. ground arith), tt),
        ),
      ),
    ),
  ),
)

IsJudgement-IsEnum :
    (x : Judgement) → IsJudgement x → IsEnum judgement_variants judgement_predicates x
IsJudgement-IsEnum perfect h = h
IsJudgement-IsEnum _ h = h

pub judgement_data-Lawful : Lawful judgement_data IsJudgement
judgement_data-Lawful =
    Lawful-weaken
      (enum_data-Lawful judgement_variants judgement_predicates judgement_fields (omega arith))
      IsJudgement-IsEnum

abbrev pub IsJudgeEvent : JudgeEvent → Type 0
IsJudgeEvent r = IsU32 r.time × (IsU32 r.line_id × (IsU32 r.note_id × IsJudgement r.judgement))

pub judge_event_data-Lawful : Lawful judge_event_data IsJudgeEvent
judge_event_data-Lawful =
    struct_data-Lawful
      (pair_data-Lawful (le_data-Lawful 4) (
        pair_data-Lawful (le_data-Lawful 4)
          (pair_data-Lawful (le_data-Lawful 4) judgement_data-Lawful)))
      _ _ (λ r. refl)
