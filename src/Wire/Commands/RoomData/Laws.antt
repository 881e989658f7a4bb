-- ===== src/Wire/Commands/RoomData/Laws.antt =====
-- The derived implementations of RoomData.antt are lawful on the values of their types.
use phira_mp_plus.Common.{refl, int_eq, arith}
use phira_mp_plus.Wire.Codec.{Lawful, Lawful-weaken}
use phira_mp_plus.Wire.Text.{text_eq}
use phira_mp_plus.Wire.RoomId.{IsRoomId}
use phira_mp_plus.Wire.Codec.Numbers.{
  IsAny, IsI32, IsU32, unit_data-Lawful, le_data-Lawful, i32_data-Lawful, bool_data-Lawful,
}
use phira_mp_plus.Wire.RoomId.Laws.{room_id_data-Lawful}
use phira_mp_plus.Wire.Containers.Laws.{
  IsVec, IsOption, pair_data-Lawful, option_data-Lawful, vec_data-Lawful,
}
use phira_mp_plus.Wire.Derive.Laws.{
  struct_data-Lawful, lawful_variant, FieldPredicates, AllLawful, IsEnum, enum_data-Lawful,
}
use phira_mp_plus.Wire.Commands.RoomData.{
  StrippedRoomState, stripped_room_state_data, selecting_chart, waiting_for_ready, playing,
  stripped_room_state_variants, Record, record_data, RoundData, round_data_data, RoomData,
  room_data_data, PartialRoomData, partial_room_data_data, RoomEvent, room_event_data, create_room,
  update_room, join_room, leave_room, player_score, start_round, room_event_variants,
}

abbrev pub IsStrippedRoomState : StrippedRoomState → Type 0
IsStrippedRoomState selecting_chart = Unit {0}
IsStrippedRoomState waiting_for_ready = Unit {0}
IsStrippedRoomState playing = Unit {0}

abbrev stripped_room_state_predicates : FieldPredicates stripped_room_state_variants
stripped_room_state_predicates = (IsAny, (IsAny, (IsAny, tt)))

stripped_room_state_fields : AllLawful stripped_room_state_variants stripped_room_state_predicates
stripped_room_state_fields = (
  lawful_variant unit_data-Lawful (λ x f e. ground arith),
  (
    lawful_variant unit_data-Lawful (λ x f e. ground arith),
    (lawful_variant unit_data-Lawful (λ x f e. ground arith), tt),
  ),
)

IsStrippedRoomState-IsEnum :
    (x : StrippedRoomState)
    → IsStrippedRoomState x
    → IsEnum stripped_room_state_variants stripped_room_state_predicates x
IsStrippedRoomState-IsEnum selecting_chart h = h
IsStrippedRoomState-IsEnum _ h = h

pub stripped_room_state_data-Lawful : Lawful stripped_room_state_data IsStrippedRoomState
stripped_room_state_data-Lawful =
    Lawful-weaken
      (enum_data-Lawful stripped_room_state_variants stripped_room_state_predicates
        stripped_room_state_fields (omega arith))
      IsStrippedRoomState-IsEnum

abbrev pub IsRecord : Record → Type 0
IsRecord r =
    IsI32 r.id
    × (IsI32 r.player
        × (IsI32 r.score
            × (IsI32 r.perfect
                × (IsI32 r.good
                    × (IsI32 r.bad
                        × (IsI32 r.miss
                            × (IsI32 r.max_combo
                                × (IsU32 r.accuracy
                                    × (IsAny r.full_combo
                                        × (IsU32 r.std × IsU32 r.std_score))))))))))

pub record_data-Lawful : Lawful record_data IsRecord
record_data-Lawful =
    struct_data-Lawful
      (pair_data-Lawful i32_data-Lawful (
        pair_data-Lawful i32_data-Lawful (
          pair_data-Lawful i32_data-Lawful (
            pair_data-Lawful i32_data-Lawful (
              pair_data-Lawful i32_data-Lawful (
                pair_data-Lawful i32_data-Lawful (
                  pair_data-Lawful i32_data-Lawful (
                    pair_data-Lawful i32_data-Lawful (
                      pair_data-Lawful (le_data-Lawful 4) (
                        pair_data-Lawful bool_data-Lawful
                          (pair_data-Lawful (le_data-Lawful 4) (le_data-Lawful 4))))))))))))
      _ _ (λ r. refl)

abbrev pub IsRoundData : RoundData → Type 0
IsRoundData r = IsI32 r.chart × (IsVec IsRecord) r.records

pub round_data_data-Lawful : Lawful round_data_data IsRoundData
round_data_data-Lawful =
    struct_data-Lawful (pair_data-Lawful i32_data-Lawful (vec_data-Lawful record_data-Lawful)) _ _
      (λ r. refl)

abbrev pub IsRoomData : RoomData → Type 0
IsRoomData r =
    IsI32 r.host
    × ((IsVec IsI32) r.users
        × (IsAny r.lock
            × (IsAny r.cycle
                × ((IsOption IsI32) r.chart
                    × (IsStrippedRoomState r.state × (IsVec IsRoundData) r.rounds)))))

pub room_data_data-Lawful : Lawful room_data_data IsRoomData
room_data_data-Lawful =
    struct_data-Lawful
      (pair_data-Lawful i32_data-Lawful (
        pair_data-Lawful (vec_data-Lawful i32_data-Lawful) (
          pair_data-Lawful bool_data-Lawful (
            pair_data-Lawful bool_data-Lawful (
              pair_data-Lawful (option_data-Lawful i32_data-Lawful) (
                pair_data-Lawful stripped_room_state_data-Lawful
                  (vec_data-Lawful round_data_data-Lawful)))))))
      _ _ (λ r. refl)

abbrev pub IsPartialRoomData : PartialRoomData → Type 0
IsPartialRoomData r =
    (IsOption IsI32) r.host
    × ((IsOption IsAny) r.lock
        × ((IsOption IsAny) r.cycle
            × ((IsOption IsI32) r.chart × (IsOption IsStrippedRoomState) r.state)))

pub partial_room_data_data-Lawful : Lawful partial_room_data_data IsPartialRoomData
partial_room_data_data-Lawful =
    struct_data-Lawful
      (pair_data-Lawful (option_data-Lawful i32_data-Lawful) (
        pair_data-Lawful (option_data-Lawful bool_data-Lawful) (
          pair_data-Lawful (option_data-Lawful bool_data-Lawful) (
            pair_data-Lawful (option_data-Lawful i32_data-Lawful)
              (option_data-Lawful stripped_room_state_data-Lawful)))))
      _ _ (λ r. refl)

abbrev pub IsRoomEvent : RoomEvent → Type 0
IsRoomEvent (create_room a b) = IsRoomId a × IsRoomData b
IsRoomEvent (update_room a b) = IsRoomId a × IsPartialRoomData b
IsRoomEvent (join_room a b) = IsRoomId a × IsI32 b
IsRoomEvent (leave_room a b) = IsRoomId a × IsI32 b
IsRoomEvent (player_score a b) = IsRoomId a × IsRecord b
IsRoomEvent (start_round a b) = IsRoomId a × IsRoundData b

abbrev room_event_predicates : FieldPredicates room_event_variants
room_event_predicates = (
  (λ f. IsRoomId f.0 × IsRoomData f.1),
  (
    (λ f. IsRoomId f.0 × IsPartialRoomData f.1),
    (
      (λ f. IsRoomId f.0 × IsI32 f.1),
      (
        (λ f. IsRoomId f.0 × IsI32 f.1),
        ((λ f. IsRoomId f.0 × IsRecord f.1), ((λ f. IsRoomId f.0 × IsRoundData f.1), tt)),
      ),
    ),
  ),
)

room_event_fields : AllLawful room_event_variants room_event_predicates
room_event_fields = (
  lawful_variant (pair_data-Lawful room_id_data-Lawful room_data_data-Lawful)
      (λ x f e. ground arith),
  (
    lawful_variant (pair_data-Lawful room_id_data-Lawful partial_room_data_data-Lawful)
        (λ x f e. ground arith),
    (
      lawful_variant (pair_data-Lawful room_id_data-Lawful i32_data-Lawful) (λ x f e. ground arith),
      (
        lawful_variant (pair_data-Lawful room_id_data-Lawful i32_data-Lawful)
            (λ x f e. ground arith),
        (
          lawful_variant (pair_data-Lawful room_id_data-Lawful record_data-Lawful)
              (λ x f e. ground arith),
          (
            lawful_variant (pair_data-Lawful room_id_data-Lawful round_data_data-Lawful)
                (λ x f e. ground arith),
            tt,
          ),
        ),
      ),
    ),
  ),
)

IsRoomEvent-IsEnum :
    (x : RoomEvent) → IsRoomEvent x → IsEnum room_event_variants room_event_predicates x
IsRoomEvent-IsEnum (create_room a b) h = h
IsRoomEvent-IsEnum _ h = h

pub room_event_data-Lawful : Lawful room_event_data IsRoomEvent
room_event_data-Lawful =
    Lawful-weaken
      (enum_data-Lawful room_event_variants room_event_predicates room_event_fields (omega arith))
      IsRoomEvent-IsEnum
