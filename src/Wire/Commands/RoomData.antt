-- ===== src/Wire/Commands/RoomData.antt =====
-- phira-mp/phira-mp-common/src/command.rs: `StrippedRoomState`, `RoomData`, `PartialRoomData`, `Record`, `RoundData`, `RoomEvent`.
pub mod Laws
use phira_mp_plus.Common.{
  ℕ, ◌≡◌, refl, List, [], ◌∷◌, Bool, Option, none, some, Result, ℤ, int_eq, arith,
}
use phira_mp_plus.Wire.Codec.{
  BinaryData, Lawful, Lawful-weaken, unit_data, u8_data, u16_data, u32_data, f32_data, i8_data,
  i32_data, bool_data,
}
use phira_mp_plus.Wire.Text.{Text, text_eq}
use phira_mp_plus.Wire.RoomId.{varchar_data, room_id_data, IsRoomId}
use phira_mp_plus.Wire.Containers.{
  string_data, pair_data, option_data, result_data, vec_data, map_data,
}
use phira_mp_plus.Wire.Derive.{struct_data, Variant, variant, enum_data}

-- `StrippedRoomState`
pub data StrippedRoomState : Type 0 where
  selecting_chart : StrippedRoomState
  waiting_for_ready : StrippedRoomState
  playing : StrippedRoomState

abbrev pub stripped_room_state_variants : List (Variant StrippedRoomState)
stripped_room_state_variants =
    variant unit_data (λ _. selecting_chart) (λ x. elim x [ selecting_chart ↦ some tt | _ ↦ none ])
    ∷ variant unit_data (λ _. waiting_for_ready)
        (λ x. elim x [ waiting_for_ready ↦ some tt | _ ↦ none ])
    ∷ variant unit_data (λ _. playing) (λ x. elim x [ playing ↦ some tt | _ ↦ none ])
    ∷ []

abbrev pub stripped_room_state_data : BinaryData StrippedRoomState
stripped_room_state_data = enum_data stripped_room_state_variants

-- `Record`
pub record Record : Type 0 where
  pub id : ℤ
  pub player : ℤ
  pub score : ℤ
  pub perfect : ℤ
  pub good : ℤ
  pub bad : ℤ
  pub miss : ℤ
  pub max_combo : ℤ
  pub accuracy : ℕ
  pub full_combo : Bool
  pub std : ℕ
  pub std_score : ℕ

abbrev pub record_data : BinaryData Record
record_data =
    struct_data
      (pair_data i32_data (
        pair_data i32_data (
          pair_data i32_data (
            pair_data i32_data (
              pair_data i32_data (
                pair_data i32_data (
                  pair_data i32_data (
                    pair_data i32_data (
                      pair_data f32_data
                        (pair_data bool_data (pair_data f32_data f32_data)))))))))))
      (λ f. record {
        id = f.0;
        player = f.1.0;
        score = f.1.1.0;
        perfect = f.1.1.1.0;
        good = f.1.1.1.1.0;
        bad = f.1.1.1.1.1.0;
        miss = f.1.1.1.1.1.1.0;
        max_combo = f.1.1.1.1.1.1.1.0;
        accuracy = f.1.1.1.1.1.1.1.1.0;
        full_combo = f.1.1.1.1.1.1.1.1.1.0;
        std = f.1.1.1.1.1.1.1.1.1.1.0;
        std_score = f.1.1.1.1.1.1.1.1.1.1.1;
      })
      (λ r. (
        r.id,
        (
          r.player,
          (
            r.score,
            (
              r.perfect,
              (
                r.good,
                (
                  r.bad,
                  (r.miss, (r.max_combo, (r.accuracy, (r.full_combo, (r.std, r.std_score))))),
                ),
              ),
            ),
          ),
        ),
      ))

-- `RoundData`
pub record RoundData : Type 0 where
  pub chart : ℤ
  pub records : List Record

abbrev pub round_data_data : BinaryData RoundData
round_data_data =
    struct_data (pair_data i32_data (vec_data record_data))
      (λ f. record { chart = f.0; records = f.1 }) (λ r. (r.chart, r.records))

-- `RoomData`
pub record RoomData : Type 0 where
  pub host : ℤ
  pub users : List ℤ
  pub lock : Bool
  pub cycle : Bool
  pub chart : Option ℤ
  pub state : StrippedRoomState
  pub rounds : List RoundData

abbrev pub room_data_data : BinaryData RoomData
room_data_data =
    struct_data
      (pair_data i32_data (
        pair_data (vec_data i32_data) (
          pair_data bool_data (
            pair_data bool_data (
              pair_data (option_data i32_data)
                (pair_data stripped_room_state_data (vec_data round_data_data)))))))
      (λ f. record {
        host = f.0;
        users = f.1.0;
        lock = f.1.1.0;
        cycle = f.1.1.1.0;
        chart = f.1.1.1.1.0;
        state = f.1.1.1.1.1.0;
        rounds = f.1.1.1.1.1.1;
      })
      (λ r. (r.host, (r.users, (r.lock, (r.cycle, (r.chart, (r.state, r.rounds)))))))

-- `PartialRoomData`
pub record PartialRoomData : Type 0 where
  pub host : Option ℤ
  pub lock : Option Bool
  pub cycle : Option Bool
  pub chart : Option ℤ
  pub state : Option StrippedRoomState

abbrev pub partial_room_data_data : BinaryData PartialRoomData
partial_room_data_data =
    struct_data
      (pair_data (option_data i32_data) (
        pair_data (option_data bool_data) (
          pair_data (option_data bool_data)
            (pair_data (option_data i32_data) (option_data stripped_room_state_data)))))
      (λ f. record {
        host = f.0;
        lock = f.1.0;
        cycle = f.1.1.0;
        chart = f.1.1.1.0;
        state = f.1.1.1.1;
      })
      (λ r. (r.host, (r.lock, (r.cycle, (r.chart, r.state)))))

-- `RoomEvent`
pub data RoomEvent : Type 0 where
  create_room : Text → RoomData → RoomEvent
  update_room : Text → PartialRoomData → RoomEvent
  join_room : Text → ℤ → RoomEvent
  leave_room : Text → ℤ → RoomEvent
  player_score : Text → Record → RoomEvent
  start_round : Text → RoundData → RoomEvent

abbrev pub room_event_variants : List (Variant RoomEvent)
room_event_variants =
    variant (pair_data room_id_data room_data_data) (λ p. create_room p.0 p.1)
      (λ x. elim x [ create_room a b ↦ some (a, b) | _ ↦ none ])
    ∷ variant (pair_data room_id_data partial_room_data_data) (λ p. update_room p.0 p.1)
        (λ x. elim x [ update_room a b ↦ some (a, b) | _ ↦ none ])
    ∷ variant (pair_data room_id_data i32_data) (λ p. join_room p.0 p.1)
        (λ x. elim x [ join_room a b ↦ some (a, b) | _ ↦ none ])
    ∷ variant (pair_data room_id_data i32_data) (λ p. leave_room p.0 p.1)
        (λ x. elim x [ leave_room a b ↦ some (a, b) | _ ↦ none ])
    ∷ variant (pair_data room_id_data record_data) (λ p. player_score p.0 p.1)
        (λ x. elim x [ player_score a b ↦ some (a, b) | _ ↦ none ])
    ∷ variant (pair_data room_id_data round_data_data) (λ p. start_round p.0 p.1)
        (λ x. elim x [ start_round a b ↦ some (a, b) | _ ↦ none ])
    ∷ []

abbrev pub room_event_data : BinaryData RoomEvent
room_event_data = enum_data room_event_variants
