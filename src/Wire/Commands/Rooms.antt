-- ===== src/Wire/Commands/Rooms.antt =====
-- phira-mp/phira-mp-common/src/command.rs: the states and descriptions of rooms, and `RoomEvent`.
pub mod Laws
use phira_mp_plus.Common.{
  ℕ, ◌≡◌, refl, List, [], ◌∷◌, Bool, Option, none, some, Result, ℤ, int_eq, arith,
}
use phira_mp_plus.Wire.Codec.{
  BinaryData, Lawful, Lawful-weaken, unit_data, u8_data, u16_data, u32_data, f32_data, i8_data,
  i32_data, bool_data,
}
use phira_mp_plus.Wire.Text.{Text, text_eq}
use phira_mp_plus.Wire.RoomId.{varchar_data, room_id_data, IsRoomId}
use phira_mp_plus.Wire.Containers.{
  string_data, pair_data, option_data, result_data, vec_data, map_data,
}
use phira_mp_plus.Wire.Derive.{struct_data, Variant, variant, enum_data}

-- `RoomState`
pub data RoomState : Type 0 where
  select_chart : Option ℤ → RoomState
  waiting_for_ready : RoomState
  playing : RoomState

abbrev pub room_state_variants : List (Variant RoomState)
room_state_variants =
    variant (option_data i32_data) select_chart (λ x. elim x [ select_chart a ↦ some a | _ ↦ none ])
    ∷ variant unit_data (λ _. waiting_for_ready)
        (λ x. elim x [ waiting_for_ready ↦ some tt | _ ↦ none ])
    ∷ variant unit_data (λ _. playing) (λ x. elim x [ playing ↦ some tt | _ ↦ none ])
    ∷ []

abbrev pub room_state_data : BinaryData RoomState
room_state_data = enum_data room_state_variants

-- `UserInfo`
pub record UserInfo : Type 0 where
  pub id : ℤ
  pub name : Text
  pub monitor : Bool

abbrev pub user_info_data : BinaryData UserInfo
user_info_data =
    struct_data (pair_data i32_data (pair_data string_data bool_data))
      (λ f. record { id = f.0; name = f.1.0; monitor = f.1.1 }) (λ r. (r.id, (r.name, r.monitor)))

-- `ClientRoomState`
pub record ClientRoomState : Type 0 where
  pub id : Text
  pub state : RoomState
  pub live : Bool
  pub locked : Bool
  pub cycle : Bool
  pub is_host : Bool
  pub is_ready : Bool
  pub users : List (ℤ × UserInfo)

abbrev pub client_room_state_data : BinaryData ClientRoomState
client_room_state_data =
    struct_data
      (pair_data room_id_data (
        pair_data room_state_data (
          pair_data bool_data (
            pair_data bool_data (
              pair_data bool_data
                (pair_data bool_data (pair_data bool_data (map_data i32_data user_info_data))))))))
      (λ f. record {
        id = f.0;
        state = f.1.0;
        live = f.1.1.0;
        locked = f.1.1.1.0;
        cycle = f.1.1.1.1.0;
        is_host = f.1.1.1.1.1.0;
        is_ready = f.1.1.1.1.1.1.0;
        users = f.1.1.1.1.1.1.1;
      })
      (λ r. (r.id, (r.state, (r.live, (r.locked, (r.cycle, (r.is_host, (r.is_ready, r.users))))))))

-- `JoinRoomResponse`
pub record JoinRoomResponse : Type 0 where
  pub state : RoomState
  pub users : List UserInfo
  pub live : Bool

abbrev pub join_room_response_data : BinaryData JoinRoomResponse
join_room_response_data =
    struct_data (pair_data room_state_data (pair_data (vec_data user_info_data) bool_data))
      (λ f. record { state = f.0; users = f.1.0; live = f.1.1 }) (λ r. (r.state, (r.users, r.live)))
