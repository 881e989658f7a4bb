-- ===== src/Wire/Commands/Rooms/Laws.antt =====
-- The derived implementations of Rooms.antt are lawful on the values of their types.
use phira_mp_plus.Common.{refl, int_eq, arith}
use phira_mp_plus.Wire.Codec.{Lawful, Lawful-weaken}
use phira_mp_plus.Wire.Text.{text_eq}
use phira_mp_plus.Wire.RoomId.{IsRoomId}
use phira_mp_plus.Wire.Codec.Numbers.{
  IsAny, IsI32, unit_data-Lawful, i32_data-Lawful, bool_data-Lawful,
}
use phira_mp_plus.Wire.RoomId.Laws.{room_id_data-Lawful}
use phira_mp_plus.Wire.Containers.Laws.{
  IsText, IsVec, IsOption, string_data-Lawful, pair_data-Lawful, option_data-Lawful,
  vec_data-Lawful,
}
use phira_mp_plus.Wire.Containers.Maps.{IsHashMap, map_data-Lawful}
use phira_mp_plus.Wire.Derive.Laws.{
  struct_data-Lawful, lawful_variant, FieldPredicates, AllLawful, IsEnum, enum_data-Lawful,
}
use phira_mp_plus.Wire.Commands.Rooms.{
  RoomState, room_state_data, select_chart, waiting_for_ready, playing, room_state_variants,
  UserInfo, user_info_data, ClientRoomState, client_room_state_data, JoinRoomResponse,
  join_room_response_data,
}

abbrev pub IsRoomState : RoomState → Type 0
IsRoomState (select_chart a) = (IsOption IsI32) a
IsRoomState waiting_for_ready = Unit {0}
IsRoomState playing = Unit {0}

abbrev room_state_predicates : FieldPredicates room_state_variants
room_state_predicates = (IsOption IsI32, (IsAny, (IsAny, tt)))

room_state_fields : AllLawful room_state_variants room_state_predicates
room_state_fields = (
  lawful_variant (option_data-Lawful i32_data-Lawful) (λ x f e. ground arith),
  (
    lawful_variant unit_data-Lawful (λ x f e. ground arith),
    (lawful_variant unit_data-Lawful (λ x f e. ground arith), tt),
  ),
)

IsRoomState-IsEnum :
    (x : RoomState) → IsRoomState x → IsEnum room_state_variants room_state_predicates x
IsRoomState-IsEnum (select_chart a) h = h
IsRoomState-IsEnum _ h = h

pub room_state_data-Lawful : Lawful room_state_data IsRoomState
room_state_data-Lawful =
    Lawful-weaken
      (enum_data-Lawful room_state_variants room_state_predicates room_state_fields (omega arith))
      IsRoomState-IsEnum

abbrev pub IsUserInfo : UserInfo → Type 0
IsUserInfo r = IsI32 r.id × (IsText r.name × IsAny r.monitor)

pub user_info_data-Lawful : Lawful user_info_data IsUserInfo
user_info_data-Lawful =
    struct_data-Lawful
      (pair_data-Lawful i32_data-Lawful (pair_data-Lawful string_data-Lawful bool_data-Lawful)) _ _
      (λ r. refl)

abbrev pub IsClientRoomState : ClientRoomState → Type 0
IsClientRoomState r =
    IsRoomId r.id
    × (IsRoomState r.state
        × (IsAny r.live
            × (IsAny r.locked
                × (IsAny r.cycle
                    × (IsAny r.is_host
                        × (IsAny r.is_ready × (IsHashMap IsI32 IsUserInfo) r.users))))))

pub client_room_state_data-Lawful : Lawful client_room_state_data IsClientRoomState
client_room_state_data-Lawful =
    struct_data-Lawful
      (pair_data-Lawful room_id_data-Lawful (
        pair_data-Lawful room_state_data-Lawful (
          pair_data-Lawful bool_data-Lawful (
            pair_data-Lawful bool_data-Lawful (
              pair_data-Lawful bool_data-Lawful (
                pair_data-Lawful bool_data-Lawful (
                  pair_data-Lawful bool_data-Lawful
                    (map_data-Lawful i32_data-Lawful user_info_data-Lawful))))))))
      _ _ (λ r. refl)

abbrev pub IsJoinRoomResponse : JoinRoomResponse → Type 0
IsJoinRoomResponse r = IsRoomState r.state × ((IsVec IsUserInfo) r.users × IsAny r.live)

pub join_room_response_data-Lawful : Lawful join_room_response_data IsJoinRoomResponse
join_room_response_data-Lawful =
    struct_data-Lawful
      (pair_data-Lawful room_state_data-Lawful
        (pair_data-Lawful (vec_data-Lawful user_info_data-Lawful) bool_data-Lawful))
      _ _ (λ r. refl)
