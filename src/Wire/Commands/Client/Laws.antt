-- ===== src/Wire/Commands/Client/Laws.antt =====
-- The derived implementations of Client.antt are lawful on the values of their types.
use phira_mp_plus.Common.{int_eq, arith}
use phira_mp_plus.Wire.Codec.{Lawful, Lawful-weaken}
use phira_mp_plus.Wire.Text.{text_eq}
use phira_mp_plus.Wire.RoomId.{IsRoomId}
use phira_mp_plus.Wire.Codec.Numbers.{
  IsAny, IsI32, unit_data-Lawful, u8_data-Lawful, i32_data-Lawful, bool_data-Lawful,
}
use phira_mp_plus.Wire.RoomId.Laws.{IsVarchar, varchar_data-Lawful, room_id_data-Lawful}
use phira_mp_plus.Wire.Containers.Laws.{IsVec, pair_data-Lawful, vec_data-Lawful}
use phira_mp_plus.Wire.Derive.Laws.{
  lawful_variant, FieldPredicates, AllLawful, IsEnum, enum_data-Lawful,
}
use phira_mp_plus.Wire.Commands.Game.Laws.{
  IsTouchFrame, touch_frame_data-Lawful, IsJudgeEvent, judge_event_data-Lawful,
}
use phira_mp_plus.Wire.Commands.Client.{
  ClientCommand, client_command_data, ping, authenticate, chat, touches, judges, create_room,
  join_room, leave_room, lock_room, cycle_room, select_chart, request_start, ready, cancel_ready,
  played, abort, console_authenticate, room_monitor_authenticate, query_room_info,
  game_monitor_authenticate, client_command_variants,
}

abbrev pub IsClientCommand : ClientCommand → Type 0
IsClientCommand ping = Unit {0}
IsClientCommand (authenticate a) = (IsVarchar 32) a
IsClientCommand (chat a) = (IsVarchar 200) a
IsClientCommand (touches a) = (IsVec IsTouchFrame) a
IsClientCommand (judges a) = (IsVec IsJudgeEvent) a
IsClientCommand (create_room a) = IsRoomId a
IsClientCommand (join_room a b) = IsRoomId a × IsAny b
IsClientCommand leave_room = Unit {0}
IsClientCommand (lock_room a) = IsAny a
IsClientCommand (cycle_room a) = IsAny a
IsClientCommand (select_chart a) = IsI32 a
IsClientCommand request_start = Unit {0}
IsClientCommand ready = Unit {0}
IsClientCommand cancel_ready = Unit {0}
IsClientCommand (played a) = IsI32 a
IsClientCommand abort = Unit {0}
IsClientCommand (console_authenticate a) = (IsVarchar 32) a
IsClientCommand (room_monitor_authenticate a) = (IsVec IsAny) a
IsClientCommand query_room_info = Unit {0}
IsClientCommand (game_monitor_authenticate a) = (IsVarchar 32) a

abbrev client_command_predicates : FieldPredicates client_command_variants
client_command_predicates = (
  IsAny,
  (
    IsVarchar 32,
    (
      IsVarchar 200,
      (
        IsVec IsTouchFrame,
        (
          IsVec IsJudgeEvent,
          (
            IsRoomId,
            (
              (λ f. IsRoomId f.0 × IsAny f.1),
              (
                IsAny,
                (
                  IsAny,
                  (
                    IsAny,
                    (
                      IsI32,
                      (
                        IsAny,
                        (
                          IsAny,
                          (
                            IsAny,
                            (
                              IsI32,
                              (IsAny, (IsVarchar 32, (IsVec IsAny, (IsAny, (IsVarchar 32, tt))))),
                            ),
                          ),
                        ),
                      ),
                    ),
                  ),
                ),
              ),
            ),
          ),
        ),
      ),
    ),
  ),
)

client_command_fields : AllLawful client_command_variants client_command_predicates
client_command_fields = (
  lawful_variant unit_data-Lawful (λ x f e. ground arith),
  (
    lawful_variant (varchar_data-Lawful 32 (omega arith)) (λ x f e. ground arith),
    (
      lawful_variant (varchar_data-Lawful 200 (omega arith)) (λ x f e. ground arith),
      (
        lawful_variant (vec_data-Lawful touch_frame_data-Lawful) (λ x f e. ground arith),
        (
          lawful_variant (vec_data-Lawful judge_event_data-Lawful) (λ x f e. ground arith),
          (
            lawful_variant room_id_data-Lawful (λ x f e. ground arith),
            (
              lawful_variant (pair_data-Lawful room_id_data-Lawful bool_data-Lawful)
                  (λ x f e. ground arith),
              (
                lawful_variant unit_data-Lawful (λ x f e. ground arith),
                (
                  lawful_variant bool_data-Lawful (λ x f e. ground arith),
                  (
                    lawful_variant bool_data-Lawful (λ x f e. ground arith),
                    (
                      lawful_variant i32_data-Lawful (λ x f e. ground arith),
                      (
                        lawful_variant unit_data-Lawful (λ x f e. ground arith),
                        (
                          lawful_variant unit_data-Lawful (λ x f e. ground arith),
                          (
                            lawful_variant unit_data-Lawful (λ x f e. ground arith),
                            (
                              lawful_variant i32_data-Lawful (λ x f e. ground arith),
                              (
                                lawful_variant unit_data-Lawful (λ x f e. ground arith),
                                (
                                  lawful_variant (varchar_data-Lawful 32 (omega arith))
                                      (λ x f e. ground arith),
                                  (
                                    lawful_variant (vec_data-Lawful u8_data-Lawful)
                                        (λ x f e. ground arith),
                                    (
                                      lawful_variant unit_data-Lawful (λ x f e. ground arith),
                                      (
                                        lawful_variant (varchar_data-Lawful 32 (omega arith))
                                            (λ x f e. ground arith),
                                        tt,
                                      ),
                                    ),
                                  ),
                                ),
                              ),
                            ),
                          ),
                        ),
                      ),
                    ),
                  ),
                ),
              ),
            ),
          ),
        ),
      ),
    ),
  ),
)

IsClientCommand-IsEnum :
    (x : ClientCommand)
    → IsClientCommand x
    → IsEnum client_command_variants client_command_predicates x
IsClientCommand-IsEnum ping h = h
IsClientCommand-IsEnum _ h = h

pub client_command_data-Lawful : Lawful client_command_data IsClientCommand
client_command_data-Lawful =
    Lawful-weaken
      (enum_data-Lawful client_command_variants client_command_predicates client_command_fields
        (omega arith))
      IsClientCommand-IsEnum
