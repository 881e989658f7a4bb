-- ===== src/Wire/Commands/Server/Laws.antt =====
-- The derived implementations of Server.antt are lawful on the values of their types.
use phira_mp_plus.Common.{int_eq, arith}
use phira_mp_plus.Wire.Codec.{Lawful, Lawful-weaken}
use phira_mp_plus.Wire.Text.{text_eq}
use phira_mp_plus.Wire.RoomId.{IsRoomId}
use phira_mp_plus.Wire.Codec.Numbers.{
  IsAny, IsI32, unit_data-Lawful, i32_data-Lawful, bool_data-Lawful,
}
use phira_mp_plus.Wire.RoomId.Laws.{room_id_data-Lawful}
use phira_mp_plus.Wire.Containers.Laws.{
  IsText, IsVec, IsOption, IsResult, string_data-Lawful, pair_data-Lawful, option_data-Lawful,
  result_data-Lawful, vec_data-Lawful,
}
use phira_mp_plus.Wire.Containers.Maps.{IsHashMap, map_data-Lawful}
use phira_mp_plus.Wire.Derive.Laws.{
  lawful_variant, FieldPredicates, AllLawful, IsEnum, enum_data-Lawful,
}
use phira_mp_plus.Wire.Commands.Game.Laws.{
  IsTouchFrame, touch_frame_data-Lawful, IsJudgeEvent, judge_event_data-Lawful,
}
use phira_mp_plus.Wire.Commands.Message.Laws.{IsMessage, message_data-Lawful}
use phira_mp_plus.Wire.Commands.Rooms.Laws.{
  IsRoomState, room_state_data-Lawful, IsUserInfo, user_info_data-Lawful, IsClientRoomState,
  client_room_state_data-Lawful, IsJoinRoomResponse, join_room_response_data-Lawful,
}
use phira_mp_plus.Wire.Commands.RoomData.Laws.{
  IsRoomData, room_data_data-Lawful, IsRoomEvent, room_event_data-Lawful,
}
use phira_mp_plus.Wire.Commands.Server.{
  ServerCommand, server_command_data, pong, authenticate, chat, touches, judges, message,
  change_state, change_host, create_room, join_room, on_join_room, leave_room, lock_room,
  cycle_room, select_chart, request_start, ready, cancel_ready, played, abort, room_response,
  room_event, user_visit, server_command_variants,
}

abbrev pub IsServerCommand : ServerCommand → Type 0
IsServerCommand pong = Unit {0}
IsServerCommand (authenticate a) =
    (IsResult (λ p. IsUserInfo p.0 × (IsOption IsClientRoomState) p.1) IsText) a
IsServerCommand (chat a) = (IsResult IsAny IsText) a
IsServerCommand (touches a b) = IsI32 a × (IsVec IsTouchFrame) b
IsServerCommand (judges a b) = IsI32 a × (IsVec IsJudgeEvent) b
IsServerCommand (message a) = IsMessage a
IsServerCommand (change_state a) = IsRoomState a
IsServerCommand (change_host a) = IsAny a
IsServerCommand (create_room a) = (IsResult IsAny IsText) a
IsServerCommand (join_room a) = (IsResult IsJoinRoomResponse IsText) a
IsServerCommand (on_join_room a) = IsUserInfo a
IsServerCommand (leave_room a) = (IsResult IsAny IsText) a
IsServerCommand (lock_room a) = (IsResult IsAny IsText) a
IsServerCommand (cycle_room a) = (IsResult IsAny IsText) a
IsServerCommand (select_chart a) = (IsResult IsAny IsText) a
IsServerCommand (request_start a) = (IsResult IsAny IsText) a
IsServerCommand (ready a) = (IsResult IsAny IsText) a
IsServerCommand (cancel_ready a) = (IsResult IsAny IsText) a
IsServerCommand (played a) = (IsResult IsAny IsText) a
IsServerCommand (abort a) = (IsResult IsAny IsText) a
IsServerCommand (room_response a) =
    (IsResult (λ p. (IsHashMap IsRoomId IsRoomData) p.0 × (IsHashMap IsI32 IsRoomId) p.1) IsText) a
IsServerCommand (room_event a) = IsRoomEvent a
IsServerCommand (user_visit a) = IsI32 a

abbrev server_command_predicates : FieldPredicates server_command_variants
server_command_predicates = (
  IsAny,
  (
    (IsResult (λ p. IsUserInfo p.0 × (IsOption IsClientRoomState) p.1) IsText),
    (
      IsResult IsAny IsText,
      (
        (λ f. IsI32 f.0 × (IsVec IsTouchFrame) f.1),
        (
          (λ f. IsI32 f.0 × (IsVec IsJudgeEvent) f.1),
          (
            IsMessage,
            (
              IsRoomState,
              (
                IsAny,
                (
                  IsResult IsAny IsText,
                  (
                    IsResult IsJoinRoomResponse IsText,
                    (
                      IsUserInfo,
                      (
                        IsResult IsAny IsText,
                        (
                          IsResult IsAny IsText,
                          (
                            IsResult IsAny IsText,
                            (
                              IsResult IsAny IsText,
                              (
                                IsResult IsAny IsText,
                                (
                                  IsResult IsAny IsText,
                                  (
                                    IsResult IsAny IsText,
                                    (
                                      IsResult IsAny IsText,
                                      (
                                        IsResult IsAny IsText,
                                        (
                                          (IsResult
                                              (λ p.
                                                (IsHashMap IsRoomId IsRoomData) p.0
                                                × (IsHashMap IsI32 IsRoomId) p.1)
                                              IsText),
                                          (IsRoomEvent, (IsI32, tt)),
                                        ),
                                      ),
                                    ),
                                  ),
                                ),
                              ),
                            ),
                          ),
                        ),
                      ),
                    ),
                  ),
                ),
              ),
            ),
          ),
        ),
      ),
    ),
  ),
)

server_command_fields : AllLawful server_command_variants server_command_predicates
server_command_fields = (
  lawful_variant unit_data-Lawful (λ x f e. ground arith),
  (
    lawful_variant
        (result_data-Lawful
          (pair_data-Lawful user_info_data-Lawful
            (option_data-Lawful client_room_state_data-Lawful))
          string_data-Lawful)
        (λ x f e. ground arith),
    (
      lawful_variant (result_data-Lawful unit_data-Lawful string_data-Lawful)
          (λ x f e. ground arith),
      (
        lawful_variant (pair_data-Lawful i32_data-Lawful (vec_data-Lawful touch_frame_data-Lawful))
            (λ x f e. ground arith),
        (
          lawful_variant
              (pair_data-Lawful i32_data-Lawful (vec_data-Lawful judge_event_data-Lawful))
              (λ x f e. ground arith),
          (
            lawful_variant message_data-Lawful (λ x f e. ground arith),
            (
              lawful_variant room_state_data-Lawful (λ x f e. ground arith),
              (
                lawful_variant bool_data-Lawful (λ x f e. ground arith),
                (
                  lawful_variant (result_data-Lawful unit_data-Lawful string_data-Lawful)
                      (λ x f e. ground arith),
                  (
                    lawful_variant
                        (result_data-Lawful join_room_response_data-Lawful string_data-Lawful)
                        (λ x f e. ground arith),
                    (
                      lawful_variant user_info_data-Lawful (λ x f e. ground arith),
                      (
                        lawful_variant (result_data-Lawful unit_data-Lawful string_data-Lawful)
                            (λ x f e. ground arith),
                        (
                          lawful_variant (result_data-Lawful unit_data-Lawful string_data-Lawful)
                              (λ x f e. ground arith),
                          (
                            lawful_variant (result_data-Lawful unit_data-Lawful string_data-Lawful)
                                (λ x f e. ground arith),
                            (
                              lawful_variant
                                  (result_data-Lawful unit_data-Lawful string_data-Lawful)
                                  (λ x f e. ground arith),
                              (
                                lawful_variant
                                    (result_data-Lawful unit_data-Lawful string_data-Lawful)
                                    (λ x f e. ground arith),
                                (
                                  lawful_variant
                                      (result_data-Lawful unit_data-Lawful string_data-Lawful)
                                      (λ x f e. ground arith),
                                  (
                                    lawful_variant
                                        (result_data-Lawful unit_data-Lawful string_data-Lawful)
                                        (λ x f e. ground arith),
                                    (
                                      lawful_variant
                                          (result_data-Lawful unit_data-Lawful string_data-Lawful)
                                          (λ x f e. ground arith),
                                      (
                                        lawful_variant
                                            (result_data-Lawful unit_data-Lawful string_data-Lawful)
                                            (λ x f e. ground arith),
                                        (
                                          lawful_variant
                                              (result_data-Lawful
                                                (pair_data-Lawful
                                                  (map_data-Lawful room_id_data-Lawful
                                                    room_data_data-Lawful)
                                                  (map_data-Lawful i32_data-Lawful
                                                    room_id_data-Lawful))
                                                string_data-Lawful)
                                              (λ x f e. ground arith),
                                          (
                                            lawful_variant room_event_data-Lawful
                                                (λ x f e. ground arith),
                                            (
                                              lawful_variant i32_data-Lawful
                                                  (λ x f e. ground arith),
                                              tt,
                                            ),
                                          ),
                                        ),
                                      ),
                                    ),
                                  ),
                                ),
                              ),
                            ),
                          ),
                        ),
                      ),
                    ),
                  ),
                ),
              ),
            ),
          ),
        ),
      ),
    ),
  ),
)

IsServerCommand-IsEnum :
    (x : ServerCommand)
    → IsServerCommand x
    → IsEnum server_command_variants server_command_predicates x
IsServerCommand-IsEnum pong h = h
IsServerCommand-IsEnum _ h = h

pub server_command_data-Lawful : Lawful server_command_data IsServerCommand
server_command_data-Lawful =
    Lawful-weaken
      (enum_data-Lawful server_command_variants server_command_predicates server_command_fields
        (omega arith))
      IsServerCommand-IsEnum
