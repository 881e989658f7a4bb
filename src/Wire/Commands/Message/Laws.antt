-- ===== src/Wire/Commands/Message/Laws.antt =====
-- The derived implementations of Message.antt are lawful on the values of their types.
use phira_mp_plus.Common.{int_eq, arith}
use phira_mp_plus.Wire.Codec.{Lawful, Lawful-weaken}
use phira_mp_plus.Wire.Text.{text_eq}
use phira_mp_plus.Wire.Codec.Numbers.{
  IsAny, IsI32, IsU32, unit_data-Lawful, le_data-Lawful, i32_data-Lawful, bool_data-Lawful,
}
use phira_mp_plus.Wire.Containers.Laws.{IsText, string_data-Lawful, pair_data-Lawful}
use phira_mp_plus.Wire.Derive.Laws.{
  lawful_variant, FieldPredicates, AllLawful, IsEnum, enum_data-Lawful,
}
use phira_mp_plus.Wire.Commands.Message.{
  Message, message_data, chat, create_room, join_room, leave_room, new_host, select_chart,
  game_start, ready, cancel_ready, cancel_game, start_playing, played, game_end, abort, lock_room,
  cycle_room, message_variants,
}

abbrev pub IsMessage : Message → Type 0
IsMessage (chat a b) = IsI32 a × IsText b
IsMessage (create_room a) = IsI32 a
IsMessage (join_room a b) = IsI32 a × IsText b
IsMessage (leave_room a b) = IsI32 a × IsText b
IsMessage (new_host a) = IsI32 a
IsMessage (select_chart a b c) = IsI32 a × (IsText b × IsI32 c)
IsMessage (game_start a) = IsI32 a
IsMessage (ready a) = IsI32 a
IsMessage (cancel_ready a) = IsI32 a
IsMessage (cancel_game a) = IsI32 a
IsMessage start_playing = Unit {0}
IsMessage (played a b c d e f g h k) =
    IsI32 a
    × (IsI32 b × (IsU32 c × (IsAny d × (IsI32 e × (IsI32 f × (IsI32 g × (IsI32 h × IsI32 k)))))))
IsMessage game_end = Unit {0}
IsMessage (abort a) = IsI32 a
IsMessage (lock_room a) = IsAny a
IsMessage (cycle_room a) = IsAny a

abbrev message_predicates : FieldPredicates message_variants
message_predicates = (
  (λ f. IsI32 f.0 × IsText f.1),
  (
    IsI32,
    (
      (λ f. IsI32 f.0 × IsText f.1),
      (
        (λ f. IsI32 f.0 × IsText f.1),
        (
          IsI32,
          (
            (λ f. IsI32 f.0 × (IsText f.1.0 × IsI32 f.1.1)),
            (
              IsI32,
              (
                IsI32,
                (
                  IsI32,
                  (
                    IsI32,
                    (
                      IsAny,
                      (
                        (λ f.
                            IsI32 f.0
                            × (IsI32 f.1.0
                                × (IsU32 f.1.1.0
                                    × (IsAny f.1.1.1.0
                                        × (IsI32 f.1.1.1.1.0
                                            × (IsI32 f.1.1.1.1.1.0
                                                × (IsI32 f.1.1.1.1.1.1.0
                                                    × (IsI32 f.1.1.1.1.1.1.1.0
                                                        × IsI32 f.1.1.1.1.1.1.1.1)))))))),
                        (IsAny, (IsI32, (IsAny, (IsAny, tt)))),
                      ),
                    ),
                  ),
                ),
              ),
            ),
          ),
        ),
      ),
    ),
  ),
)

message_fields : AllLawful message_variants message_predicates
message_fields = (
  lawful_variant (pair_data-Lawful i32_data-Lawful string_data-Lawful) (λ x f e. ground arith),
  (
    lawful_variant i32_data-Lawful (λ x f e. ground arith),
    (
      lawful_variant (pair_data-Lawful i32_data-Lawful string_data-Lawful) (λ x f e. ground arith),
      (
        lawful_variant (pair_data-Lawful i32_data-Lawful string_data-Lawful)
            (λ x f e. ground arith),
        (
          lawful_variant i32_data-Lawful (λ x f e. ground arith),
          (
            lawful_variant
                (pair_data-Lawful i32_data-Lawful
                  (pair_data-Lawful string_data-Lawful i32_data-Lawful))
                (λ x f e. ground arith),
            (
              lawful_variant i32_data-Lawful (λ x f e. ground arith),
              (
                lawful_variant i32_data-Lawful (λ x f e. ground arith),
                (
                  lawful_variant i32_data-Lawful (λ x f e. ground arith),
                  (
                    lawful_variant i32_data-Lawful (λ x f e. ground arith),
                    (
                      lawful_variant unit_data-Lawful (λ x f e. ground arith),
                      (
                        lawful_variant
                            (pair_data-Lawful i32_data-Lawful (
                              pair_data-Lawful i32_data-Lawful (
                                pair_data-Lawful (le_data-Lawful 4) (
                                  pair_data-Lawful bool_data-Lawful (
                                    pair_data-Lawful i32_data-Lawful (
                                      pair_data-Lawful i32_data-Lawful (
                                        pair_data-Lawful i32_data-Lawful
                                          (pair_data-Lawful i32_data-Lawful i32_data-Lawful))))))))
                            (λ x f e. ground arith),
                        (
                          lawful_variant unit_data-Lawful (λ x f e. ground arith),
                          (
                            lawful_variant i32_data-Lawful (λ x f e. ground arith),
                            (
                              lawful_variant bool_data-Lawful (λ x f e. ground arith),
                              (lawful_variant bool_data-Lawful (λ x f e. ground arith), tt),
                            ),
                          ),
                        ),
                      ),
                    ),
                  ),
                ),
              ),
            ),
          ),
        ),
      ),
    ),
  ),
)

IsMessage-IsEnum : (x : Message) → IsMessage x → IsEnum message_variants message_predicates x
IsMessage-IsEnum (chat a b) h = h
IsMessage-IsEnum _ h = h

pub message_data-Lawful : Lawful message_data IsMessage
message_data-Lawful =
    Lawful-weaken
      (enum_data-Lawful message_variants message_predicates message_fields (omega arith))
      IsMessage-IsEnum
