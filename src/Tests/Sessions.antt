-- ===== src/Tests/Sessions.antt =====
-- The theorems on phira-mp-plus-server/src/session.rs and what belongs to it, at concrete sessions.
use mathlib.Core.List.{map}
use phira_mp_plus.Common.{
  ℕ, ◌≤◌, ◌≡◌, refl, List, [], ◌∷◌, ◌++◌, Bool, true, false, not, ◌⊎◌, Option, none, some, arith,
  retain,
}
use phira_mp_plus.Common.Sublists.{Sublist}
use phira_mp_plus.Wire.Frame.{encode_packet}
use phira_mp_plus.Wire.Codec.{to_le_bytes, to_bits}
use phira_mp_plus.Wire.Derive.{enum_data, write_variant}
use phira_mp_plus.Wire.Commands.Message
use phira_mp_plus.Wire.Commands.Server.{ServerCommand}
use phira_mp_plus.Session.Gate.{real_size, new, entry_of, push_bounded}
use phira_mp_plus.Session.Gate.Bounds.{expected_events, expected_overflow, push_bounded-expected}
use phira_mp_plus.Session.Gate.Limits.{new-IsBounded}
use phira_mp_plus.Session.Gate.Delivery.{
  Packet, bytes_of, opened, opened-is_news, delivered, is_news, any_oversized, opened-any_oversized,
}
use phira_mp_plus.Session.Gate.{Answer, accepted}
use phira_mp_plus.Session.PostResponse.{
  PostResponseItem, change_host, change_state, run_post_response_batch, sort_by_kind,
}
use phira_mp_plus.Session.PostResponse.Order.{
  IsAscending, of_kind, outgoing, run_post_response_batch-order,
}
use phira_mp_plus.Session.Outbound.{
  OutboundItem, packet, critical, activation, post_response, Link, Task, run_outbound_task, start,
}
use phira_mp_plus.Session.Outbound.Order.{packets_of, queued, run_outbound_task-queued}
use phira_mp_plus.Session.Outbound.Fifo.{
  all_commands, requested, has_activation, run_outbound_task-requested,
}
use phira_mp_plus.Session.Outbound.Barrier.{run_outbound_task-silent}
use phira_mp_plus.Session.Binding.{User, is_current, SessionBinding}
use phira_mp_plus.Session.Binding.Reconnect.{
  reconnect, failed, failed-reconnect, failed-failed, failed-concurrent,
}
use phira_mp_plus.Session.Binding
use phira_mp_plus.Session.Mailbox.{
  Caller, Job, in_time, RouteError, route, run_or_deadline, await_reply,
}
use phira_mp_plus.Session.Mailbox.Outcome.{route-state}

-- A host who is named twice, with the end of a game in between.
abbrev packets : List Packet
packets =
    (ServerCommand.change_host true, some 4)
    ∷ (ServerCommand.message Message.game_end, none)
    ∷ (ServerCommand.change_host false, some 6)
    ∷ []

packets_bytes : bytes_of packets ≡ 6
unfolding bytes_of real_size encode_packet enum_data write_variant to_le_bytes to_bits
packets_bytes = refl

packets_fit : bytes_of packets ≤ 1000
packets_fit = omega (arith, packets_bytes)

abbrev sink_ok : ℕ → Answer
sink_ok n = accepted

opened-is_news_example :
    let result = opened sink_ok 5 packets (new 8 1000 60 0) in
    (result.1 ≡ map delivered (retain (is_news 5) packets)) × (result.2 ≡ true)
opened-is_news_example =
    opened-is_news packets 5 8 1000 60 0 sink_ok (omega arith) (omega arith) packets_fit (λ n. refl)

opened-any_oversized_example :
    let result = opened sink_ok 5 packets (new 8 1 60 0) in
    (result.0.activated ≡ not (any_oversized 8 1 packets))
    × (result.2 ≡ not (any_oversized 8 1 packets))
    × (any_oversized 8 1 packets ≡ false ⊎ result.1 ≡ [])
opened-any_oversized_example =
    opened-any_oversized packets 5 8 1 60 0 sink_ok (omega arith) (λ n. refl)

push_bounded-expected_example :
    ((push_bounded (ServerCommand.change_host true) (some 4) (new 8 1000 60 0)).pending.events
      ≡ expected_events
          (new 8 1000 60 0)
          (entry_of ((new 8 1000 60 0).pending.next_seq) (ServerCommand.change_host true) (some 4)))
    × ((push_bounded (ServerCommand.change_host true) (some 4) (new 8 1000 60 0)).overflowed
        ≡ expected_overflow (new 8 1000 60 0) (
            entry_of
              ((new 8 1000 60 0).pending.next_seq)
              (ServerCommand.change_host true)
              (some 4)))
push_bounded-expected_example =
    push_bounded-expected (ServerCommand.change_host true) (some 4) (new 8 1000 60 0)
      (new-IsBounded 8 1000 60 0 (omega arith))

-- A state that is corrected before a host.
abbrev corrections : List PostResponseItem
corrections =
    record { kind = change_state; command = ServerCommand.message Message.game_end }
    ∷ record { kind = change_host; command = ServerCommand.change_host true }
    ∷ []

run_post_response_batch-order_example :
    let sorted = sort_by_kind corrections in
    (run_post_response_batch (λ k. true) (λ k. accepted) corrections ≡ (map outgoing sorted, true))
    × IsAscending sorted
    × (of_kind change_host sorted ≡ of_kind change_host corrections)
run_post_response_batch-order_example =
    run_post_response_batch-order (λ k. true) (λ k. accepted) corrections change_host (λ k. refl)
      (λ k. refl)

abbrev link : Link
link = record { ready = true; alive = true; answers = λ n. accepted; current = λ n. true }

abbrev items : List (Link × OutboundItem)
items =
    (link, packet (ServerCommand.change_host true) (some 4))
    ∷ (link, critical ServerCommand.pong)
    ∷ (link, post_response corrections)
    ∷ []

abbrev open_task : Task
open_task = record {
  active = true;
  gate = new 8 1000 60 0;
  written = [];
  replies = [];
  closed = false;
}

no_events : (new 8 1000 60 0).pending.events ≡ []
unfolding new
no_events = refl

no_activation : has_activation items ≡ false
unfolding has_activation
no_activation = refl

run_outbound_task-queued_example :
    Sublist
      (packets_of
        ((run_outbound_task ((link, activation) ∷ items) (start (new 8 1000 60 0))).written))
      (queued ((link, activation) ∷ items))
run_outbound_task-queued_example =
    run_outbound_task-queued ((link, activation) ∷ items) (new 8 1000 60 0) no_events

run_outbound_task-requested_example :
    Sublist
      (all_commands ((run_outbound_task items open_task).written))
      (all_commands (open_task.written) ++ requested items)
run_outbound_task-requested_example = run_outbound_task-requested items open_task refl no_activation

run_outbound_task-silent_example :
    packets_of ((run_outbound_task items (start (new 8 1000 60 0))).written) ≡ []
run_outbound_task-silent_example = run_outbound_task-silent items (new 8 1000 60 0) no_activation

-- A user whose current session is 1.
abbrev user_of_1 : User
user_of_1 = record {
  binding = record { generation = 3; session = some 1 };
  dangle_mark = none;
  dangle_deadline_ms = 0;
  reconnect_wait_notified = false;
}

abbrev all_alive : ℕ → Bool
all_alive s = true

failed-reconnect_example :
    let r = reconnect all_alive 2 user_of_1 in
    ((failed all_alive r.1 r.0).binding ≡ user_of_1.binding)
    × (is_current all_alive (record { session = 1; generation = 3 }) (failed all_alive r.1 r.0)
        ≡ is_current all_alive (record { session = 1; generation = 3 }) user_of_1)
failed-reconnect_example =
    failed-reconnect all_alive 1 2 user_of_1 (record { session = 1; generation = 3 }) refl refl refl

failed-failed_example :
    let first = reconnect all_alive 2 user_of_1 in
    let second = reconnect all_alive 3 first.0 in
    let last = failed all_alive second.1 (failed all_alive first.1 second.0) in
    (last.binding.session ≡ some 2)
    × (is_current all_alive (record { session = 1; generation = 3 }) last ≡ false)
failed-failed_example =
    failed-failed all_alive 1 2 3 user_of_1 3 (omega arith) (omega arith) refl refl

failed-concurrent_example :
    let first = Binding.take_over (Binding.find_previous all_alive 2 user_of_1) user_of_1 in
    let second = Binding.take_over (Binding.find_previous all_alive 3 user_of_1) first.0 in
    let last = failed all_alive second.1 second.0 in
    (last.binding ≡ user_of_1.binding)
    × (is_current all_alive (record { session = 2; generation = 4 }) last ≡ false)
failed-concurrent_example =
    failed-concurrent all_alive 1 2 3 user_of_1 4 refl (omega arith) refl refl

-- A command that counts, and answers with the old count.
abbrev counting : Job ℕ ℕ
counting = record {
  session_alive = true;
  origin_current = true;
  timing = in_time;
  error_response = none;
  handler = λ n. (7, some n);
}

abbrev prompt_caller : Caller
prompt_caller = record {
  has_mailbox = true;
  enqueued = true;
  reply_in_time = true;
  origin_current = true;
}

abbrev no_error : RouteError → Option ℕ
no_error e = none

stays_open : (route prompt_caller no_error counting 5).2 ≡ false
unfolding route run_or_deadline await_reply
stays_open = refl

route-state_example :
    ((route prompt_caller no_error counting 5).0 ≡ 5)
    ⊎ (((route prompt_caller no_error counting 5).0 ≡ (counting.handler 5).0)
        × ((route prompt_caller no_error counting 5).1 ≡ (counting.handler 5).1))
route-state_example = route-state prompt_caller no_error counting 5 stays_open
