-- ===== src/Tests/Rooms.antt =====
-- The theorems on phira-mp-plus-server/src/room_actor at concrete rooms.
use phira_mp_plus.Common.{
  ℕ, ◌*◌, ◌≡◌, refl, [], ◌∷◌, Bool, true, false, Option, none, some, ℤ, pos, arith, err, beq_ℤ_iff,
}
use phira_mp_plus.Wire.Commands.RoomData.{Record}
use mathlib.Core.Option
use phira_mp_plus.Room.History.{outcomes, expected_outcomes, players, save_round_history-outcomes}
use phira_mp_plus.Room.State.{
  Actor, Env, Control, Lifecycle, select_chart, wait_for_ready, playing, PlayRound, bump,
}
use phira_mp_plus.Room.Ids.{has, has_key, add_id, set_key, IsDistinct}
use phira_mp_plus.Room.Answer.{guarded, origin_stale, deadline_elapsed}
use phira_mp_plus.Room.Rounds.{
  set_playing_deadline, settle, end_round, cycle_host, next_host, position, all_peers,
  save_round_history, find_peer,
}
use phira_mp_plus.Room.Start.{
  try_start, fail_start, name_round, finish_admin_start, enter_playing, check_all_ready,
  force_end_playing,
}
use phira_mp_plus.Room.Play.{
  late_result, start_room, set_ready, submit_result, commit_result, enter_waiting, extend_deadline,
}
use phira_mp_plus.Room.Commands.{Command, execute}
use phira_mp_plus.Room.WellFormed.{IsWellFormed, IsRound, is_playing}
use phira_mp_plus.Room.WellFormed.Reachable.{Reachable, here, next, Reachable-IsWellFormed}
use phira_mp_plus.Room.WellFormed.Timeouts.{force_end_playing-ends}
use phira_mp_plus.Room.Sequence.{IsAnnounced, execute-IsAnnounced}
use phira_mp_plus.Room.Opening.{execute-opened}
use phira_mp_plus.Room.Refusals.{is_done, late_result-is_done}
use phira_mp_plus.Room.Stuck.{IsStuck, execute-IsStuck}
use phira_mp_plus.Room.Capacity.{IsWithinCapacity, execute-IsWithinCapacity}
use phira_mp_plus.Room.Departure.{remove_user, find_member}
use phira_mp_plus.Room.Leaving.{IsGone, stays_host, remove_user-IsGone}
use phira_mp_plus.Room.LiveData.{TouchEventPoint, PlayerLiveData}

-- Two players, a round store that answers as asked, and a clock.
abbrev env_of : Bool → Bool → ℕ → Env
env_of late opened now = record {
  room_id = [];
  peers = record { id = pos 1; name = [] } ∷ record { id = pos 2; name = [] } ∷ [];
  watchers = [];
  binding = λ _. none;
  now = now;
  late = late;
  round_opened = opened;
  round_enqueued = true;
  managed = none;
  admits = λ _. true;
  managed_max_users = 0;
  fresh_uuid = record { high = 7; low = 7 };
  ready_countdown_secs = 60;
  timeout_offset = 30;
  timeout_ms = λ _ offset. 1000 * offset;
}

abbrev control0 : Control
control0 = record {
  host_id = some (pos 1);
  locked = false;
  cycle = true;
  hidden = false;
  persistent_empty = false;
  system_host = false;
  phira_api_endpoint = none;
  admin_start_pending = false;
  max_users = 8;
  tournament = false;
}

-- A room of the two, with a chart.
abbrev room_in : Lifecycle → Option ℕ → Actor
room_in l started_at = record {
  state = record {
    control = control0;
    lifecycle = l;
    users = pos 1 ∷ pos 2 ∷ [];
    monitors = [];
    chart = some (pos 99);
    chart_name = none;
    round_id = none;
    live = false;
    degraded = false;
    ready_countdown_started_at = none;
    playing_timeout_deadline = none;
    chart_duration = none;
    playing_started_at = started_at;
    progress_subscribers = [];
    room_event_seq = 0;
  };
  display_names = [];
}

abbrev record_of : ℤ → ℤ → Record
record_of player score = record {
  id = pos 0;
  player = player;
  score = score;
  perfect = pos 1;
  good = pos 0;
  bad = pos 0;
  miss = pos 0;
  max_combo = pos 1;
  accuracy = 0;
  full_combo = true;
  std = 0;
  std_score = 0;
}

abbrev quiet : Actor
quiet = room_in select_chart none

abbrev run : Env → Command → Actor → Actor
run env c s = (execute env c s).actor

abbrev host_starts : Command
host_starts = Command.host_start (pos 1) none

abbrev other_ready : Command
other_ready = Command.set_ready (pos 2) none

abbrev result_of : ℤ → ℤ → Command
result_of uid score = Command.submit_result (record_of uid score) none

-- A round from the host's start to both results.
abbrev after_round : Actor
after_round = run (env_of false true 4) (result_of (pos 2) (pos 900)) (
    run (env_of false true 3) (result_of (pos 1) (pos 800))
      (run (env_of false true 2) other_ready (run (env_of false true 1) host_starts quiet)))

round_run : Reachable quiet after_round
round_run = next (env_of false true 4) (result_of (pos 2) (pos 900)) (
    next (env_of false true 3) (result_of (pos 1) (pos 800))
      (next (env_of false true 2) other_ready (next (env_of false true 1) host_starts here)))

quiet-IsWellFormed : IsWellFormed quiet
unfolding IsWellFormed
quiet-IsWellFormed = (tt, refl, λ _. refl)

Reachable-IsWellFormed_example : IsWellFormed after_round
Reachable-IsWellFormed_example = Reachable-IsWellFormed round_run quiet-IsWellFormed

execute-IsAnnounced_example : IsAnnounced quiet (run (env_of false true 1) host_starts quiet)
execute-IsAnnounced_example = execute-IsAnnounced (env_of false true 1) host_starts quiet

-- The first player is ready, the second is not.
abbrev one_ready : Actor
one_ready = room_in (wait_for_ready (pos 1 ∷ []) false) none

execute-opened_example :
    is_playing ((run (env_of false false 1) other_ready one_ready).state.lifecycle) ≡ false
execute-opened_example = execute-opened (env_of false false 1) other_ready one_ready refl refl

-- The round is played, and the first player has a result.
abbrev one_result : Actor
one_result = room_in (playing ((pos 1, record_of (pos 1) (pos 800)) ∷ []) []) (some 2)

late_result-is_done_example :
    (is_done (pos 2) ((late_result (env_of true true 9) (pos 2) one_result).actor.state.lifecycle)
      ≡ true)
    × ((late_result (env_of true true 9) (pos 2) one_result).answer ≡ err deadline_elapsed)
late_result-is_done_example = late_result-is_done (env_of true true 9) (pos 2) one_result

force_end_playing-ends_example :
    is_playing ((force_end_playing (env_of false true 9) one_result).0.state.lifecycle) ≡ false
force_end_playing-ends_example = force_end_playing-ends (env_of false true 9) one_result

-- The first player has a result, the second has aborted.
abbrev both_done : Actor
both_done = room_in (playing ((pos 1, record_of (pos 1) (pos 800)) ∷ []) (pos 2 ∷ [])) (some 2)

both_done_saved : (r : PlayRound) × (save_round_history (env_of false true 9) [] both_done ≡ some r)
unfolding save_round_history
both_done_saved = (_, refl)

both_done-IsRound : IsRound (both_done.state.lifecycle)
unfolding has has_key
both_done-IsRound = (
  (refl, tt),
  ((refl, tt), λ uid e. ground (arith, e, beq_ℤ_iff (pos 1) uid, beq_ℤ_iff (pos 2) uid)),
)

-- An administrator starts the room, the round store fails, and the players get ready and play all the same.
abbrev after_failed_start : Actor
after_failed_start = run (env_of false true 6) (result_of (pos 2) (pos 900)) (
    run (env_of false true 5) (result_of (pos 1) (pos 800)) (
      run (env_of false true 4) other_ready (
        run (env_of false true 3) (Command.set_ready (pos 1) none)
          (run (env_of false false 1) Command.start_room quiet))))

after_failed_start-IsStuck : IsStuck after_failed_start
unfolding IsStuck execute start_room set_ready submit_result commit_result guarded origin_stale bump
    enter_waiting extend_deadline check_all_ready try_start fail_start name_round finish_admin_start
    enter_playing set_playing_deadline settle end_round cycle_host all_peers has has_key add_id
    set_key next_host position
after_failed_start-IsStuck = (refl, refl)

execute-IsStuck_example : IsStuck (run (env_of false true 7) host_starts after_failed_start)
execute-IsStuck_example =
    execute-IsStuck (env_of false true 7) host_starts after_failed_start after_failed_start-IsStuck

abbrev touch_at : ℕ → TouchEventPoint
touch_at t = record { time = t; finger = pos 0; x = 0; y = 0 }

abbrev live : PlayerLiveData
live = record { touches = touch_at 1 ∷ []; judges = [] }

none_aborted : has (pos 1) [] ≡ false
unfolding has
none_aborted = refl

first_result : has_key (pos 1) ((pos 1, record_of (pos 1) (pos 800)) ∷ []) ≡ true
unfolding has_key
first_result = refl

-- One player has a result, the other has aborted.
abbrev half_done : Actor
half_done = room_in (playing ((pos 1, record_of (pos 1) (pos 800)) ∷ []) (pos 2 ∷ [])) (some 2)

half_done-IsWellFormed : IsWellFormed half_done
unfolding IsWellFormed has has_key
half_done-IsWellFormed = (
  (
    (refl, tt),
    ((refl, tt), (λ uid e. ground (arith, e, beq_ℤ_iff (pos 1) uid, beq_ℤ_iff (pos 2) uid))),
  ),
  refl,
  (λ e. cc),
)

save_round_history-outcomes_example :
    (Option.map
        (λ (round : PlayRound). outcomes (round.results))
        (save_round_history (env_of false true 9) [] half_done)
      ≡ some (expected_outcomes ((pos 1, record_of (pos 1) (pos 800)) ∷ []) (pos 2 ∷ [])))
    × IsDistinct
        (players (expected_outcomes ((pos 1, record_of (pos 1) (pos 800)) ∷ []) (pos 2 ∷ [])))
save_round_history-outcomes_example =
    save_round_history-outcomes (env_of false true 9) [] half_done
      ((pos 1, record_of (pos 1) (pos 800)) ∷ []) (pos 2 ∷ []) (pos 99) refl refl
      half_done-IsWellFormed

abbrev third_joins : Command
third_joins = Command.add_user (pos 3) false none

execute-IsWithinCapacity_example : IsWithinCapacity (run (env_of false true 1) third_joins quiet)
execute-IsWithinCapacity_example =
    execute-IsWithinCapacity (env_of false true 1) third_joins quiet refl (omega arith)

-- The host leaves a room whose other player is ready.
abbrev host_leaves : Actor
host_leaves =
    (remove_user (env_of false true 1) (pos 1) false none
      (room_in (wait_for_ready (pos 2 ∷ []) false) none)).actor

session_unknown : origin_stale (env_of false true 1) none (pos 1) ≡ false
unfolding origin_stale
session_unknown = refl

first_member : find_member (pos 1) (env_of false true 1) ≡ some (record { id = pos 1; name = [] })
unfolding find_member find_peer
first_member = refl

remove_user-IsGone_example :
    IsGone (pos 1) host_leaves
    × (stays_host
          (env_of false true 1)
          (pos 1)
          false
          (room_in (wait_for_ready (pos 2 ∷ []) false) none)
          host_leaves
        ≡ false)
remove_user-IsGone_example =
    remove_user-IsGone (env_of false true 1) (pos 1) false none
      (room_in (wait_for_ready (pos 2 ∷ []) false) none) (record { id = pos 1; name = [] })
      first_member refl session_unknown
