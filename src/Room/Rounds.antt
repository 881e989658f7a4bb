-- ===== src/Room/Rounds.antt =====
-- phira-mp-plus-server/src/room_actor/handler.rs: how a round starts and how it is settled
-- (`save_round_history`, `set_playing_deadline`, `check_all_ready`). The iteration of a `HashMap` or a
-- `HashSet` goes in the order of the list that stands for it. What is only told to plugins, to the event
-- bus, to the log and to the managed room's service is left out, as is `reset_game_time`, which belongs
-- to the connections.
use phira_mp_plus.Common.{
  ℕ, suc, zero, ◌+◌, ◌/◌, ◌%◌, List, [], ◌∷◌, ◌++◌, Bool, true, false, not, ◌&&◌, Option, none,
  some, ℤ, pos, negsuc, beq_ℤ, if◌then◌else◌, ltb, ◌==◌, get_elem?, length,
}
use phira_mp_plus.Wire.Text.{Text}
use phira_mp_plus.Wire.Containers.{Uuid}
use phira_mp_plus.Wire.Commands.Message.{Message}
use phira_mp_plus.Wire.Commands.RoomData.{PartialRoomData, Record, RoomEvent}
use phira_mp_plus.Room.State.{
  select_chart, playing, to_client, stripped, Actor, Peer, Env, pending_admission, wal_admitted,
  PlayResult, PlayRound, Effect, say, change_state, tell_host, publish_update, room_event,
  push_history, show_ranking,
}
use phira_mp_plus.Room.Ids.{has_key, lookup, set_key}

-- `ReadyCheckOutcome`
pub data ReadyCheckOutcome : Type 0 where
  waiting started start_failed : ReadyCheckOutcome

-- `PartialRoomData` with its default fields.
abbrev pub no_update : PartialRoomData
no_update = record { host = none; lock = none; cycle = none; chart = none; state = none }

-- `broadcast_state_change`
unfoldable pub broadcast_state_change : Actor → List Effect
broadcast_state_change s =
    change_state (to_client (s.state.lifecycle) (s.state.chart))
    ∷ publish_update (record no_update { state = some (stripped (s.state.lifecycle)) })
    ∷ []

-- `set_playing_deadline`
unfoldable pub set_playing_deadline : Env → Actor → Actor
set_playing_deadline env s =
    if env.timeout_offset == 0
    then record s { state = record (s.state) { playing_timeout_deadline = none } }
    else record s {
      state = record (s.state) {
        playing_timeout_deadline =
            some (env.now + env.timeout_ms (s.state.chart_duration) (env.timeout_offset));
      };
    }

-- `format!("{}", uid)`; ten digits are enough for an `i32`.
abbrev decimal : ℕ → ℕ → Text
decimal zero n = []
decimal (suc fuel) n =
    let high = decimal fuel (n / 10) in (if ltb n 10 then [] else high) ++ (48 + n % 10) ∷ []

abbrev pub show_id : ℤ → Text
show_id (pos n) = decimal 10 n
show_id (negsuc n) = 45 ∷ decimal 10 (n + 1)

-- The `users_map` of `save_round_history`.
unfoldable pub user_names : List (ℤ × Text) → List Peer → List (ℤ × Text) → List (ℤ × Text)
user_names display_names [] m = m
user_names display_names (u ∷ us) m =
    user_names display_names us
      (set_key (u.id) (elim (lookup (u.id) display_names) [ some n ↦ n | none ↦ u.name ]) m)

unfoldable pub name_of : List (ℤ × Text) → ℤ → Text
name_of names uid = elim (lookup uid names) [ some n ↦ n | none ↦ show_id uid ]

unfoldable pub play_results : List (ℤ × Text) → List (ℤ × Record) → List PlayResult
play_results names [] = []
play_results names ((uid, rec) ∷ results) =
    record {
      user_id = uid;
      user_name = name_of names uid;
      record_id = rec.id;
      score = rec.score;
      accuracy = rec.accuracy;
      perfect = rec.perfect;
      good = rec.good;
      bad = rec.bad;
      miss = rec.miss;
      max_combo = rec.max_combo;
      full_combo = rec.full_combo;
      aborted = false;
      std = rec.std;
      std_score = rec.std_score;
    }
    ∷ play_results names results

unfoldable pub abort_results : List (ℤ × Text) → List (ℤ × Record) → List ℤ → List PlayResult
abort_results names results [] = []
abort_results names results (uid ∷ aborted) =
    let rest = abort_results names results aborted in
    if not (has_key uid results)
    then record {
      user_id = uid;
      user_name = name_of names uid;
      record_id = pos 0;
      score = pos 0;
      accuracy = 0;
      perfect = pos 0;
      good = pos 0;
      bad = pos 0;
      miss = pos 0;
      max_combo = pos 0;
      full_combo = false;
      aborted = true;
      std = 0;
      std_score = 0;
    }
      ∷ rest
    else rest

-- The `None` of a chart's name reads `?`, that of a round's id the nil `Uuid`.
abbrev name_or_question_mark : Option Text → Text
name_or_question_mark none = 63 ∷ []
name_or_question_mark (some n) = n

abbrev round_id_or_nil : Option Uuid → Uuid
round_id_or_nil none = record { high = 0; low = 0 }
round_id_or_nil (some u) = u

-- `save_round_history`; the round goes into the play history if there is one.
unfoldable pub save_round_history : Env → List (ℤ × Text) → Actor → Option PlayRound
save_round_history env display_names s = elim (s.state.lifecycle) [
  | playing results aborted ↦ elim (s.state.chart) [
    | none ↦ none
    | some cid ↦
        let names = user_names display_names (env.peers) [] in
        some (record {
          round_id = round_id_or_nil (s.state.round_id);
          chart_id = cid;
          chart_name = name_or_question_mark (s.state.chart_name);
          results = play_results names results ++ abort_results names results aborted;
          persistence_status = if env.round_enqueued then wal_admitted else pending_admission;
        })
  ]
  | _ ↦ none
]

-- `protocol_round` of room.rs
unfoldable pub protocol_records : List PlayResult → List Record
protocol_records [] = []
protocol_records (r ∷ rs) =
    record {
      id = pos 0;
      player = r.user_id;
      score = r.score;
      perfect = r.perfect;
      good = r.good;
      bad = r.bad;
      miss = r.miss;
      max_combo = r.max_combo;
      accuracy = r.accuracy;
      full_combo = r.full_combo;
      std = r.std;
      std_score = r.std_score;
    }
    ∷ protocol_records rs

-- What follows a saved round: it is in the history and the room's monitors are told.
unfoldable pub saved_effects : Env → Option PlayRound → List Effect
saved_effects env none = []
saved_effects env (some round) =
    push_history round
    ∷ room_event (
        RoomEvent.start_round (env.room_id)
          (record { chart = round.chart_id; records = protocol_records (round.results) }))
    ∷ []

unfoldable pub all_peers : (ℤ → Bool) → List Peer → Bool
all_peers p [] = true
all_peers p (u ∷ us) = let rest = all_peers p us in p (u.id) && rest

unfoldable pub find_peer : ℤ → List Peer → Option Peer
find_peer x [] = none
find_peer x (u ∷ us) = let rest = find_peer x us in if beq_ℤ (u.id) x then some u else rest

-- `lc.users().find(|u| host_id == Some(u.id))`, who is sent `ChangeHost`.
unfoldable pub notify_host : Env → Option ℤ → Bool → List Effect
notify_host env none host = []
notify_host env (some h) host = elim (find_peer h (env.peers)) [
  | none ↦ []
  | some u ↦ tell_host (u.id) host ∷ []
]

-- `position(|it| Some(it.id) == host_id)`
unfoldable pub position : Option ℤ → List Peer → Option ℕ
position host [] = none
position host (u ∷ us) =
    let rest = position host us in
    if (elim host [ none ↦ false | some h ↦ beq_ℤ (u.id) h ])
    then some 0
    else elim rest [ none ↦ none | some n ↦ some (suc n) ]

unfoldable pub next_host : Option ℤ → List Peer → Option Peer
next_host host [] = none
next_host host (u ∷ us) =
    let users = u ∷ us in
    get_elem? users (elim (position host users) [ none ↦ 0 | some i ↦ (i + 1) % length users ])

-- The change of the host after a round of a cycling room.
unfoldable pub cycle_host : Env → Actor → Actor × List Effect
cycle_host env s = elim (next_host (s.state.control.host_id) (env.peers)) [
  | none ↦ (s, [])
  | some u ↦ (
    record s {
      state = record (s.state) {
        control = record (s.state.control) { host_id = some (u.id); system_host = false };
      };
    },
    say (Message.new_host (u.id)) ∷ notify_host env (s.state.control.host_id) false
        ++ tell_host (u.id) true ∷ publish_update (record no_update { host = some (u.id) }) ∷ [],
  )
]

-- The fields that the end of a round resets.
unfoldable pub end_round : Actor → Actor
end_round s = record s {
  state = record (s.state) {
    round_id = none;
    ready_countdown_started_at = none;
    playing_timeout_deadline = none;
    chart_duration = none;
    playing_started_at = none;
    progress_subscribers = [];
    lifecycle = select_chart;
  };
}

-- The end of a round in which everyone has a result or has aborted.
unfoldable pub settle : Env → Actor → Actor × List Effect
settle env s =
    let saved = save_round_history env (s.display_names) s in
    let ranking =
      if s.state.control.tournament
      then []
      else (elim saved [ none ↦ [] | some round ↦ show_ranking round ∷ [] ]) in
    let ended = end_round s in
    let cycled =
      if s.state.control.cycle
        && not (s.state.control.system_host)
        && not (s.state.control.tournament)
      then cycle_host env ended
      else (ended, []) in
    (
      cycled.0,
      saved_effects env saved
          ++ ranking
          ++ say Message.game_end ∷ cycled.1
          ++ broadcast_state_change (cycled.0),
    )
