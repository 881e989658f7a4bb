-- ===== src/Room/Play.antt =====
-- phira-mp-plus-server/src/room_actor/handler.rs, `execute_with_actor`: the commands of a round, from the
-- host's start to the players' results. The notice that a room waits for a player to reconnect is left out.
use phira_mp_plus.Common.{
  ◌+◌, ◌*◌, ◌==◌, List, [], ◌∷◌, ◌++◌, Bool, true, false, not, ◌||◌, ◌&&◌, Option, none, some, ℤ,
  pos, beq_ℤ, Result, ok, err, if◌then◌else◌, ltb, length,
}
use phira_mp_plus.Wire.Commands.Message.{Message}
use phira_mp_plus.Wire.Commands.RoomData.{Record, RoomEvent}
use phira_mp_plus.Room.State.{
  Lifecycle, select_chart, wait_for_ready, playing, Actor, Env, ManagedKind, hosted, reserved,
  Effect, say, room_event, admin_started_game, bump,
}
use phira_mp_plus.Room.Ids.{has, has_key, add_id, remove_id, set_key}
use phira_mp_plus.Room.Rounds.{
  ReadyCheckOutcome, waiting, started, start_failed, broadcast_state_change, notify_host,
}
use phira_mp_plus.Room.Start.{check_all_ready, is_hosted}
use phira_mp_plus.Room.Answer.{
  Origin, Refusal, deadline_elapsed, stale_origin, already_ready, not_ready, round_start_failed,
  user_aborted, already_uploaded, already_aborted, not_playing, reserved_room, not_selecting_chart,
  admin_start_in_progress, no_chart, Payload, room_started, host_started, user_ready,
  user_not_ready, round_aborted, result_submitted, cancel_result, Step, refuse, origin_stale,
  guarded,
}

abbrev pub with_lifecycle : Actor → Lifecycle → Actor
with_lifecycle s l = record s { state = record (s.state) { lifecycle = l } }

abbrev pub is_host : Actor → ℤ → Bool
is_host s uid = elim (s.state.control.host_id) [ none ↦ false | some h ↦ beq_ℤ h uid ]

-- The answer of a command that ends with `check_all_ready`.
abbrev after_check :
    Actor × (List Effect × ReadyCheckOutcome) → List Effect → Result Refusal Payload → Step
after_check checked sent a = record { actor = checked.0; effects = sent ++ checked.1.0; answer = a }

abbrev start_answer : ReadyCheckOutcome → Payload → Result Refusal Payload
start_answer waiting p = ok p
start_answer started p = ok p
start_answer start_failed p = err round_start_failed

-- `SetReady`
unfoldable pub set_ready : Env → ℤ → Origin → Actor → Step
set_ready env uid origin s = guarded env origin uid s (elim (s.state.lifecycle) [
  | wait_for_ready ready admin ↦
      if has uid ready
      then refuse already_ready (bump s)
      else (let checked =
            check_all_ready env
              (with_lifecycle (bump s) (wait_for_ready (add_id uid ready) admin)) in
          after_check checked (say (Message.ready uid) ∷ [])
            (start_answer (checked.1.1) (user_ready uid)))
  | _ ↦ record { actor = bump s; effects = []; answer = ok (user_ready uid) }
])

-- The room goes back to the choice of a chart.
abbrev pub cancelled_game : Actor → Actor
cancelled_game s = record s {
  state = record (s.state) {
    control = record (s.state.control) { admin_start_pending = false };
    ready_countdown_started_at = none;
    lifecycle = select_chart;
    round_id = none;
  };
}

-- `CancelReady`
unfoldable pub cancel_ready : Env → ℤ → Origin → Actor → Step
cancel_ready env uid origin s = guarded env origin uid s (elim (s.state.lifecycle) [
  | wait_for_ready ready admin ↦
      if not (has uid ready)
      then refuse not_ready (bump s)
      else if is_host s uid
      then (let cancelled = cancelled_game (bump s) in
          record {
            actor = cancelled;
            effects =
                say (Message.cancel_game uid) ∷ broadcast_state_change cancelled
                ++ (if admin then notify_host env (s.state.control.host_id) true else []);
            answer = ok (user_not_ready uid);
          })
      else record {
        actor = with_lifecycle (bump s) (wait_for_ready (remove_id uid ready) admin);
        effects = say (Message.cancel_ready uid) ∷ [];
        answer = ok (user_not_ready uid);
      }
  | _ ↦ record { actor = bump s; effects = []; answer = ok (user_not_ready uid) }
])

-- The first result of several players gives the others more time.
unfoldable pub extend_deadline : Env → List (ℤ × Record) → Actor → Actor
extend_deadline env results s =
    if (length results == 1) && ltb 1 (length env.peers) && ltb 0 (env.timeout_offset)
    then record s {
      state = record (s.state) {
        playing_timeout_deadline = elim (s.state.playing_timeout_deadline) [
          | none ↦ none
          | some d ↦ some (d + env.timeout_offset * 1000)
        ];
      };
    }
    else s

-- `SubmitResult` after its deadline: a player without a result aborts.
unfoldable pub late_result : Env → ℤ → Actor → Step
late_result env uid s = elim (s.state.lifecycle) [
  | playing results aborted ↦
      if has_key uid results || has uid aborted
      then refuse deadline_elapsed s
      else (let checked =
            check_all_ready env (bump (with_lifecycle s (playing results (add_id uid aborted)))) in
          after_check checked (say (Message.abort uid) ∷ []) (err deadline_elapsed))
  | _ ↦ refuse deadline_elapsed s
]

abbrev played : Record → Message
played r =
    Message.played (r.player) (r.score) (r.accuracy) (r.full_combo) (r.perfect) (r.good) (r.bad)
      (r.miss) (r.max_combo)

-- `SubmitResult` in time. An earlier result of the player is replaced before the command is refused.
unfoldable pub commit_result : Env → Record → Actor → Step
commit_result env r s = elim (s.state.lifecycle) [
  | playing results aborted ↦
      if has (r.player) aborted
      then refuse user_aborted (bump s)
      else (let entered = set_key (r.player) r results in
          let kept = with_lifecycle (bump s) (playing entered aborted) in
          if has_key (r.player) results
          then refuse already_uploaded kept
          else (let checked = check_all_ready env (extend_deadline env entered kept) in
              after_check checked
                (room_event (RoomEvent.player_score (env.room_id) r) ∷ say (played r) ∷ [])
                (ok (result_submitted (r.player) (r.score)))))
  | _ ↦ refuse not_playing (bump s)
]

-- `SubmitResult`
unfoldable pub submit_result : Env → Record → Origin → Actor → Step
submit_result env r origin s =
    if env.late
    then late_result env (r.player) s
    else if origin_stale env origin (r.player)
    then refuse stale_origin s
    else commit_result env r s

-- `AbortRound`
unfoldable pub abort_round : Env → ℤ → Origin → Actor → Step
abort_round env uid origin s = guarded env origin uid s (elim (s.state.lifecycle) [
  | playing results aborted ↦
      if has_key uid results
      then refuse already_uploaded (bump s)
      else if has uid aborted
      then refuse already_aborted (bump s)
      else (let checked =
            check_all_ready env (with_lifecycle (bump s) (playing results (add_id uid aborted))) in
          after_check checked (say (Message.abort uid) ∷ []) (ok (round_aborted uid)))
  | _ ↦ refuse not_playing (bump s)
])

abbrev pub is_selecting : Lifecycle → Bool
is_selecting select_chart = true
is_selecting (wait_for_ready ready admin) = false
is_selecting (playing results aborted) = false

abbrev pub is_none {ℓ} : {A : Type ℓ} → Option A → Bool
is_none none = true
is_none (some a) = false

-- `WaitForReady` with its countdown, announced.
unfoldable pub enter_waiting : Env → List ℤ → Bool → Actor → Actor
enter_waiting env ready admin s = record s {
  state = record (s.state) {
    lifecycle = wait_for_ready ready admin;
    ready_countdown_started_at = some env.now;
  };
}

abbrev pub is_reserved : Option ManagedKind → Bool
is_reserved none = false
is_reserved (some hosted) = false
is_reserved (some reserved) = true

-- `HostStart`
unfoldable pub host_start : Env → ℤ → Origin → Actor → Step
host_start env uid origin s =
    if is_reserved env.managed
    then refuse reserved_room s
    else if not (is_selecting (s.state.lifecycle))
    then refuse not_selecting_chart s
    else if s.state.control.admin_start_pending
    then refuse admin_start_in_progress s
    else if is_none (s.state.chart)
    then refuse no_chart s
    else guarded env origin uid s (
        let entered = enter_waiting env (uid ∷ []) false (bump s) in
        let named =
          if is_hosted env.managed
          then record entered { state = record (entered.state) { round_id = some env.fresh_uuid } }
          else entered in
        let checked = check_all_ready env named in
        after_check checked (say (Message.game_start uid) ∷ broadcast_state_change named)
          (start_answer (checked.1.1) host_started))

-- `StartRoom`
unfoldable pub start_room : Env → Actor → Step
start_room env s =
    if s.state.control.admin_start_pending
    then refuse admin_start_in_progress s
    else if not (is_selecting (s.state.lifecycle))
    then refuse not_selecting_chart s
    else if is_none (s.state.chart)
    then refuse no_chart s
    else (let bumped = bump s in
        let pending = record bumped {
          state = record (bumped.state) {
            control = record (bumped.state.control) { admin_start_pending = true };
          };
        } in
        let entered = enter_waiting env [] true pending in
        let checked = check_all_ready env entered in
        after_check checked
          (broadcast_state_change pending
            ++ notify_host env (s.state.control.host_id) false
            ++ say (Message.game_start (pos 0))
              ∷ admin_started_game
              ∷ broadcast_state_change entered)
          (ok room_started))

-- `EnterReadyPhase`
unfoldable pub enter_ready_phase : Env → Actor → Step
enter_ready_phase env s =
    if not (is_selecting (s.state.lifecycle))
    then refuse not_selecting_chart s
    else if s.state.control.admin_start_pending
    then refuse admin_start_in_progress s
    else if is_none (s.state.chart)
    then refuse no_chart s
    else (let ready : List ℤ = elim (s.state.control.host_id) [ none ↦ [] | some h ↦ h ∷ [] ] in
        let told : List Effect = elim (s.state.control.host_id) [
          | none ↦ []
          | some h ↦ say (Message.ready h) ∷ []
        ] in
        let entered = enter_waiting env ready false (bump s) in
        record {
          actor = entered;
          effects = say (Message.game_start (pos 0)) ∷ told ++ broadcast_state_change entered;
          answer = ok room_started;
        })

-- `CancelStart`
unfoldable pub cancel_start : Env → Actor → Step
cancel_start env s = elim (s.state.lifecycle) [
  | wait_for_ready ready admin ↦
      let cancelled = cancelled_game (bump s) in
      record {
        actor = cancelled;
        effects =
            (if admin then notify_host env (s.state.control.host_id) true else [])
            ++ say (Message.cancel_game (pos 0)) ∷ broadcast_state_change cancelled;
        answer = ok (cancel_result true);
      }
  | _ ↦ record { actor = s; effects = []; answer = ok (cancel_result false) }
]
