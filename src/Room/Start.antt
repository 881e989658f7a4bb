-- ===== src/Room/Start.antt =====
-- phira-mp-plus-server/src/room_actor/handler.rs: `check_all_ready`, `force_start_playing` and
-- `force_end_playing`, which start and end the rounds of a room.
use phira_mp_plus.Common.{
  ◌+◌, List, [], ◌∷◌, ◌++◌, Bool, true, false, not, ◌||◌, ◌&&◌, Option, none, some, ℤ, pos,
  if◌then◌else◌, length, retain, ltb, leb, ◌*◌,
}
use phira_mp_plus.Wire.Containers.{Uuid}
use phira_mp_plus.Wire.Commands.Message.{Message}
use phira_mp_plus.Room.State.{
  select_chart, wait_for_ready, playing, Actor, Peer, Env, ManagedKind, hosted, reserved, Effect,
  say, tell, game_start_failed, move_to_monitors, bump,
}
use phira_mp_plus.Wire.Commands.RoomData.{Record}
use phira_mp_plus.Room.Ids.{has, has_key, add_id}
use phira_mp_plus.Room.Rounds.{
  ReadyCheckOutcome, waiting, started, start_failed, broadcast_state_change, set_playing_deadline,
  save_round_history, saved_effects, all_peers, find_peer, notify_host, settle, end_round,
}

abbrev pub uuid_or : Uuid → Option Uuid → Uuid
uuid_or fresh none = fresh
uuid_or fresh (some u) = u

-- `CancelReady` for each user of the list who is connected.
unfoldable pub cancel_ready_all : Env → List ℤ → List Effect
cancel_ready_all env [] = []
cancel_ready_all env (uid ∷ ids) =
    let rest = cancel_ready_all env ids in
    elim (find_peer uid (env.peers)) [
      | none ↦ rest
      | some u ↦ tell uid (Message.cancel_ready uid) ∷ rest
    ]

-- The room enters `Playing`.
unfoldable pub enter_playing : Env → List ℤ → Actor → Actor
enter_playing env aborted s = record s {
  state = record (s.state) { lifecycle = playing [] aborted; playing_started_at = some env.now };
}

-- An administrator's start is over.
unfoldable pub finish_admin_start : Bool → Actor → Actor
finish_admin_start admin s =
    if admin
    then record s {
      state = record (s.state) {
        control = record (s.state.control) { admin_start_pending = false };
      };
    }
    else s

-- The state with which the round is opened, which has an id by now.
unfoldable pub name_round : Env → Bool → Actor → Actor
name_round env admin s =
    let counted = record s { state = record (s.state) { ready_countdown_started_at = none } } in
    let admitted = finish_admin_start admin counted in
    record admitted {
      state = record (admitted.state) {
        round_id = some (uuid_or env.fresh_uuid (admitted.state.round_id));
      };
    }

-- The state after `open_round` failed: nobody is ready, and the countdown and the mark of an
-- administrator's start are as they were in `prev`.
unfoldable pub fail_start : Actor → Actor → Actor
fail_start prev s = record s {
  state = record (s.state) {
    lifecycle = wait_for_ready [] false;
    round_id = none;
    control = record (s.state.control) {
      admin_start_pending = prev.state.control.admin_start_pending;
    };
    ready_countdown_started_at = prev.state.ready_countdown_started_at;
  };
}

-- The part of `check_all_ready` that starts a round, from `WaitForReady { started, admin_started }`.
unfoldable pub try_start : Env → List ℤ → Bool → Actor → Actor × (List Effect × ReadyCheckOutcome)
try_start env ready admin s =
    let restored = if admin then notify_host env (s.state.control.host_id) true else [] in
    let opened = name_round env admin s in
    let begun = set_playing_deadline env (enter_playing env [] opened) in
    let failed = fail_start s opened in
    if env.round_opened
    then (begun, (restored ++ say Message.start_playing ∷ broadcast_state_change begun, started))
    else (
      failed,
      (
        restored ++ game_start_failed ∷ broadcast_state_change failed ++ cancel_ready_all env ready,
        start_failed,
      ),
    )

-- `check_all_ready`
unfoldable pub check_all_ready : Env → Actor → Actor × (List Effect × ReadyCheckOutcome)
check_all_ready env s = elim (s.state.lifecycle) [
  | select_chart ↦ (s, ([], waiting))
  | wait_for_ready ready admin ↦
      if admin || all_peers (λ uid. has uid ready) (env.peers)
      then try_start env ready admin s
      else (s, ([], waiting))
  | playing results aborted ↦
      if all_peers (λ uid. has_key uid results || has uid aborted) (env.peers)
      then (let done = settle env s in (done.0, (done.1, waiting)))
      else (s, ([], waiting))
]

abbrev pub is_hosted : Option ManagedKind → Bool
is_hosted (some hosted) = true
is_hosted (some reserved) = false
is_hosted none = false

-- The users who have not said that they are ready.
unfoldable pub unready_peers : List ℤ → List Peer → List ℤ
unready_peers ready [] = []
unready_peers ready (u ∷ us) =
    let rest = unready_peers ready us in if has (u.id) ready then rest else add_id (u.id) rest

unfoldable pub add_monitors : List ℤ → List ℤ → List ℤ
add_monitors [] monitors = monitors
add_monitors (x ∷ xs) monitors =
    add_monitors xs (if has x monitors then monitors else monitors ++ x ∷ [])

unfoldable pub move_all_to_monitors : List ℤ → List Effect
move_all_to_monitors [] = []
move_all_to_monitors (x ∷ xs) = move_to_monitors x ∷ move_all_to_monitors xs

-- In a hosted room the unready users become monitors.
unfoldable pub monitor_unready : Env → List ℤ → Actor → Actor
monitor_unready env unready s =
    if is_hosted env.managed
    then record s {
      state = record (s.state) {
        users = retain (λ x. not (has x unready)) (s.state.users);
        monitors = add_monitors unready (s.state.monitors);
      };
    }
    else s

-- The connections after that.
unfoldable pub remaining : Env → List ℤ → Env
remaining env unready =
    if is_hosted env.managed
    then record env { peers = retain (λ u. not (has (u.id) unready)) (env.peers) }
    else env

-- The state after the opening of a forced round failed.
unfoldable pub fail_force : Actor → Actor
fail_force s = record s {
  state = record (s.state) {
    lifecycle = wait_for_ready [] false;
    round_id = none;
    ready_countdown_started_at = none;
  };
}

unfoldable pub name_forced : Env → Option Uuid → Actor → Actor
name_forced env named s = record s {
  state = record (s.state) { round_id = some (uuid_or env.fresh_uuid named) };
}

unfoldable pub open_forced : Env → List ℤ → Bool → Actor → Actor
open_forced env unready admin s =
    name_forced env (s.state.round_id) (finish_admin_start admin (monitor_unready env unready s))

-- The start of a forced round: where the room is not hosted, the unready players abort.
unfoldable pub begin_forced : Env → List ℤ → Actor → Actor
begin_forced env unready s =
    let entered = enter_playing env (if is_hosted env.managed then [] else unready) s in
    if ltb 0 env.timeout_offset then set_playing_deadline env entered else entered

-- `force_start_playing` from `WaitForReady { started: ready, admin_started: admin }`, with enough players.
unfoldable pub force_open : Env → List ℤ → Bool → Actor → Actor × List Effect
force_open env ready admin s =
    let unready = unready_peers ready env.peers in
    let env' = remaining env unready in
    let told =
      (if is_hosted env.managed then move_all_to_monitors unready else [])
      ++ (if admin then notify_host env' (s.state.control.host_id) true else []) in
    let opened = open_forced env unready admin s in
    let begun = begin_forced env unready opened in
    let failed = fail_force opened in
    if env.round_opened
    then (begun, told ++ say Message.start_playing ∷ broadcast_state_change begun)
    else (
      failed,
      told ++ game_start_failed ∷ broadcast_state_change failed ++ cancel_ready_all env' ready,
    )

-- `force_start_playing`
unfoldable pub force_start_playing : Env → Actor → Actor × List Effect
force_start_playing env s = elim (s.state.lifecycle) [
  | wait_for_ready ready admin ↦
      let bumped = bump s in
      let counted = record bumped {
        state = record (bumped.state) { ready_countdown_started_at = none };
      } in
      let cancelled = record counted {
        state = record (counted.state) { lifecycle = select_chart };
      } in
      if is_hosted env.managed && ltb (length ready) 2
      then (cancelled, say (Message.cancel_game (pos 0)) ∷ broadcast_state_change cancelled)
      else force_open env ready admin counted
  | _ ↦ (s, [])
]

-- The players without a result abort.
unfoldable pub abort_unfinished : List Peer → List (ℤ × Record) → List ℤ → List ℤ
abort_unfinished [] results aborted = aborted
abort_unfinished (u ∷ us) results aborted =
    abort_unfinished us results (if has_key (u.id) results then aborted else add_id (u.id) aborted)

-- `force_end_playing`
unfoldable pub force_end_playing : Env → Actor → Actor × List Effect
force_end_playing env s = elim (s.state.lifecycle) [
  | playing results aborted ↦
      let bumped = bump s in
      let everyone = abort_unfinished env.peers results aborted in
      let marked = record bumped {
        state = record (bumped.state) { lifecycle = playing results everyone };
      } in
      let saved = save_round_history env [] marked in
      let ended = end_round marked in
      if all_peers (λ uid. has_key uid results || has uid everyone) env.peers
      then (ended, saved_effects env saved ++ say Message.game_end ∷ broadcast_state_change ended)
      else (marked, [])
  | _ ↦ (s, [])
]

-- The mailbox's check of the ready countdown, which lasts at least ten seconds.
unfoldable pub ready_timeout : Env → Actor → Actor × List Effect
ready_timeout env s = if s.state.control.tournament then (s, []) else (elim (s.state.lifecycle) [
  | wait_for_ready ready admin ↦ (elim (s.state.ready_countdown_started_at) [
    | none ↦ (s, [])
    | some started_at ↦
        let secs = if ltb env.ready_countdown_secs 10 then 10 else env.ready_countdown_secs in
        if leb (started_at + secs * 1000) env.now then force_start_playing env s else (s, [])
  ])
  | _ ↦ (s, [])
])

-- The mailbox's check of the deadline of a round.
unfoldable pub playing_timeout : Env → Actor → Actor × List Effect
playing_timeout env s = elim (s.state.lifecycle) [
  | playing results aborted ↦ (elim (s.state.playing_timeout_deadline) [
    | none ↦ (s, [])
    | some deadline ↦
        if leb deadline env.now
        then force_end_playing env
            (record s { state = record (s.state) { playing_timeout_deadline = none } })
        else (s, [])
  ])
  | _ ↦ (s, [])
]
