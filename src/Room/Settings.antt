-- ===== src/Room/Settings.antt =====
-- phira-mp-plus-server/src/room_actor/handler.rs, `execute_with_actor`: the commands that set one property
-- of a room.
use phira_mp_plus.Common.{
  ℕ, List, [], ◌∷◌, beq_ℤ, ◌++◌, Bool, true, false, not, ◌||◌, ◌&&◌, Option, none, some, ℤ, pos,
  negsuc, ok, if◌then◌else◌, ltb, leb, length,
}
use phira_mp_plus.Wire.Text.{Text}
use phira_mp_plus.Wire.Commands.Message.{Message}
use phira_mp_plus.Wire.Commands.RoomData.{StrippedRoomState}
use phira_mp_plus.Room.State.{
  Control, Actor, Env, Effect, say, publish_update, host_transferred, user_became_host,
  host_set_to_system, bump,
}
use phira_mp_plus.Room.Ids.{set_key, lookup}
use phira_mp_plus.Room.Rounds.{broadcast_state_change, no_update, find_peer, notify_host, show_id}
use phira_mp_plus.Room.Play.{is_selecting, is_reserved, is_none}
use phira_mp_plus.Room.Answer.{
  Origin, chart_outside_select_chart, invalid_capacity, capacity_below_users, empty,
  chart_duration_set, chart_selected, managed_chart, endpoint_changed, display_name_set,
  lock_changed, cycle_changed, hidden_changed, live_changed, persistent_empty_changed, host_changed,
  Step, refuse, guarded,
}

-- A change of the control fields, after the sequence number.
abbrev control : (Control → Control) → Actor → Actor
control f s = record s { state = record (s.state) { control = f (s.state.control) } }

-- `SetLock`
unfoldable pub set_lock : Env → Bool → ℤ → Origin → Actor → Step
set_lock env locked uid origin s = guarded env origin uid s (record {
  actor = control (λ c. record c { locked = locked }) (bump s);
  effects = publish_update (record no_update { lock = some locked }) ∷ [];
  answer = ok (lock_changed locked);
})

-- `SetCycle`
unfoldable pub set_cycle : Env → Bool → ℤ → Origin → Actor → Step
set_cycle env cycle uid origin s = guarded env origin uid s (record {
  actor = control (λ c. record c { cycle = cycle }) (bump s);
  effects = publish_update (record no_update { cycle = some cycle }) ∷ [];
  answer = ok (cycle_changed cycle);
})

-- `SetHidden`
unfoldable pub set_hidden : Bool → Actor → Step
set_hidden hidden s = record {
  actor = control (λ c. record c { hidden = hidden }) (bump s);
  effects = [];
  answer = ok (hidden_changed hidden);
}

-- `unwrap_or_default`
abbrev text_or_empty : Option Text → Text
text_or_empty none = []
text_or_empty (some t) = t

-- `SetEndpoint`
unfoldable pub set_endpoint : Option Text → Actor → Step
set_endpoint endpoint s = record {
  actor = control (λ c. record c { phira_api_endpoint = endpoint }) (bump s);
  effects = [];
  answer = ok (endpoint_changed (text_or_empty endpoint) endpoint false);
}

abbrev pub is_positive : ℤ → Bool
is_positive (pos n) = ltb 0 n
is_positive (negsuc n) = false

-- `SetChart`; `pool_random` says whether the managed room, if it is one, draws its charts from a pool.
unfoldable pub set_chart : Env → Bool → ℤ → Text → ℤ → Origin → Actor → Step
set_chart env pool_random chart_id chart_name uid origin s =
    if is_positive uid && (is_reserved env.managed || pool_random)
    then refuse managed_chart s
    else if not (is_selecting (s.state.lifecycle))
    then refuse chart_outside_select_chart s
    else guarded env origin uid s (
        let bumped = bump s in
        let chosen = record bumped {
          state = record (bumped.state) { chart = some chart_id; chart_name = some chart_name };
        } in
        record {
          actor = chosen;
          effects =
              say (Message.select_chart uid chart_name chart_id) ∷ broadcast_state_change chosen
              ++ publish_update (record no_update { chart = some chart_id }) ∷ [];
          answer = ok (chart_selected chart_id);
        })

-- `ClearChart`
unfoldable pub clear_chart : Actor → Step
clear_chart s =
    if not (is_selecting (s.state.lifecycle))
    then refuse chart_outside_select_chart s
    else (let bumped = bump s in
        let cleared = record bumped {
          state = record (bumped.state) { chart = none; chart_name = none };
        } in
        record {
          actor = cleared;
          effects =
              broadcast_state_change cleared
              ++ publish_update
                  (record no_update { state = some StrippedRoomState.selecting_chart })
                ∷ [];
          answer = ok (chart_selected (pos 0));
        })

-- `SetChartDuration`
unfoldable pub set_chart_duration : Option ℕ → Actor → Step
set_chart_duration duration s = record {
  actor = record s { state = record (s.state) { chart_duration = duration } };
  effects = [];
  answer = ok chart_duration_set;
}

-- `SetLive`
unfoldable pub set_live : Bool → Actor → Step
set_live live s =
    let bumped = bump s in
    record {
      actor = record bumped { state = record (bumped.state) { live = live } };
      effects = [];
      answer = ok (live_changed live);
    }

-- `SetDegraded`
unfoldable pub set_degraded : Bool → Actor → Step
set_degraded degraded s =
    let bumped = bump s in
    record {
      actor = record bumped { state = record (bumped.state) { degraded = degraded } };
      effects = [];
      answer = ok empty;
    }

-- `SetTournament`
unfoldable pub set_tournament : Bool → Actor → Step
set_tournament tournament s = record {
  actor = control (λ c. record c { tournament = tournament }) (bump s);
  effects = [];
  answer = ok empty;
}

-- `SetDisplayName`
unfoldable pub set_display_name : ℤ → Text → Actor → Step
set_display_name uid name s =
    let bumped = bump s in
    record {
      actor = record bumped { display_names = set_key uid name (bumped.display_names) };
      effects = [];
      answer = ok (display_name_set uid name);
    }

-- `SetPersistentEmpty`
unfoldable pub set_persistent_empty : Bool → Actor → Step
set_persistent_empty keep s = record {
  actor = control (λ c. record c { persistent_empty = keep }) (bump s);
  effects = [];
  answer = ok (persistent_empty_changed keep);
}

-- `SetMaxUsers`; a room has at most `MAX_MANAGED_ROOM_USERS` users, which is 64.
unfoldable pub set_max_users : ℕ → Actor → Step
set_max_users max_users s =
    if not (leb 1 max_users && leb max_users 64)
    then refuse invalid_capacity s
    else if ltb max_users (length (s.state.users))
    then refuse capacity_below_users s
    else record {
      actor = control (λ c. record c { max_users = max_users }) (bump s);
      effects = [];
      answer = ok empty;
    }

-- What `SetHost` calls the new host.
unfoldable pub host_name : Env → Actor → ℤ → Text
host_name env s uid = elim (lookup uid (s.display_names)) [
  | some n ↦ n
  | none ↦ elim (find_peer uid (env.peers)) [ some u ↦ u.name | none ↦ show_id uid ]
]

-- The old host is told, unless the host stays.
unfoldable pub dismiss : Env → Option ℤ → ℤ → List Effect
dismiss env none uid = []
dismiss env (some old) uid = if beq_ℤ old uid then [] else notify_host env (some old) false

-- `SetHost`; without a player the room's host is the system.
unfoldable pub set_host : Env → Option ℤ → Actor → Step
set_host env (some uid) s =
    let name = host_name env s uid in
    record {
      actor = control (λ c. record c { host_id = some uid; system_host = false }) (bump s);
      effects =
          (if is_none (s.state.control.host_id)
              then user_became_host name
              else host_transferred name)
            ∷ dismiss env (s.state.control.host_id) uid
          ++ say (Message.new_host uid) ∷ notify_host env (some uid) true
          ++ publish_update (record no_update { host = some uid }) ∷ [];
      answer = ok (host_changed (some uid) name false);
    }
set_host env none s = record {
  actor = control (λ c. record c { host_id = none; system_host = true }) (bump s);
  effects =
      host_set_to_system ∷ notify_host env (s.state.control.host_id) false
      ++ say (Message.new_host (negsuc 0))
        ∷ publish_update (record no_update { host = some (negsuc 0) })
        ∷ [];
  answer = ok (host_changed none (63 ∷ []) true);
}
