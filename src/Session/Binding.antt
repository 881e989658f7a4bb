-- ===== src/Session/Binding.antt =====
-- phira-mp-plus-server/src/session_lifecycle.rs and session.rs: which session is a user's current one, and
-- how a failed authentication takes its session back. A session is named by a number, which stands for its
-- `Uuid` and for its address; a `Weak` reference is that number, and `alive` says which can be upgraded.
-- Marks of disconnections are numbered too.
pub mod Reconnect
use phira_mp_plus.Common.{
  ℕ, ◌+◌, ◌%◌, ◌^◌, List, [], ◌∷◌, ◌++◌, Bool, true, false, not, ◌&&◌, ◌||◌, Option, none, some,
  if◌then◌else◌, ◌==◌,
}

-- `SessionBinding`
pub record SessionBinding : Type 0 where
  pub generation : ℕ
  pub session : Option ℕ

-- The part of a `User` that its bindings change.
pub record User : Type 0 where
  pub binding : SessionBinding
  pub dangle_mark : Option ℕ
  pub dangle_deadline_ms : ℕ
  pub reconnect_wait_notified : Bool

-- A `CommandOrigin` whose session is `session`.
pub record CommandOrigin : Type 0 where
  pub session : ℕ
  pub generation : ℕ

-- The new binding of a user, who is not away any more.
unfoldable pub bind_to : ℕ → Option ℕ → User → User
bind_to generation session u = record {
  binding = record { generation = generation; session = session };
  dangle_mark = none;
  dangle_deadline_ms = 0;
  reconnect_wait_notified = false;
}

unfoldable pub next_generation : User → ℕ
next_generation u = (u.binding.generation + 1) % 2 ^ 64

-- `set_session`; the generation that it returns is that of the new binding.
unfoldable pub set_session : ℕ → User → User
set_session session u = bind_to (next_generation u) (some session) u

-- `clear_session`
unfoldable pub clear_session : User → User
clear_session u = bind_to (next_generation u) none u

unfoldable pub upgrade : (ℕ → Bool) → Option ℕ → Option ℕ
upgrade alive none = none
upgrade alive (some s) = if alive s then some s else none

-- The test of `clear_session_if_matches` and `replace_binding_if_matches`.
unfoldable pub is_bound_to : (ℕ → Bool) → ℕ → ℕ → User → Bool
is_bound_to alive session generation u =
    u.binding.generation == generation
    && elim (upgrade alive (u.binding.session)) [ none ↦ false | some s ↦ s == session ]

-- `clear_session_if_matches`
unfoldable pub clear_session_if_matches : (ℕ → Bool) → ℕ → ℕ → User → User × Bool
clear_session_if_matches alive session generation u =
    if is_bound_to alive session generation u
    then (bind_to (next_generation u) none u, true)
    else (u, false)

-- `restore_binding`
unfoldable pub restore_binding : ℕ → ℕ → User → User
restore_binding session generation u = bind_to generation (some session) u

-- `replace_binding_if_matches`
unfoldable pub replace_binding_if_matches :
    (ℕ → Bool) → (old_session old_generation new_session new_generation : ℕ) → User → User × Bool
replace_binding_if_matches alive old_session old_generation new_session new_generation u =
    if is_bound_to alive old_session old_generation u
    then (bind_to new_generation (some new_session) u, true)
    else (u, false)

-- `current_origin`
unfoldable pub current_origin : (ℕ → Bool) → User → Option CommandOrigin
current_origin alive u = elim (upgrade alive (u.binding.session)) [
  | none ↦ none
  | some s ↦ some (record { session = s; generation = u.binding.generation })
]

-- `origin_is_current`
unfoldable pub origin_is_current : ℕ → ℕ → Bool → Bool
origin_is_current snapshot_generation current_generation same_session =
    (snapshot_generation == current_generation) && same_session

-- `CommandOrigin::is_current`
unfoldable pub is_current : (ℕ → Bool) → CommandOrigin → User → Bool
is_current alive origin u =
    if alive (origin.session)
    then origin_is_current (origin.generation) (u.binding.generation)
        (elim (upgrade alive (u.binding.session)) [ none ↦ false | some s ↦ s == origin.session ])
    else false

-- `AuthPhase`
pub data AuthPhase : Type 0 where
  authenticating response_flushed active : AuthPhase

-- `should_rollback_auth`
unfoldable pub should_rollback_auth : AuthPhase → Bool → Bool
should_rollback_auth authenticating flush_ok = not flush_ok
should_rollback_auth response_flushed flush_ok = not flush_ok
should_rollback_auth active flush_ok = false

-- An authentication of a user who is registered: its session, the binding that it found and the one that it
-- made.
pub record Attempt : Type 0 where
  pub session : ℕ
  pub previous : Option (ℕ × ℕ)
  pub bound_identity : Option (ℕ × ℕ)

-- The reconnecting session reads the binding that it will replace (`previous_session` and
-- `previous_generation`).
unfoldable pub find_previous : (ℕ → Bool) → ℕ → User → Attempt
find_previous alive session u = record {
  session = session;
  previous = elim (upgrade alive (u.binding.session)) [
    | none ↦ none
    | some s ↦ some (s, u.binding.generation)
  ];
  bound_identity = none;
}

-- The session becomes the current one, before its `Authenticate(Ok)` is sent.
unfoldable pub take_over : Attempt → User → User × Attempt
take_over a u =
    (set_session (a.session) u, record a { bound_identity = some (a.session, next_generation u) })

-- What `rollback_failed_auth` does to the binding.
unfoldable pub roll_back_binding : (ℕ → Bool) → Option (ℕ × ℕ) → Option (ℕ × ℕ) → User → User
roll_back_binding alive none previous u = u
roll_back_binding alive (some (s, g)) none u = (clear_session_if_matches alive s g u).0
roll_back_binding alive (some (s, g)) (some (p, h)) u =
    (replace_binding_if_matches alive s g p h u).0

-- Whether the user's registration belongs to the failed authentication (`ours`).
unfoldable pub is_ours : (ℕ → Bool) → Option (ℕ × ℕ) → User → Bool
is_ours alive bound_identity u = elim (upgrade alive (u.binding.session)) [
  | none ↦ true
  | some s ↦ elim bound_identity [ none ↦ false | some (b, g) ↦ s == b ]
]

-- What a rollback leaves: the user, whether `server.users` still has it, whether the departure is recorded
-- (`UserDisconnect` and `UserOffline`), whether the client is told and whether its transport is closed.
pub record RolledBack : Type 0 where
  pub user : User
  pub registered : Bool
  pub offline_recorded : Bool
  pub rejection_sent : Bool
  pub transport_closed : Bool

-- `rollback_failed_auth` for a user; `registered` says whether `server.users` has this `User`, and `inited`
-- whether its session exists.
unfoldable pub rollback_failed_auth :
    (ℕ → Bool)
    → (newly_created durable send_err inited registered : Bool) → Attempt
    → User
    → RolledBack
rollback_failed_auth alive newly_created durable send_err inited registered a u =
    let undone = roll_back_binding alive (a.bound_identity) (a.previous) u in
    record {
      user = undone;
      registered = registered && not (newly_created && is_ours alive (a.bound_identity) undone);
      offline_recorded = durable;
      rejection_sent = send_err;
      transport_closed = inited;
    }

-- The previous session is closed once the new one is live.
unfoldable pub hand_over : Attempt → Option ℕ
hand_over a = elim (a.previous) [
  | none ↦ none
  | some (p, g) ↦ if p == a.session then none else some p
]
