-- ===== src/Session/Binding/Reconnect.antt =====
-- phira-mp-plus-server/src/session_lifecycle.rs and session.rs: reconnections that fail.
use phira_mp_plus.Common.{ℕ, ◌≡◌, ◌≢◌, Bool, true, false, some, arith}
use phira_mp_plus.Session.Binding.{
  User, CommandOrigin, bind_to, next_generation, set_session, upgrade, is_bound_to,
  clear_session_if_matches, replace_binding_if_matches, is_current, origin_is_current, Attempt,
  find_previous, take_over, roll_back_binding, rollback_failed_auth,
}

-- The attempt of a session that has taken over from the binding that it found, and the user it leaves.
unfoldable pub reconnect : (ℕ → Bool) → ℕ → User → User × Attempt
reconnect alive session u = take_over (find_previous alive session u) u

-- The user after a rollback of an attempt of a registered user.
unfoldable pub failed : (ℕ → Bool) → Attempt → User → User
failed alive a u = (rollback_failed_auth alive false false false true true a u).user

-- A session that takes over makes the commands of every other session stale.
pub reconnect-stale :
    (alive : ℕ → Bool) (b : ℕ) (u : User) (origin : CommandOrigin)
    → origin.session ≢ b
    → is_current alive origin (reconnect alive b u).0 ≡ false
unfolding reconnect find_previous take_over set_session bind_to is_current origin_is_current upgrade
reconnect-stale alive b u origin h = ground arith

-- A reconnection that fails before anyone else takes over gives the user back the binding that it found, so
-- that the commands of the old session, and of no other, are current as they were.
pub failed-reconnect :
    (alive : ℕ → Bool) (a b : ℕ) (u : User) (origin : CommandOrigin)
    → u.binding.session ≡ some a
    → alive a ≡ true
    → alive b ≡ true
    → let r = reconnect alive b u in
      ((failed alive r.1 r.0).binding ≡ u.binding)
      × (is_current alive origin (failed alive r.1 r.0) ≡ is_current alive origin u)
unfolding failed rollback_failed_auth roll_back_binding replace_binding_if_matches is_bound_to
    reconnect find_previous take_over set_session bind_to is_current origin_is_current upgrade
failed-reconnect alive a b u origin s p q = ground arith

-- If another session has taken over in between, the failure of the first changes nothing, not even which
-- commands are current.
pub failed-superseded :
    (alive : ℕ → Bool) (b c : ℕ) (u : User)
    → b ≢ c
    → let first = reconnect alive b u in
      let second = reconnect alive c first.0 in failed alive first.1 second.0 ≡ second.0
unfolding failed rollback_failed_auth roll_back_binding replace_binding_if_matches is_bound_to
    reconnect find_previous take_over set_session bind_to upgrade clear_session_if_matches
failed-superseded alive b c u h = ground arith

-- If two reconnections fail, the first before the second, then the user is left bound to the session of the
-- first, and the commands of the session before both are stale, although nothing has closed it.
pub failed-failed :
    (alive : ℕ → Bool) (a b c : ℕ) (u : User) (generation : ℕ)
    → a ≢ b
    → b ≢ c
    → alive b ≡ true
    → alive c ≡ true
    → let first = reconnect alive b u in
      let second = reconnect alive c first.0 in
      let last = failed alive second.1 (failed alive first.1 second.0) in
      (last.binding.session ≡ some b)
      × (is_current alive (record { session = a; generation = generation }) last ≡ false)
unfolding failed rollback_failed_auth roll_back_binding replace_binding_if_matches is_bound_to
    reconnect find_previous take_over set_session bind_to upgrade clear_session_if_matches
    is_current origin_is_current next_generation
failed-failed alive a b c u generation h k p q = ground arith

-- If two sessions find the same binding before either takes over, and the later one fails, then the user
-- is back at that binding, and the commands of the other, which has not failed, are stale.
pub failed-concurrent :
    (alive : ℕ → Bool) (a b c : ℕ) (u : User) (generation : ℕ)
    → u.binding.session ≡ some a
    → a ≢ b
    → alive a ≡ true
    → alive c ≡ true
    → let first = take_over (find_previous alive b u) u in
      let second = take_over (find_previous alive c u) first.0 in
      let last = failed alive second.1 second.0 in
      (last.binding ≡ u.binding)
      × (is_current alive (record { session = b; generation = generation }) last ≡ false)
unfolding failed rollback_failed_auth roll_back_binding replace_binding_if_matches is_bound_to
    find_previous take_over set_session bind_to upgrade clear_session_if_matches is_current
    origin_is_current next_generation
failed-concurrent alive a b c u generation s h p q = ground arith
