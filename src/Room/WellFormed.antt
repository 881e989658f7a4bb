-- ===== src/Room/WellFormed.antt =====
-- phira-mp-plus-server/src/room_actor/handler.rs: the well-formed states of a room, and that the start and
-- the end of a round keep to them.
pub mod Timeouts
pub mod Steps
pub mod Results
pub mod Commands
pub mod Departure
pub mod Reachable
use phira_mp_plus.Common.{
  ℕ, ◌≡◌, ◌⊎◌, refl, List, [], ◌∷◌, Bool, true, false, not, ◌||◌, ◌&&◌, Option, none, some, ℤ,
  beq_ℤ, beq_ℤ_iff, arith, inl, inr, Bool-cases, Option-cases, if◌then◌else◌,
}
use phira_mp_plus.Common.Tests.{if-both}
use phira_mp_plus.Wire.Commands.RoomData.{Record}
use phira_mp_plus.Room.State.{
  Lifecycle, select_chart, wait_for_ready, playing, Room, Actor, Env, Effect, bump,
}
use phira_mp_plus.Room.Ids.{
  has, has_key, add_id, remove_id, set_key, IsDistinct, add_id-IsDistinct, remove_id-IsDistinct,
  has_key-set_key, has-add_id,
}
use phira_mp_plus.Room.Rounds.{
  ReadyCheckOutcome, broadcast_state_change, set_playing_deadline, cycle_host, end_round, settle,
}
use phira_mp_plus.Room.Start.{
  try_start, check_all_ready, enter_playing, fail_start, name_round, finish_admin_start, fail_force,
  name_forced, force_open, force_start_playing, force_end_playing, ready_timeout, playing_timeout,
  unready_peers, monitor_unready, is_hosted, abort_unfinished,
}

-- No player has both a result and an abort.
abbrev pub IsDisjoint : List (ℤ × Record) → List ℤ → Type 0
IsDisjoint results aborted = (uid : ℤ) → has_key uid results ≡ true → has uid aborted ≡ false

abbrev pub IsDistinctKeys : List (ℤ × Record) → Type 0
IsDistinctKeys [] = Unit {0}
IsDistinctKeys ((x, r) ∷ results) = (has_key x results ≡ false) × IsDistinctKeys results

abbrev pub IsRound : Lifecycle → Type 0
IsRound select_chart = Unit {0}
IsRound (wait_for_ready ready admin) = IsDistinct ready
IsRound (playing results aborted) =
    IsDistinctKeys results × (IsDistinct aborted × IsDisjoint results aborted)

abbrev pub is_playing : Lifecycle → Bool
is_playing select_chart = false
is_playing (wait_for_ready ready admin) = false
is_playing (playing results aborted) = true

abbrev pub is_some {ℓ} : {A : Type ℓ} → Option A → Bool
is_some none = false
is_some (some a) = true

-- The sets of a round repeat no player, and its clocks run exactly while it is played.
unfoldable pub IsWellFormed : Actor → Type 0
IsWellFormed s =
    IsRound (s.state.lifecycle)
    × (is_some (s.state.playing_started_at) ≡ is_playing (s.state.lifecycle))
    × (is_playing (s.state.lifecycle) ≡ false → s.state.playing_timeout_deadline ≡ none)

-- A property of every case of a lifecycle.
pub lifecycle-each {ℓ} :
    {A : Type ℓ} (P : A → Type 0) (l : Lifecycle) {a : A} {f : List ℤ → Bool → A}
    {g : List (ℤ × Record) → List ℤ → A}
    → (l ≡ select_chart → P a)
    → ((ready : List ℤ) (admin : Bool) → l ≡ wait_for_ready ready admin → P (f ready admin))
    → ((results : List (ℤ × Record)) (aborted : List ℤ)
        → l ≡ playing results aborted
        → P (g results aborted))
    → P (elim l [
      | select_chart ↦ a
      | wait_for_ready ready admin ↦ f ready admin
      | playing results aborted ↦ g results aborted
    ])
lifecycle-each P select_chart h k m = h refl
lifecycle-each P (wait_for_ready ready admin) h k m = k ready admin refl
lifecycle-each P (playing results aborted) h k m = m results aborted refl

settle-IsWellFormed : (env : Env) (s : Actor) → IsWellFormed (settle env s).0
unfolding settle end_round cycle_host IsWellFormed
settle-IsWellFormed env s = ground arith

pub set_playing_deadline-IsWellFormed :
    (env : Env) (s : Actor)
    → IsRound (s.state.lifecycle)
    → is_some (s.state.playing_started_at) ≡ true
    → is_playing (s.state.lifecycle) ≡ true
    → IsWellFormed (set_playing_deadline env s)
unfolding set_playing_deadline IsWellFormed
set_playing_deadline-IsWellFormed env s r h k = ground arith

pub enter_playing-IsWellFormed :
    (env : Env) (aborted : List ℤ) (s : Actor)
    → IsDistinct aborted
    → IsWellFormed (set_playing_deadline env (enter_playing env aborted s))
unfolding enter_playing has_key
enter_playing-IsWellFormed env aborted s h =
    set_playing_deadline-IsWellFormed env (enter_playing env aborted s)
      (tt, (h, λ uid e. ground arith)) refl refl

fail_start-IsWellFormed :
    (env : Env) (admin : Bool) (s : Actor)
    → is_playing (s.state.lifecycle) ≡ false
    → IsWellFormed s
    → IsWellFormed (fail_start s (name_round env admin s))
unfolding fail_start name_round finish_admin_start IsWellFormed
fail_start-IsWellFormed env admin s w h = ground arith

try_start-IsWellFormed :
    (env : Env) (ready : List ℤ) (admin : Bool) (s : Actor)
    → is_playing (s.state.lifecycle) ≡ false
    → IsWellFormed s
    → IsWellFormed (try_start env ready admin s).0
unfolding try_start
try_start-IsWellFormed env ready admin s w h =
    if-both (λ (p : Actor × (List Effect × ReadyCheckOutcome)). IsWellFormed p.0)
      (λ _. enter_playing-IsWellFormed env [] (name_round env admin s) tt)
      (λ _. fail_start-IsWellFormed env admin s w h)

pub check_all_ready-IsWellFormed :
    (env : Env) (s : Actor) → IsWellFormed s → IsWellFormed (check_all_ready env s).0
unfolding check_all_ready
check_all_ready-IsWellFormed env s h =
    lifecycle-each (λ (p : Actor × (List Effect × ReadyCheckOutcome)). IsWellFormed p.0)
      (s.state.lifecycle) (λ _. h)
      (λ ready admin e.
        if-both (λ (p : Actor × (List Effect × ReadyCheckOutcome)). IsWellFormed p.0)
          (λ _. try_start-IsWellFormed env ready admin s (ground arith) h) (λ _. h))
      (λ results aborted e.
        if-both (λ (p : Actor × (List Effect × ReadyCheckOutcome)). IsWellFormed p.0)
          (λ _. settle-IsWellFormed env s) (λ _. h))
