-- ===== src/Room/WellFormed/Timeouts.antt =====
-- phira-mp-plus-server/src/room_actor/handler.rs and mailbox.rs: the timeouts keep a room well-formed, and a
-- round that has run out of time ends.
use phira_mp_plus.Common.{
  ◌≡◌, refl, List, [], ◌∷◌, Bool, true, false, ltb, ◌||◌, none, ℤ, beq_ℤ_iff, arith, if◌then◌else◌,
}
use phira_mp_plus.Wire.Commands.RoomData.{Record}
use phira_mp_plus.Room.State.{select_chart, Actor, Peer, Env, Effect, bump}
use phira_mp_plus.Room.Ids.{has, has_key, add_id, IsDistinct, add_id-IsDistinct, has-add_id}
use phira_mp_plus.Room.Rounds.{end_round, all_peers}
use phira_mp_plus.Room.Start.{
  enter_playing, finish_admin_start, fail_force, name_forced, open_forced, begin_forced, force_open,
  force_start_playing, force_end_playing, ready_timeout, playing_timeout, unready_peers,
  monitor_unready, is_hosted, abort_unfinished,
}
use phira_mp_plus.Common.Tests.{if-both}
use phira_mp_plus.Room.WellFormed.{
  is_playing, IsWellFormed, lifecycle-each, enter_playing-IsWellFormed,
}

unready_peers-IsDistinct : (ready : List ℤ) (us : List Peer) → IsDistinct (unready_peers ready us)
unfolding unready_peers
unready_peers-IsDistinct ready [] = tt
unready_peers-IsDistinct ready (u ∷ us) =
    if-both IsDistinct (λ _. unready_peers-IsDistinct ready us)
      (λ _. add_id-IsDistinct (u.id) _ (unready_peers-IsDistinct ready us))

-- The state in which a forced round is opened is not being played.
IsIdle : Actor → Type 0
IsIdle s =
    (is_playing (s.state.lifecycle) ≡ false)
    × (s.state.playing_started_at ≡ none)
    × (s.state.playing_timeout_deadline ≡ none)

fail_force-IsWellFormed :
    (env : Env) (unready : List ℤ) (admin : Bool) (s : Actor)
    → IsIdle s
    → IsWellFormed (fail_force (open_forced env unready admin s))
unfolding fail_force open_forced name_forced finish_admin_start monitor_unready IsWellFormed IsIdle
fail_force-IsWellFormed env unready admin s h = ground arith

unclocked-IsWellFormed :
    (env : Env) (aborted : List ℤ) (s : Actor)
    → IsDistinct aborted
    → IsWellFormed (enter_playing env aborted s)
unfolding enter_playing IsWellFormed has_key
unclocked-IsWellFormed env aborted s h = ((tt, (h, λ uid e. ground arith)), refl, λ e. ground arith)

begin_forced-IsWellFormed :
    (env : Env) (unready : List ℤ) (s : Actor)
    → IsDistinct unready
    → IsWellFormed (begin_forced env unready s)
unfolding begin_forced
begin_forced-IsWellFormed env unready s d =
    if-both IsWellFormed {b = ltb 0 env.timeout_offset}
      (λ _. enter_playing-IsWellFormed env _ s aborted)
      (λ _. unclocked-IsWellFormed env _ s aborted)
  where
    aborted : IsDistinct (if is_hosted env.managed then [] else unready)
    aborted = if-both IsDistinct {b = is_hosted env.managed} (λ _. tt) (λ _. d)

force_open-IsWellFormed :
    (env : Env) (ready : List ℤ) (admin : Bool) (s : Actor)
    → IsIdle s
    → IsWellFormed (force_open env ready admin s).0
unfolding force_open
force_open-IsWellFormed env ready admin s h =
    if-both (λ (p : Actor × List Effect). IsWellFormed p.0) {b = env.round_opened}
      (λ _.
        begin_forced-IsWellFormed env (unready_peers ready env.peers) _
          (unready_peers-IsDistinct ready env.peers))
      (λ _. fail_force-IsWellFormed env (unready_peers ready env.peers) admin s h)

abbrev counted : Actor → Actor
counted s =
    let bumped = bump s in
    record bumped { state = record (bumped.state) { ready_countdown_started_at = none } }

counted-IsIdle :
    (s : Actor) → is_playing (s.state.lifecycle) ≡ false → IsWellFormed s → IsIdle (counted s)
unfolding IsIdle IsWellFormed bump
counted-IsIdle s w h = ground arith

cancelled-IsWellFormed :
    (s : Actor)
    → IsIdle s
    → IsWellFormed (record s { state = record (s.state) { lifecycle = select_chart } })
unfolding IsIdle IsWellFormed
cancelled-IsWellFormed s h = ground arith

pub force_start_playing-IsWellFormed :
    (env : Env) (s : Actor) → IsWellFormed s → IsWellFormed (force_start_playing env s).0
unfolding force_start_playing
force_start_playing-IsWellFormed env s h =
    lifecycle-each (λ (p : Actor × List Effect). IsWellFormed p.0) (s.state.lifecycle) (λ _. h)
      (λ ready admin e.
        let idle : IsIdle (counted s) = counted-IsIdle s (ground arith) h in
        if-both (λ (p : Actor × List Effect). IsWellFormed p.0)
          (λ _. cancelled-IsWellFormed (counted s) idle)
          (λ _. force_open-IsWellFormed env ready admin (counted s) idle))
      (λ results aborted e. h)

-- Who aborts at the end of a forced round is in the list, and who has a result keeps to it.
has-abort_unfinished :
    (j : ℤ) (us : List Peer) (results : List (ℤ × Record)) (aborted : List ℤ)
    → has j aborted ≡ true
    → has j (abort_unfinished us results aborted) ≡ true
unfolding abort_unfinished
has-abort_unfinished j [] results aborted h = h
has-abort_unfinished j (u ∷ us) results aborted h =
    has-abort_unfinished j us results _ (ground (arith, has-add_id j (u.id) aborted))

abort_unfinished-done :
    (us : List Peer) (results : List (ℤ × Record)) (aborted : List ℤ)
    → all_peers (λ uid. has_key uid results || has uid (abort_unfinished us results aborted)) us
      ≡ true
unfolding all_peers abort_unfinished
abort_unfinished-done [] results aborted = refl
abort_unfinished-done (u ∷ us) results aborted =
    let marked = if has_key (u.id) results then aborted else add_id (u.id) aborted in
    ground (
      arith,
      abort_unfinished-done us results marked,
      has-abort_unfinished (u.id) us results marked,
      has-add_id (u.id) (u.id) aborted,
      beq_ℤ_iff (u.id) (u.id),
    )

ended-IsWellFormed : (s : Actor) → IsWellFormed (end_round s)
unfolding end_round IsWellFormed
ended-IsWellFormed s = ground arith

bumped-IsWellFormed : (s : Actor) → IsWellFormed s → IsWellFormed (bump s)
unfolding bump IsWellFormed
bumped-IsWellFormed s h = h

pub force_end_playing-IsWellFormed :
    (env : Env) (s : Actor) → IsWellFormed s → IsWellFormed (force_end_playing env s).0
unfolding force_end_playing
force_end_playing-IsWellFormed env s h =
    lifecycle-each (λ (p : Actor × List Effect). IsWellFormed p.0) (s.state.lifecycle) (λ _. h)
      (λ ready admin e. h)
      (λ results aborted e.
        rw (abort_unfinished-done env.peers results aborted) (ended-IsWellFormed _))

-- A round that runs out of time is over: whatever was played, the room selects a chart again.
pub force_end_playing-ends :
    (env : Env) (s : Actor) → is_playing ((force_end_playing env s).0.state.lifecycle) ≡ false
unfolding force_end_playing end_round
force_end_playing-ends env s =
    lifecycle-each (λ (p : Actor × List Effect). is_playing (p.0.state.lifecycle) ≡ false)
      (s.state.lifecycle) (λ e. ground arith) (λ ready admin e. ground arith)
      (λ results aborted e. rw (abort_unfinished-done env.peers results aborted) refl)

pub ready_timeout-IsWellFormed :
    (env : Env) (s : Actor) → IsWellFormed s → IsWellFormed (ready_timeout env s).0
unfolding ready_timeout
ready_timeout-IsWellFormed env s h = ground (arith, force_start_playing-IsWellFormed env s)

unlimited-IsWellFormed :
    (s : Actor)
    → IsWellFormed s
    → IsWellFormed (record s { state = record (s.state) { playing_timeout_deadline = none } })
unfolding IsWellFormed
unlimited-IsWellFormed s h = ground arith

pub playing_timeout-IsWellFormed :
    (env : Env) (s : Actor) → IsWellFormed s → IsWellFormed (playing_timeout env s).0
unfolding playing_timeout
playing_timeout-IsWellFormed env s h =
    let unlimited = record s { state = record (s.state) { playing_timeout_deadline = none } } in
    ground (arith, force_end_playing-IsWellFormed env unlimited, unlimited-IsWellFormed s)
