-- ===== src/Room/Refusals.antt =====
-- phira-mp-plus-server/src/room_actor/handler.rs: what a superseded session and a late command can do.
use phira_mp_plus.Common.{◌≡◌, refl, List, [], Bool, true, false, not, ◌||◌, ◌&&◌, ℤ, arith, err}
use phira_mp_plus.Room.State.{
  Actor, Env, Effect, Lifecycle, select_chart, wait_for_ready, playing, bump,
}
use phira_mp_plus.Room.Answer.{Step, Refusal, origin_stale, deadline_elapsed}
use phira_mp_plus.Wire.Text.{Text}
use phira_mp_plus.Wire.Commands.RoomData.{Record}
use phira_mp_plus.Common.Tests.{if-both}
use phira_mp_plus.Room.WellFormed.{is_playing, lifecycle-each}
use phira_mp_plus.Room.Ids.{has, has_key, add_id, has-add_id}
use phira_mp_plus.Common.{beq_ℤ_iff}
use phira_mp_plus.Room.Start.{check_all_ready}
use phira_mp_plus.Room.Rounds.{ReadyCheckOutcome, all_peers, settle, end_round, cycle_host}
use phira_mp_plus.Room.Play.{
  set_ready, cancel_ready, submit_result, late_result, abort_round, host_start, with_lifecycle,
}
use phira_mp_plus.Room.Members.{add_user}
use phira_mp_plus.Room.Settings.{set_lock, set_cycle, set_chart}
use phira_mp_plus.Room.Commands.{Command}

-- Whether a command comes too late or from a session that was superseded while it waited. A result that
-- comes too late is another matter.
abbrev pub is_void : Env → Command → Bool
is_void env (Command.set_lock b uid o) = env.late || origin_stale env o uid
is_void env (Command.set_cycle b uid o) = env.late || origin_stale env o uid
is_void env (Command.set_chart p c n uid o) = env.late || origin_stale env o uid
is_void env (Command.set_ready uid o) = env.late || origin_stale env o uid
is_void env (Command.cancel_ready uid o) = env.late || origin_stale env o uid
is_void env (Command.abort_round uid o) = env.late || origin_stale env o uid
is_void env (Command.host_start uid o) = env.late || origin_stale env o uid
is_void env (Command.add_user uid monitor o) = env.late || origin_stale env o uid
is_void env (Command.submit_result r o) = not env.late && origin_stale env o (r.player)
is_void env c = false

-- Nothing changes, nothing is sent, and the answer is an error.
unfoldable pub IsRefused : Actor → Step → Type 0
IsRefused s st = (st.actor ≡ s) × (st.effects ≡ []) × ((e : Refusal) × (st.answer ≡ err e))

-- Whether a player need not be waited for: the round is not being played, or has a result or an abort of theirs.
abbrev pub is_done : ℤ → Lifecycle → Bool
is_done uid select_chart = true
is_done uid (wait_for_ready ready admin) = true
is_done uid (playing results aborted) = has_key uid results || has uid aborted

settled-is_done :
    (env : Env) (uid : ℤ) (s : Actor) → is_done uid ((settle env s).0.state.lifecycle) ≡ true
unfolding settle end_round cycle_host
settled-is_done env uid s = ground arith

check_all_ready-is_done :
    (env : Env) (uid : ℤ) (s : Actor)
    → is_playing (s.state.lifecycle) ≡ true
    → is_done uid (s.state.lifecycle) ≡ true
    → is_done uid ((check_all_ready env s).0.state.lifecycle) ≡ true
unfolding check_all_ready
check_all_ready-is_done env uid s p h =
    lifecycle-each
      (λ (p : Actor × (List Effect × ReadyCheckOutcome)). is_done uid (p.0.state.lifecycle) ≡ true)
      (s.state.lifecycle) (λ _. h) (λ ready admin e. ground arith)
      (λ results aborted e.
        if-both
          (λ (p : Actor × (List Effect × ReadyCheckOutcome)).
            is_done uid (p.0.state.lifecycle) ≡ true)
          {b = all_peers (λ v. has_key v results || has v aborted) (env.peers)}
          (λ _. settled-is_done env uid s) (λ _. h))

late_done :
    (env : Env) (uid : ℤ) (s : Actor) (aborted : List ℤ) (results : List (ℤ × Record))
    → is_done uid (
        (check_all_ready env
          (bump (with_lifecycle s (playing results (add_id uid aborted))))).0.state.lifecycle)
      ≡ true
unfolding bump
late_done env uid s aborted results =
    check_all_ready-is_done env uid (bump (with_lifecycle s (playing results (add_id uid aborted))))
      refl (ground (arith, has-add_id uid uid aborted, beq_ℤ_iff uid uid))

-- A result that comes too late is refused, but the round does not wait for its player any more: either
-- they have a result or an abort, or the round is not being played.
pub late_result-is_done :
    (env : Env) (uid : ℤ) (s : Actor)
    → is_done uid ((late_result env uid s).actor.state.lifecycle) ≡ true
      × ((late_result env uid s).answer ≡ err deadline_elapsed)
unfolding late_result
late_result-is_done env uid s =
    lifecycle-each Done (s.state.lifecycle) (λ e. (rw e refl, refl))
      (λ ready admin e. (rw e refl, refl))
      (λ results aborted e.
        if-both Done {b = has_key uid results || has uid aborted} (λ done. (rw e done, refl))
          (λ _. (late_done env uid s aborted results, refl)))
  where
    Done : Step → Type 0
    Done st = (is_done uid (st.actor.state.lifecycle) ≡ true) × (st.answer ≡ err deadline_elapsed)
