-- ===== src/Room/WellFormed/Reachable.antt =====
-- phira-mp-plus-server/src/room_actor/handler.rs: the states that commands and timeouts lead to.
use phira_mp_plus.Common.{arith, none, some, ℕ, refl, Bool, not, ◌||◌, ◌&&◌, ℤ, ltb, leb, length}
use phira_mp_plus.Wire.Text.{Text}
use phira_mp_plus.Room.State.{Actor, Env, bump}
use phira_mp_plus.Room.Answer.{Origin, guarded}
use phira_mp_plus.Room.Progress.{register_progress, prune, tell_progress}
use phira_mp_plus.Room.Commands.{Command, execute}
use phira_mp_plus.Room.Settings.{
  set_lock, set_cycle, set_hidden, set_live, set_degraded, set_tournament, set_persistent_empty,
  set_endpoint, set_chart, set_chart_duration, set_display_name, set_max_users, set_host,
  clear_chart, is_positive,
}
use phira_mp_plus.Room.Members.{add_user, join}
use phira_mp_plus.Room.Play.{is_reserved, is_selecting}
use phira_mp_plus.Common.Tests.{if-both}
use phira_mp_plus.Room.WellFormed.{IsWellFormed, check_all_ready-IsWellFormed}
use phira_mp_plus.Room.WellFormed.Timeouts.{
  ready_timeout-IsWellFormed, playing_timeout-IsWellFormed,
}
use phira_mp_plus.Room.WellFormed.Steps.{Keeps, bump-IsWellFormed, guarded-Keeps, same-IsWellFormed}
use phira_mp_plus.Room.Departure.{remove_user, kick_user}
use phira_mp_plus.Room.WellFormed.Departure.{remove_user-Keeps, kick_user-Keeps}
use phira_mp_plus.Room.WellFormed.Results.{submit_result-Keeps, abort_round-Keeps}
use phira_mp_plus.Room.WellFormed.Commands.{
  set_ready-Keeps, cancel_ready-Keeps, host_start-Keeps, start_room-Keeps, enter_ready_phase-Keeps,
  cancel_start-Keeps,
}

set_chart-Keeps :
    (env : Env) (pool : Bool) (c : ℤ) (n : Text) (uid : ℤ) (o : Origin) (s : Actor)
    → IsWellFormed s
    → Keeps (set_chart env pool c n uid o s)
unfolding set_chart bump
set_chart-Keeps env pool c n uid o s h =
    if-both Keeps {b = is_positive uid && (is_reserved env.managed || pool)} (λ _. h)
      (λ _.
        if-both Keeps {b = not (is_selecting (s.state.lifecycle))} (λ _. h)
          (λ _. guarded-Keeps env o uid s _ h (same-IsWellFormed s _ refl refl refl h)))

add_user-Keeps :
    (env : Env) (uid : ℤ) (monitor : Bool) (o : Origin) (s : Actor)
    → IsWellFormed s
    → Keeps (add_user env uid monitor o s)
unfolding add_user join guarded bump IsWellFormed
add_user-Keeps env uid monitor o s h = ground (arith, h)

clear_chart-Keeps : (s : Actor) → IsWellFormed s → Keeps (clear_chart s)
unfolding clear_chart bump
clear_chart-Keeps s h =
    if-both Keeps {b = not (is_selecting (s.state.lifecycle))} (λ _. h)
      (λ _. same-IsWellFormed s _ refl refl refl h)

set_max_users-Keeps : (n : ℕ) (s : Actor) → IsWellFormed s → Keeps (set_max_users n s)
unfolding set_max_users bump
set_max_users-Keeps n s h =
    if-both Keeps {b = not (leb 1 n && leb n 64)} (λ _. h)
      (λ _.
        if-both Keeps {b = ltb n (length (s.state.users))} (λ _. h)
          (λ _. same-IsWellFormed s _ refl refl refl h))

-- Every command and every timeout keeps a well-formed room well-formed: nobody is ready twice, nobody has
-- two results or both a result and an abort, and the clocks of a round run only while it is played.
pub execute-IsWellFormed :
    (env : Env) (c : Command) (s : Actor) → IsWellFormed s → IsWellFormed ((execute env c s).actor)
unfolding execute set_host set_lock set_cycle set_hidden set_live set_degraded set_tournament
    set_persistent_empty set_endpoint set_chart_duration set_display_name bump register_progress
    prune tell_progress
execute-IsWellFormed env (Command.set_lock b uid o) s h =
    guarded-Keeps env o uid s _ h (same-IsWellFormed s _ refl refl refl h)
execute-IsWellFormed env (Command.set_cycle b uid o) s h =
    guarded-Keeps env o uid s _ h (same-IsWellFormed s _ refl refl refl h)
execute-IsWellFormed env (Command.set_hidden b) s h = same-IsWellFormed s _ refl refl refl h
execute-IsWellFormed env (Command.set_live b) s h = same-IsWellFormed s _ refl refl refl h
execute-IsWellFormed env (Command.set_degraded b) s h = same-IsWellFormed s _ refl refl refl h
execute-IsWellFormed env (Command.set_tournament b) s h = same-IsWellFormed s _ refl refl refl h
execute-IsWellFormed env (Command.set_persistent_empty b) s h =
    same-IsWellFormed s _ refl refl refl h
execute-IsWellFormed env (Command.set_endpoint e) s h = same-IsWellFormed s _ refl refl refl h
execute-IsWellFormed env (Command.set_chart p c n uid o) s h = set_chart-Keeps env p c n uid o s h
execute-IsWellFormed env (Command.set_chart_duration d) s h = same-IsWellFormed s _ refl refl refl h
execute-IsWellFormed env (Command.set_display_name uid n) s h =
    same-IsWellFormed s _ refl refl refl h
execute-IsWellFormed env (Command.set_max_users n) s h = set_max_users-Keeps n s h
execute-IsWellFormed env (Command.set_host (some uid)) s h = same-IsWellFormed s _ refl refl refl h
execute-IsWellFormed env (Command.set_host none) s h = same-IsWellFormed s _ refl refl refl h
execute-IsWellFormed env (Command.set_ready uid o) s h = set_ready-Keeps env uid o s h
execute-IsWellFormed env (Command.cancel_ready uid o) s h = cancel_ready-Keeps env uid o s h
execute-IsWellFormed env (Command.abort_round uid o) s h = abort_round-Keeps env uid o s h
execute-IsWellFormed env (Command.host_start uid o) s h = host_start-Keeps env uid o s h
execute-IsWellFormed env (Command.submit_result r o) s h = submit_result-Keeps env r o s h
execute-IsWellFormed env (Command.add_user uid m o) s h = add_user-Keeps env uid m o s h
execute-IsWellFormed env Command.clear_chart s h = clear_chart-Keeps s h
execute-IsWellFormed env Command.start_room s h = start_room-Keeps env s h
execute-IsWellFormed env Command.enter_ready_phase s h = enter_ready_phase-Keeps env s h
execute-IsWellFormed env Command.cancel_start s h = cancel_start-Keeps env s h
execute-IsWellFormed env Command.check_ready s h =
    check_all_ready-IsWellFormed env (bump s) (bump-IsWellFormed s h)
execute-IsWellFormed env (Command.register_progress uid) s h =
    same-IsWellFormed s _ refl refl refl h
execute-IsWellFormed env Command.prune s h = same-IsWellFormed s _ refl refl refl h
execute-IsWellFormed env Command.tell_progress s h = same-IsWellFormed s _ refl refl refl h
execute-IsWellFormed env Command.ready_timeout s h = ready_timeout-IsWellFormed env s h
execute-IsWellFormed env Command.playing_timeout s h = playing_timeout-IsWellFormed env s h

-- The states that a run of commands, departures and timeouts leads to.
pub data Reachable (s : Actor) : Actor → Type 0 where
  here : Reachable s s
  next :
      {t : Actor} (env : Env) (c : Command) → Reachable s t → Reachable s ((execute env c t).actor)
  left :
      {t : Actor} (env : Env) (uid : ℤ) (monitor : Bool) (o : Origin)
      → Reachable s t
      → Reachable s ((remove_user env uid monitor o t).actor)
  kicked :
      {t : Actor} (env : Env) (uid : ℤ) (monitor : Bool)
      → Reachable s t
      → Reachable s ((kick_user env uid monitor t).actor)

-- Whatever commands and timeouts run and whoever leaves or is kicked, and in whatever order, a well-formed room stays well-formed.
pub Reachable-IsWellFormed : {s t : Actor} → Reachable s t → IsWellFormed s → IsWellFormed t
Reachable-IsWellFormed here h = h
Reachable-IsWellFormed (next env c r) h = execute-IsWellFormed env c _ (Reachable-IsWellFormed r h)
Reachable-IsWellFormed (left env uid m o r) h =
    remove_user-Keeps env uid m o _ (Reachable-IsWellFormed r h)
Reachable-IsWellFormed (kicked env uid m r) h =
    kick_user-Keeps env uid m _ (Reachable-IsWellFormed r h)
