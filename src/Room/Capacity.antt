-- ===== src/Room/Capacity.antt =====
-- phira-mp-plus-server/src/room_actor/handler.rs: the limit on a room's users.
use phira_mp_plus.Common.{◌≤◌, length, length-append, none, [], ◌∷◌, ◌≡◌, arith}
use phira_mp_plus.Room.State.{Actor, Env, bump}
use phira_mp_plus.Room.Answer.{guarded}
use phira_mp_plus.Room.Start.{
  check_all_ready, try_start, fail_start, name_round, finish_admin_start, enter_playing,
  force_start_playing, force_end_playing, ready_timeout, playing_timeout, force_open, begin_forced,
  fail_force, open_forced, name_forced, monitor_unready,
}
use phira_mp_plus.Room.Rounds.{settle, end_round, cycle_host, set_playing_deadline}
use phira_mp_plus.Room.Play.{
  set_ready, cancel_ready, submit_result, late_result, commit_result, abort_round, host_start,
  start_room, enter_ready_phase, cancel_start, enter_waiting, extend_deadline,
}
use phira_mp_plus.Room.Settings.{
  set_lock, set_cycle, set_hidden, set_live, set_degraded, set_tournament, set_persistent_empty,
  set_endpoint, set_chart, set_chart_duration, set_display_name, set_host, set_max_users,
  clear_chart,
}
use phira_mp_plus.Room.Members.{add_user, join, capacity}
use phira_mp_plus.Room.Progress.{register_progress, prune, tell_progress}
use phira_mp_plus.Room.Commands.{Command, execute}

-- No more users than the room may have.
abbrev pub IsWithinCapacity : Actor → Type 0
IsWithinCapacity s = length (s.state.users) ≤ s.state.control.max_users

-- In a room that is not managed, no timeout and no command
-- other than `RemoveUser` and `KickUser` leads to more users than the room may have, if there are
-- not too many before.
pub execute-IsWithinCapacity :
    (env : Env) (c : Command) (s : Actor)
    → env.managed ≡ none
    → IsWithinCapacity s
    → IsWithinCapacity ((execute env c s).actor)
unfolding execute register_progress prune tell_progress add_user join capacity set_lock set_cycle
    set_hidden set_live set_degraded set_tournament set_persistent_empty set_endpoint set_chart
    set_chart_duration set_display_name set_max_users set_host clear_chart bump guarded set_ready
    cancel_ready submit_result late_result commit_result abort_round host_start start_room
    enter_ready_phase cancel_start ready_timeout playing_timeout enter_waiting extend_deadline
    check_all_ready try_start fail_start name_round finish_admin_start enter_playing
    set_playing_deadline settle end_round cycle_host force_start_playing force_open begin_forced
    fail_force open_forced name_forced monitor_unready force_end_playing
execute-IsWithinCapacity env (Command.add_user uid m o) s e h =
    ground (arith, e, h, length-append (s.state.users) (uid ∷ []))
execute-IsWithinCapacity env _ s e h = ground (arith, e, h)
