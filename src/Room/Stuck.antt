-- ===== src/Room/Stuck.antt =====
-- phira-mp-plus-server/src/room_actor/handler.rs: the mark of an administrator's start, which outlives a
-- start that failed.
use phira_mp_plus.Common.{◌≡◌, [], true, false, some, ℤ, arith}
use phira_mp_plus.Room.State.{Actor, Env, select_chart, wait_for_ready, bump}
use phira_mp_plus.Room.Answer.{guarded}
use phira_mp_plus.Room.Start.{
  check_all_ready, try_start, fail_start, name_round, finish_admin_start, ready_timeout,
  playing_timeout,
}
use phira_mp_plus.Room.Rounds.{settle, end_round, cycle_host}
use phira_mp_plus.Room.Play.{
  set_ready, cancel_ready, submit_result, late_result, commit_result, abort_round, host_start,
  start_room, enter_ready_phase, cancel_start, enter_waiting,
}
use phira_mp_plus.Room.Settings.{
  set_lock, set_cycle, set_hidden, set_live, set_degraded, set_tournament, set_persistent_empty,
  set_endpoint, set_chart, set_chart_duration, set_display_name, set_host, set_max_users,
  clear_chart,
}
use phira_mp_plus.Room.Members.{add_user, join}
use phira_mp_plus.Room.Progress.{register_progress, prune, tell_progress}
use phira_mp_plus.Room.Commands.{Command, execute}

-- The room selects a chart, and an administrator's start is marked as pending.
unfoldable pub IsStuck : Actor → Type 0
IsStuck s = (s.state.lifecycle ≡ select_chart) × (s.state.control.admin_start_pending ≡ true)

-- No timeout and no command other than `RemoveUser` and `KickUser` leads a room out of that state.
pub execute-IsStuck :
    (env : Env) (c : Command) (s : Actor) → IsStuck s → IsStuck ((execute env c s).actor)
unfolding execute register_progress prune tell_progress add_user join set_lock set_cycle set_hidden
    set_live set_degraded set_tournament set_persistent_empty set_endpoint set_chart
    set_chart_duration set_display_name set_max_users set_host clear_chart bump guarded set_ready
    cancel_ready submit_result late_result commit_result abort_round host_start start_room
    enter_ready_phase cancel_start check_all_ready ready_timeout playing_timeout IsStuck
execute-IsStuck env _ s (e, f) = ground (arith, e, f)

-- An administrator's start of a room that selects a chart, with a chart and no such start pending, that the
-- round store does not take: the room waits for its players again, none of them ready, without the mark of
-- the administrator's start in its phase, while the control state still has it as pending.
start_room-failed :
    (env : Env) (s : Actor) (c : ℤ)
    → s.state.lifecycle ≡ select_chart
    → s.state.control.admin_start_pending ≡ false
    → s.state.chart ≡ some c
    → env.round_opened ≡ false
    → ((start_room env s).actor.state.lifecycle ≡ wait_for_ready [] false)
      × ((start_room env s).actor.state.control.admin_start_pending ≡ true)
unfolding start_room check_all_ready try_start fail_start name_round finish_admin_start
    enter_waiting bump
start_room-failed env s c e f g h = ground (arith, e, f, g, h)

-- The settlement of a round leaves the mark as it is.
pub settle-IsStuck :
    (env : Env) (s : Actor) → s.state.control.admin_start_pending ≡ true → IsStuck (settle env s).0
unfolding settle end_round cycle_host IsStuck
settle-IsStuck env s h = ground (arith, h)
