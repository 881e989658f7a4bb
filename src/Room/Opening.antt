-- ===== src/Room/Opening.antt =====
-- phira-mp-plus-server/src/room_actor/handler.rs: when a round begins.
use phira_mp_plus.Common.{◌≡◌, false, arith}
use phira_mp_plus.Room.State.{Actor, Env, bump}
use phira_mp_plus.Room.Answer.{guarded}
use phira_mp_plus.Room.Start.{
  check_all_ready, try_start, fail_start, force_start_playing, force_end_playing, ready_timeout,
  playing_timeout, force_open, fail_force,
}
use phira_mp_plus.Room.Play.{
  set_ready, cancel_ready, submit_result, late_result, commit_result, abort_round, host_start,
  start_room, enter_ready_phase, cancel_start, enter_waiting,
}
use phira_mp_plus.Room.Settings.{
  set_lock, set_cycle, set_hidden, set_live, set_degraded, set_tournament, set_persistent_empty,
  set_endpoint, set_chart, set_chart_duration, set_display_name, set_host, set_max_users,
  clear_chart,
}
use phira_mp_plus.Room.Members.{add_user, join}
use phira_mp_plus.Room.Progress.{register_progress, prune, tell_progress}
use phira_mp_plus.Room.Commands.{Command, execute}
use phira_mp_plus.Room.WellFormed.{is_playing}

-- While the round store takes no round.
force_start_playing-opened :
    (env : Env) (s : Actor)
    → env.round_opened ≡ false
    → is_playing (s.state.lifecycle) ≡ false
    → is_playing ((force_start_playing env s).0.state.lifecycle) ≡ false
unfolding force_start_playing force_open fail_force
force_start_playing-opened env s h p = ground (arith, h, p)

check_all_ready-opened :
    (env : Env) (s : Actor)
    → env.round_opened ≡ false
    → is_playing (s.state.lifecycle) ≡ false
    → is_playing ((check_all_ready env s).0.state.lifecycle) ≡ false
unfolding check_all_ready try_start fail_start
check_all_ready-opened env s h p = ground (arith, h, p)

-- No timeout and no command other than `RemoveUser` and `KickUser` begins a round that the round
-- store has not taken.
pub execute-opened :
    (env : Env) (c : Command) (s : Actor)
    → env.round_opened ≡ false
    → is_playing (s.state.lifecycle) ≡ false
    → is_playing ((execute env c s).actor.state.lifecycle) ≡ false
unfolding execute register_progress prune tell_progress add_user join set_lock set_cycle set_hidden
    set_live set_degraded set_tournament set_persistent_empty set_endpoint set_chart
    set_chart_duration set_display_name set_max_users set_host clear_chart bump guarded set_ready
    cancel_ready submit_result late_result commit_result abort_round host_start start_room
    enter_ready_phase cancel_start ready_timeout playing_timeout enter_waiting force_end_playing
    check_all_ready try_start fail_start
execute-opened env (Command.ready_timeout) s h p =
    ground (arith, h, p, force_start_playing-opened env s)
execute-opened env _ s h p = ground (arith, h, p)
