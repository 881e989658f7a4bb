-- ===== src/Room/Sequence.antt =====
-- phira-mp-plus-server/src/room_actor/handler.rs: the sequence number of a room's events
-- (`bump_room_seq`).
use phira_mp_plus.Common.{◌+◌, ◌%◌, ◌^◌, ◌≡◌, ◌⊎◌, arith}
use phira_mp_plus.Room.State.{Actor, Env, bump}
use phira_mp_plus.Room.Answer.{guarded}
use phira_mp_plus.Room.Start.{
  check_all_ready, try_start, fail_start, name_round, finish_admin_start, enter_playing,
  force_start_playing, force_end_playing, ready_timeout, playing_timeout, force_open, begin_forced,
  fail_force, open_forced, name_forced, monitor_unready,
}
use phira_mp_plus.Room.Rounds.{settle, end_round, cycle_host, set_playing_deadline}
use phira_mp_plus.Room.Play.{
  set_ready, cancel_ready, submit_result, late_result, commit_result, abort_round, host_start,
  start_room, enter_ready_phase, cancel_start, enter_waiting, extend_deadline,
}
use phira_mp_plus.Room.Settings.{
  set_lock, set_cycle, set_hidden, set_live, set_degraded, set_tournament, set_persistent_empty,
  set_endpoint, set_chart, set_chart_duration, set_display_name, set_host, set_max_users,
  clear_chart,
}
use phira_mp_plus.Room.Members.{add_user, join}
use phira_mp_plus.Room.Progress.{register_progress, prune, tell_progress}
use phira_mp_plus.Room.Commands.{Command, execute}

settle-seq :
    (env : Env) (s : Actor) → (settle env s).0.state.room_event_seq ≡ s.state.room_event_seq
unfolding settle end_round cycle_host
settle-seq env s = ground arith

check_all_ready-seq :
    (env : Env) (s : Actor)
    → (check_all_ready env s).0.state.room_event_seq ≡ s.state.room_event_seq
unfolding check_all_ready try_start fail_start name_round finish_admin_start enter_playing
    set_playing_deadline
check_all_ready-seq env s = ground (arith, settle-seq env s)

-- Either the sequence number of the room's events has moved on by one, or the room's phase, its chart, its
-- host and its lock are as they were.
abbrev pub IsAnnounced : Actor → Actor → Type 0
IsAnnounced s t =
    (t.state.room_event_seq ≡ (s.state.room_event_seq + 1) % 2 ^ 64)
    ⊎ ((t.state.lifecycle ≡ s.state.lifecycle)
        × (t.state.chart ≡ s.state.chart)
        × (t.state.control.host_id ≡ s.state.control.host_id)
        × (t.state.control.locked ≡ s.state.control.locked))

-- The state of a room that its users see changes in a command other than `RemoveUser` and
-- `KickUser`, and in a timeout, only with the sequence number, which moves by one.
pub execute-IsAnnounced :
    (env : Env) (c : Command) (s : Actor) → IsAnnounced s ((execute env c s).actor)
unfolding execute register_progress prune tell_progress add_user join set_lock set_cycle set_hidden
    set_live set_degraded set_tournament set_persistent_empty set_endpoint set_chart
    set_chart_duration set_display_name set_max_users set_host clear_chart bump guarded set_ready
    cancel_ready submit_result late_result commit_result abort_round host_start start_room
    enter_ready_phase cancel_start ready_timeout playing_timeout enter_waiting extend_deadline
    check_all_ready try_start fail_start name_round finish_admin_start enter_playing
    set_playing_deadline settle end_round cycle_host force_start_playing force_open begin_forced
    fail_force open_forced name_forced monitor_unready force_end_playing
execute-IsAnnounced env _ s = ground arith
