-- ===== src/Room/Commands.antt =====
-- phira-mp-plus-server/src/room_actor/handler.rs: the commands of a room and the steps of the periodic
-- maintenance of its mailbox (`run_lifecycle_maintenance`), as steps of its state. `RemoveUser` and `KickUser`, which may move
-- the sequence number twice, are in Departure; `CloseRoom` and the telemetry are not among them.
use phira_mp_plus.Common.{ℕ, [], Bool, Option, ℤ, ok}
use phira_mp_plus.Wire.Text.{Text}
use phira_mp_plus.Wire.Commands.RoomData.{Record}
use phira_mp_plus.Room.State.{Actor, Env, bump}
use phira_mp_plus.Room.Start
use phira_mp_plus.Room.Start.{check_all_ready}
use phira_mp_plus.Room.Answer
use phira_mp_plus.Room.Answer.{Origin, Step}
use phira_mp_plus.Room.Play
use phira_mp_plus.Room.Settings
use phira_mp_plus.Room.Members
use phira_mp_plus.Room.Progress

-- `RoomActorCommand`, and the four steps of the maintenance: `prune`, the two timeouts, `tell_progress`.
pub data Command : Type 0 where
  set_lock set_cycle : Bool → ℤ → Origin → Command
  set_hidden set_live set_degraded set_tournament set_persistent_empty : Bool → Command
  set_endpoint : Option Text → Command
  set_chart : Bool → ℤ → Text → ℤ → Origin → Command
  set_chart_duration : Option ℕ → Command
  set_display_name : ℤ → Text → Command
  set_max_users : ℕ → Command
  set_host : Option ℤ → Command
  set_ready cancel_ready abort_round host_start : ℤ → Origin → Command
  add_user : ℤ → Bool → Origin → Command
  submit_result : Record → Origin → Command
  clear_chart start_room enter_ready_phase cancel_start check_ready : Command
  register_progress : ℤ → Command
  prune ready_timeout playing_timeout tell_progress : Command

-- The new state, with what is sent.
unfoldable pub execute : Env → Command → Actor → Step
execute env (set_lock b uid o) s = Settings.set_lock env b uid o s
execute env (set_cycle b uid o) s = Settings.set_cycle env b uid o s
execute env (set_hidden b) s = Settings.set_hidden b s
execute env (set_live b) s = Settings.set_live b s
execute env (set_degraded b) s = Settings.set_degraded b s
execute env (set_tournament b) s = Settings.set_tournament b s
execute env (set_persistent_empty b) s = Settings.set_persistent_empty b s
execute env (set_endpoint e) s = Settings.set_endpoint e s
execute env (set_chart pool c n uid o) s = Settings.set_chart env pool c n uid o s
execute env (set_chart_duration d) s = Settings.set_chart_duration d s
execute env (set_display_name uid n) s = Settings.set_display_name uid n s
execute env (set_max_users n) s = Settings.set_max_users n s
execute env (set_host h) s = Settings.set_host env h s
execute env (set_ready uid o) s = Play.set_ready env uid o s
execute env (cancel_ready uid o) s = Play.cancel_ready env uid o s
execute env (abort_round uid o) s = Play.abort_round env uid o s
execute env (host_start uid o) s = Play.host_start env uid o s
execute env (submit_result r o) s = Play.submit_result env r o s
execute env (add_user uid monitor o) s = Members.add_user env uid monitor o s
execute env clear_chart s = Settings.clear_chart s
execute env start_room s = Play.start_room env s
execute env enter_ready_phase s = Play.enter_ready_phase env s
execute env cancel_start s = Play.cancel_start env s
execute env check_ready s =
    let checked = check_all_ready env (bump s) in
    record { actor = checked.0; effects = checked.1.0; answer = ok Answer.empty }
execute env (register_progress uid) s = Progress.register_progress env uid s
execute env prune s = record { actor = Progress.prune s; effects = []; answer = ok Answer.empty }
execute env tell_progress s = Progress.tell_progress env s
execute env ready_timeout s =
    let forced = Start.ready_timeout env s in
    record { actor = forced.0; effects = forced.1; answer = ok Answer.empty }
execute env playing_timeout s =
    let forced = Start.playing_timeout env s in
    record { actor = forced.0; effects = forced.1; answer = ok Answer.empty }
