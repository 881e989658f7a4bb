-- ===== src/Room/Departure.antt =====
-- phira-mp-plus-server/src/room_actor/handler.rs, `execute_with_actor`: the commands that remove a member,
-- and `on_user_leave` of room.rs. The snapshot that is asked for `persistent_empty` is taken to agree with
-- the room. The touches and judges of the player, the managed room's service and the plugins are left out.
use phira_mp_plus.Common.{
  List, [], ◌∷◌, ◌++◌, Bool, true, false, not, ◌&&◌, Option, none, some, ℤ, negsuc, beq_ℤ, ok, ◌||◌,
  if◌then◌else◌, retain,
}
use phira_mp_plus.Wire.Commands.Message.{Message}
use phira_mp_plus.Wire.Commands.RoomData.{RoomEvent}
use phira_mp_plus.Room.State.{
  Actor, Peer, Env, Effect, say, say_players, remove_room, host_transferred, user_kicked_from_room,
  tell_left, tell_host, publish_update, room_event, bump,
}
use phira_mp_plus.Room.Ids.{has, remove_id, remove_key}
use phira_mp_plus.Room.Rounds.{find_peer, no_update}
use phira_mp_plus.Room.Start.{check_all_ready}
use phira_mp_plus.Room.Play.{is_host}
use phira_mp_plus.Room.Answer.{
  Origin, Step, refuse, guarded, user_not_found, user_not_in_room, user_removed, user_kicked,
}

-- The connected user, first among the users and then among the monitors.
unfoldable pub find_member : ℤ → Env → Option Peer
find_member uid env = elim (find_peer uid (env.peers)) [
  | some u ↦ some u
  | none ↦ find_peer uid (env.watchers)
]

unfoldable pub without : ℤ → List Peer → List Peer
without uid = retain (λ u. not (beq_ℤ (u.id) uid))

-- The connections after `on_user_leave`; `monitor` is the user's own flag.
unfoldable pub leave : ℤ → Bool → Env → Env
leave uid monitor env =
    if monitor
    then record env { watchers = without uid (env.watchers) }
    else record env { peers = without uid (env.peers) }

abbrev pub is_empty : List Peer → Bool
is_empty [] = true
is_empty (u ∷ us) = false

-- `should_drop`: the last user has left, and the room is not kept.
unfoldable pub should_drop : ℤ → Bool → Env → Actor → Bool
should_drop uid monitor env s =
    not monitor
    && is_empty ((leave uid monitor env).peers)
    && not (s.state.control.persistent_empty)

-- What `on_user_leave` says.
unfoldable pub farewell : Peer → Bool → Effect
farewell u monitor =
    if monitor
    then say_players (Message.leave_room (u.id) (u.name))
    else say (Message.leave_room (u.id) (u.name))

-- What follows it: a room that is dropped is removed, and the room monitors hear of a player.
unfoldable pub follow_up : Env → Peer → Bool → Bool → List Effect
follow_up env u monitor dropped =
    (if dropped then remove_room ∷ [] else [])
    ++ (if not monitor then room_event (RoomEvent.leave_room (env.room_id) (u.id)) ∷ [] else [])

-- The member is forgotten, connected or not.
unfoldable pub strike : ℤ → Actor → Actor
strike uid s = record s {
  display_names = remove_key uid (s.display_names);
  state = record (s.state) {
    users = remove_id uid (s.state.users);
    monitors = remove_id uid (s.state.monitors);
  };
}

unfoldable pub unsubscribe : ℤ → Actor → Actor
unsubscribe uid s = record s {
  state = record (s.state) { progress_subscribers = remove_key uid (s.state.progress_subscribers) };
}

-- The host that a room gets when its host has left: its first user, or in an empty room that is kept the
-- system.
unfoldable pub transfer_host : List Peer → Actor → Actor × List Effect
transfer_host (next ∷ us) s =
    let bumped = bump s in
    (
      record bumped {
        state = record (bumped.state) {
          control = record (bumped.state.control) { host_id = some (next.id); system_host = false };
        };
      },
      host_transferred (next.name)
          ∷ say (Message.new_host (next.id))
          ∷ tell_host (next.id) true
          ∷ publish_update (record no_update { host = some (next.id) })
          ∷ [],
    )
transfer_host [] s =
    let bumped = bump s in
    if s.state.control.persistent_empty
    then (
      record bumped {
        state = record (bumped.state) {
          control = record (bumped.state.control) { host_id = none; system_host = true };
        };
      },
      say (Message.new_host (negsuc 0))
          ∷ publish_update (record no_update { host = some (negsuc 0) })
          ∷ [],
    )
    else (s, [])

-- The host is replaced if it is the one who left; a tournament keeps it.
unfoldable pub replace_host : ℤ → Bool → List Peer → Actor → Actor × List Effect
replace_host uid dropped remaining s =
    if not dropped && is_host s uid && not (s.state.control.tournament)
    then transfer_host remaining s
    else (s, [])

-- The departure of a connected user, from the state whose sequence number is already raised.
unfoldable pub depart : Env → Peer → ℤ → Bool → Actor → Step
depart env u uid monitor s =
    let after = leave uid monitor env in
    let dropped = should_drop uid monitor env s in
    let replaced = replace_host uid dropped (after.peers) (unsubscribe uid (strike uid s)) in
    let checked = check_all_ready after (replaced.0) in
    record {
      actor = checked.0;
      effects =
          (if is_host s uid then tell_host uid false ∷ [] else [])
          ++ farewell u monitor ∷ follow_up env u monitor dropped
          ++ replaced.1
          ++ checked.1.0;
      answer = ok (user_removed uid dropped);
    }

-- The removal of a member without a connection.
unfoldable pub remove_ghost : ℤ → Actor → Step
remove_ghost uid s =
    if has uid (s.state.users) || has uid (s.state.monitors)
    then record { actor = strike uid s; effects = []; answer = ok (user_removed uid false) }
    else refuse user_not_found s

-- `RemoveUser`
unfoldable pub remove_user : Env → ℤ → Bool → Origin → Actor → Step
remove_user env uid monitor origin s = guarded env origin uid s (elim (find_member uid env) [
  | none ↦ remove_ghost uid (bump s)
  | some u ↦ depart env u uid monitor (bump s)
])

-- A kicked user loses the name, and as a host the room, but not the place in the lists of members.
unfoldable pub expel : Env → Peer → ℤ → Bool → Actor → Step
expel env u uid monitor s =
    let after = leave uid monitor env in
    let dropped = should_drop uid monitor env s in
    let unnamed = record s { display_names = remove_key uid (s.display_names) } in
    let replaced =
      if not dropped && is_host unnamed uid
      then transfer_host (after.peers) unnamed
      else (unnamed, []) in
    record {
      actor = replaced.0;
      effects =
          user_kicked_from_room (u.name)
            ∷ farewell u monitor
            ∷ tell_left uid
            ∷ follow_up env u monitor dropped
          ++ replaced.1;
      answer = ok (user_kicked uid (u.name) dropped);
    }

-- `KickUser`
unfoldable pub kick_user : Env → ℤ → Bool → Actor → Step
kick_user env uid monitor s = elim (find_member uid env) [
  | none ↦ refuse user_not_in_room s
  | some u ↦ expel env u uid monitor (bump s)
]
