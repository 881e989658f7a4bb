-- ===== src/Room/Members.antt =====
-- phira-mp-plus-server/src/room_actor/handler.rs, `execute_with_actor`: the command that adds a member.
use phira_mp_plus.Common.{
  ℕ, ◌+◌, [], ◌∷◌, ◌++◌, Bool, true, false, not, ◌&&◌, some, ℤ, ok, if◌then◌else◌, leb, length,
}
use phira_mp_plus.Room.State.{Actor, Env, bump}
use phira_mp_plus.Room.Start.{is_hosted}
use phira_mp_plus.Room.Play.{is_none}
use phira_mp_plus.Room.Answer.{
  Origin, Step, refuse, guarded, reconciliation_pending, not_in_whitelist, room_full, user_added,
}

-- The limit on the room's users: that of its managed definition, or its own.
unfoldable pub capacity : Env → Actor → ℕ
capacity env s = if is_none env.managed then s.state.control.max_users else env.managed_max_users

-- The new member of a live room; the first user of a hosted room without a host becomes its host.
unfoldable pub join : Env → ℤ → Bool → Actor → Actor
join env uid monitor s =
    let alive = record s { state = record (s.state) { live = true } } in
    let added = record alive {
      state = record (alive.state) { users = alive.state.users ++ uid ∷ [] };
    } in
    if monitor
    then record alive {
      state = record (alive.state) { monitors = alive.state.monitors ++ uid ∷ [] };
    }
    else if is_hosted env.managed && is_none (added.state.control.host_id)
    then record added {
      state = record (added.state) {
        control = record (added.state.control) { host_id = some uid; system_host = false };
      };
    }
    else added

-- `AddUser`
unfoldable pub add_user : Env → ℤ → Bool → Origin → Actor → Step
add_user env uid monitor origin s =
    let current_count = length (s.state.users) in
    if s.state.degraded
    then refuse reconciliation_pending s
    else guarded env origin uid s (
        if not (is_none env.managed) && not (env.admits uid) && not monitor
        then refuse not_in_whitelist s
        else if leb (capacity env s) current_count && not monitor
        then refuse room_full s
        else record {
          actor = join env uid monitor (bump s);
          effects = [];
          answer = ok (user_added uid monitor (leb (capacity env s) (current_count + 1)));
        })
