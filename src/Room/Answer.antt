-- ===== src/Room/Answer.antt =====
-- phira-mp-plus-server/src/room_actor/handler.rs and result.rs: what a command answers, and the two checks
-- that every command of a session makes first (`deadline_refused`, `origin_stale`).
use phira_mp_plus.Common.{
  ℕ, ◌==◌, List, [], Bool, true, false, not, ◌||◌, ◌&&◌, Option, none, some, ℤ, Result, err,
  if◌then◌else◌,
}
use phira_mp_plus.Wire.Text.{Text}
use phira_mp_plus.Wire.Containers.{Uuid}
use phira_mp_plus.Room.State.{Actor, Env, Effect}

-- `RoomOrigin`: the session that a command comes from and the generation it was bound with.
abbrev pub Origin : Type 0
Origin = Option (Uuid × ℕ)

-- The error texts.
pub data Refusal : Type 0 where
  deadline_elapsed stale_origin already_ready not_ready round_start_failed user_aborted
        already_uploaded :
      Refusal
  already_aborted not_playing reserved_room managed_chart not_selecting_chart
        admin_start_in_progress no_chart :
      Refusal
  chart_outside_select_chart invalid_capacity capacity_below_users : Refusal
  reconciliation_pending not_in_whitelist room_full user_not_found user_not_in_room : Refusal

-- `RoomCommandPayload`, without the room's id.
pub data Payload : Type 0 where
  empty room_started host_started chart_duration_set progress_registered : Payload
  user_ready user_not_ready round_aborted chart_selected : ℤ → Payload
  result_submitted : ℤ → ℤ → Payload
  user_added : ℤ → Bool → Bool → Payload
  user_removed : ℤ → Bool → Payload
  user_kicked : ℤ → Text → Bool → Payload
  endpoint_changed : Text → Option Text → Bool → Payload
  display_name_set : ℤ → Text → Payload
  host_changed : Option ℤ → Text → Bool → Payload
  cancel_result lock_changed cycle_changed hidden_changed live_changed persistent_empty_changed :
      Bool → Payload

-- The state after a command, what it sent and what it answers.
pub record Step : Type 0 where
  pub actor : Actor
  pub effects : List Effect
  pub answer : Result Refusal Payload

abbrev pub refuse : Refusal → Actor → Step
refuse e s = record { actor = s; effects = []; answer = err e }

abbrev same_session : Option Uuid → Uuid → Bool
same_session none u = false
same_session (some v) u = (v.high == u.high) && (v.low == u.low)

-- `origin_token_stale`
unfoldable pub origin_token_stale : Origin → ℕ → Option Uuid → Bool
origin_token_stale none binding_generation bound = false
origin_token_stale (some (session_id, generation)) binding_generation bound =
    not (binding_generation == generation) || not (same_session bound session_id)

-- `origin_stale`
unfoldable pub origin_stale : Env → Origin → ℤ → Bool
origin_stale env none uid = false
origin_stale env (some token) uid = elim (env.binding uid) [
  | none ↦ true
  | some (generation, bound) ↦ origin_token_stale (some token) generation bound
]

-- The two refusals before the commit of a session's command.
unfoldable pub guarded : Env → Origin → ℤ → Actor → Step → Step
guarded env origin uid s committed =
    if env.late
    then refuse deadline_elapsed s
    else if origin_stale env origin uid
    then refuse stale_origin s
    else committed
