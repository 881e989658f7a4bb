-- ===== src/Room/State.antt =====
-- phira-mp-plus-server/src/room.rs and room_actor/actor.rs: the state that a room's actor owns, what
-- a command reads from outside it, and what it sends.
use phira_mp_plus.Common.{ℕ, ◌+◌, ◌%◌, ◌^◌, List, Bool, Option, ℤ}
use phira_mp_plus.Wire.Text.{Text}
use phira_mp_plus.Wire.Containers.{Uuid}
use phira_mp_plus.Wire.Commands.Rooms.{RoomState}
use phira_mp_plus.Wire.Commands.RoomData.{StrippedRoomState, PartialRoomData, Record, RoomEvent}
use phira_mp_plus.Wire.Commands.Message.{Message}

-- `InternalRoomState`; a `HashSet` and a `HashMap` are lists without repetition.
pub data Lifecycle : Type 0 where
  select_chart : Lifecycle
  wait_for_ready : List ℤ → Bool → Lifecycle
  playing : List (ℤ × Record) → List ℤ → Lifecycle

-- `InternalRoomState::to_client`
unfoldable pub to_client : Lifecycle → Option ℤ → RoomState
to_client select_chart chart = RoomState.select_chart chart
to_client (wait_for_ready started admin) chart = RoomState.waiting_for_ready
to_client (playing results aborted) chart = RoomState.playing

-- `InternalRoomState::stripped`
unfoldable pub stripped : Lifecycle → StrippedRoomState
stripped select_chart = StrippedRoomState.selecting_chart
stripped (wait_for_ready started admin) = StrippedRoomState.waiting_for_ready
stripped (playing results aborted) = StrippedRoomState.playing

-- `RoomControlSnapshot`; `generation` is never written.
pub record Control : Type 0 where
  pub host_id : Option ℤ
  pub locked : Bool
  pub cycle : Bool
  pub hidden : Bool
  pub persistent_empty : Bool
  pub system_host : Bool
  pub phira_api_endpoint : Option Text
  pub admin_start_pending : Bool
  pub max_users : ℕ
  pub tournament : Bool

-- `RoomState` of room_actor/actor.rs, with the members as two lists. Times are milliseconds, and a
-- chart's duration is the bit pattern of its `f64`.
pub record Room : Type 0 where
  pub control : Control
  pub lifecycle : Lifecycle
  pub users : List ℤ
  pub monitors : List ℤ
  pub chart : Option ℤ
  pub chart_name : Option Text
  pub round_id : Option Uuid
  pub live : Bool
  pub degraded : Bool
  pub ready_countdown_started_at : Option ℕ
  pub playing_timeout_deadline : Option ℕ
  pub chart_duration : Option ℕ
  pub playing_started_at : Option ℕ
  pub progress_subscribers : List (ℤ × ℕ)
  pub room_event_seq : ℕ

-- `RoomActorState`, without the ids and the time of its creation, which no command writes.
pub record Actor : Type 0 where
  pub state : Room
  pub display_names : List (ℤ × Text)

-- A connected user, as `Room::users` and `Room::monitors` give it.
pub record Peer : Type 0 where
  pub id : ℤ
  pub name : Text

pub data ManagedKind : Type 0 where
  hosted reserved : ManagedKind

-- What one command reads from outside the actor, at the instant at which it runs: the connections, the
-- clock, the answers of the round store and of the persistence queue, and the configuration.
pub record Env : Type 0 where
  pub room_id : Text
  -- `Room::users` and `Room::monitors`.
  pub peers : List Peer
  pub watchers : List Peer
  -- The generation and the session of a registered user's binding.
  pub binding : ℤ → Option (ℕ × Option Uuid)
  pub now : ℕ
  -- `deadline_expired` of the command's deadline.
  pub late : Bool
  -- There is no round store, or its `open_round` returned `Ok` in time.
  pub round_opened : Bool
  -- The persistence worker took the round's results.
  pub round_enqueued : Bool
  pub managed : Option ManagedKind
  -- Of the same definition: `contains_user`, and `max_users`.
  pub admits : ℤ → Bool
  pub managed_max_users : ℕ
  -- What `Uuid::new_v4` returns.
  pub fresh_uuid : Uuid
  -- `ready_countdown_secs` and `playing_timeout_offset_secs`
  pub ready_countdown_secs : ℕ
  pub timeout_offset : ℕ
  -- `((duration + offset as f64) * 1000.0) as i64`, from the bits of the duration, or without one from
  -- the default duration.
  pub timeout_ms : Option ℕ → ℕ → ℕ

-- `PersistenceStatus`, as far as the room actor gives it.
pub data PersistenceStatus : Type 0 where
  pending_admission wal_admitted : PersistenceStatus

-- `PlayResult`
pub record PlayResult : Type 0 where
  pub user_id : ℤ
  pub user_name : Text
  pub record_id : ℤ
  pub score : ℤ
  pub accuracy : ℕ
  pub perfect : ℤ
  pub good : ℤ
  pub bad : ℤ
  pub miss : ℤ
  pub max_combo : ℤ
  pub full_combo : Bool
  pub aborted : Bool
  pub std : ℕ
  pub std_score : ℕ

-- `PlayRound`
pub record PlayRound : Type 0 where
  pub round_id : Uuid
  pub chart_id : ℤ
  pub chart_name : Text
  pub results : List PlayResult
  pub persistence_status : PersistenceStatus

-- What a command sends: to all (`send_msg`, `broadcast`), to one user (`try_send`), to the room monitors
-- and into the room's play history.
pub data Effect : Type 0 where
  say : Message → Effect
  change_state : RoomState → Effect
  tell_host : ℤ → Bool → Effect
  tell : ℤ → Message → Effect
  publish_update : PartialRoomData → Effect
  room_event : RoomEvent → Effect
  push_history : PlayRound → Effect
  -- The ranking of a finished round, which every user gets in their language.
  show_ranking : PlayRound → Effect
  -- `send_system_msg_simple("game-start-failed-retry")` and `("admin-started-game")`
  game_start_failed : Effect
  admin_started_game : Effect
  -- `send_system_msg` with "host-transferred-to" and the name of the new host.
  host_transferred : Text → Effect
  -- The same with "user-became-host", and `send_system_msg_simple("host-set-to-system")`.
  user_became_host : Text → Effect
  host_set_to_system : Effect
  -- The text of `send_progress_notice`, in the user's language.
  progress_notice : ℤ → Effect
  -- The same with "user-kicked-from-room", and `LeaveRoom(Ok(()))` to one user.
  user_kicked_from_room : Text → Effect
  tell_left : ℤ → Effect
  -- `broadcast_players`, and `remove_room`.
  say_players : Message → Effect
  remove_room : Effect
  -- `force_add_user(user, true)`
  move_to_monitors : ℤ → Effect

-- `bump_room_event_seq`; the counter is a `u64`.
unfoldable pub bump : Actor → Actor
bump s = record s {
  state = record (s.state) { room_event_seq = (s.state.room_event_seq + 1) % 2 ^ 64 };
}
