-- ===== src/Session/Gate.antt =====
-- phira-mp-plus-server/src/session.rs: `SessionOutboundGate`, which holds back what is sent to a client
-- until the client has its `Authenticate(Ok)`. A `u64` and a `usize` are below 2 ^ 64; the clock counts
-- milliseconds.
pub mod Bounds
pub mod Limits
pub mod Order
pub mod Activation
pub mod Delivery
use phira_mp_plus.Common.{
  ℕ, ◌+◌, ◌-◌, ◌%◌, ◌^◌, List, [], ◌∷◌, ◌++◌, Bool, true, false, not, ◌||◌, ◌&&◌, Option, none,
  some, if◌then◌else◌, ltb, leb, length, min,
}
use phira_mp_plus.Wire.Frame.{encode_packet}
use phira_mp_plus.Wire.Commands.Message
use phira_mp_plus.Wire.Commands.Message.{Message}
use phira_mp_plus.Wire.Commands.Server
use phira_mp_plus.Wire.Commands.Server.{ServerCommand, server_command_data}

-- `GateEventClass`
pub data EventClass : Type 0 where
  snapshot_covered non_snapshot telemetry : EventClass

unfoldable pub is_high_frequency_telemetry : ServerCommand → Bool
is_high_frequency_telemetry (ServerCommand.touches player frames) = true
is_high_frequency_telemetry (ServerCommand.judges player events) = true
is_high_frequency_telemetry ServerCommand.pong = true
is_high_frequency_telemetry _ = false

-- The arms of `classify_command` on `ServerCommand::Message`.
unfoldable pub classify_message : Message → EventClass
classify_message (Message.join_room user name) = snapshot_covered
classify_message (Message.leave_room user name) = snapshot_covered
classify_message (Message.new_host user) = snapshot_covered
classify_message (Message.lock_room lock) = snapshot_covered
classify_message (Message.cycle_room cycle) = snapshot_covered
classify_message (Message.select_chart user name id) = snapshot_covered
classify_message _ = non_snapshot

-- `classify_command`
unfoldable pub classify_command : ServerCommand → EventClass
classify_command cmd = if is_high_frequency_telemetry cmd then telemetry else elim cmd [
  | ServerCommand.change_host host ↦ snapshot_covered
  | ServerCommand.change_state state ↦ snapshot_covered
  | ServerCommand.lock_room result ↦ snapshot_covered
  | ServerCommand.cycle_room result ↦ snapshot_covered
  | ServerCommand.select_chart result ↦ snapshot_covered
  | ServerCommand.on_join_room user ↦ snapshot_covered
  | ServerCommand.message m ↦ classify_message m
  | _ ↦ non_snapshot
]

abbrev pub is_covered : EventClass → Bool
is_covered snapshot_covered = true
is_covered non_snapshot = false
is_covered telemetry = false

abbrev pub is_telemetry : EventClass → Bool
is_telemetry snapshot_covered = false
is_telemetry non_snapshot = false
is_telemetry telemetry = true

-- `real_size`; the encoder of a `ServerCommand` never fails.
unfoldable pub real_size : ServerCommand → ℕ
real_size cmd = length (encode_packet server_command_data cmd [])

pub record GateEntry : Type 0 where
  pub cmd : ServerCommand
  pub seq : ℕ
  pub class : EventClass
  pub room_seq : Option ℕ

pub record GatePending : Type 0 where
  pub events : List GateEntry
  pub bytes : ℕ
  pub next_seq : ℕ
  pub cutover_seq : ℕ

-- `SessionOutboundGate`
pub record Gate : Type 0 where
  pub activated : Bool
  pub pending : GatePending
  pub created_at : ℕ
  pub max_pending_events : ℕ
  pub max_pending_bytes : ℕ
  pub max_auth_duration : ℕ
  pub overflowed : Bool

-- `SessionOutboundGate::new`, at the instant `now`.
unfoldable pub new : ℕ → ℕ → ℕ → ℕ → Gate
new max_events max_bytes max_duration now = record {
  activated = false;
  pending = record { events = []; bytes = 0; next_seq = 1; cutover_seq = 0 };
  created_at = now;
  max_pending_events = max_events;
  max_pending_bytes = max_bytes;
  max_auth_duration = max_duration;
  overflowed = false;
}

-- `usize::saturating_add`
abbrev pub saturating_add : ℕ → ℕ → ℕ
saturating_add a b = min (a + b) (2 ^ 64 - 1)

-- The test that ends the loop of `push_bounded`: a packet of `size` bytes has room.
unfoldable pub has_room : ℕ → ℕ → ℕ → List GateEntry → ℕ → Bool
has_room max_events max_bytes size events bytes =
    ltb (length events) max_events && leb (saturating_add bytes size) max_bytes

-- `over_limit`
unfoldable pub over_limit : Gate → ℕ → Bool
over_limit gate size =
    leb (gate.max_pending_events) (length (gate.pending.events))
    || ltb (gate.max_pending_bytes) (saturating_add (gate.pending.bytes) size)

-- The loop of `push_bounded`: the oldest entries go until there is room; the last component says whether
-- there is room in the end.
unfoldable pub make_room : ℕ → ℕ → ℕ → List GateEntry → ℕ → List GateEntry × ℕ × Bool
make_room max_events max_bytes size [] bytes =
    ([], bytes, has_room max_events max_bytes size [] bytes)
make_room max_events max_bytes size (e ∷ es) bytes =
    let shorter = make_room max_events max_bytes size es (bytes - real_size (e.cmd)) in
    if has_room max_events max_bytes size (e ∷ es) bytes then (e ∷ es, bytes, true) else shorter

-- The entry that `push_bounded` makes of a command; the sequence number of the room is kept only with the
-- commands that a snapshot covers.
unfoldable pub entry_of : ℕ → ServerCommand → Option ℕ → GateEntry
entry_of seq cmd room_seq = record {
  cmd = cmd;
  seq = seq;
  class = classify_command cmd;
  room_seq = if is_covered (classify_command cmd) then room_seq else none;
}

-- The end of `push_bounded`, from the entries that are kept and their size.
unfoldable pub append_entry : GateEntry → List GateEntry → ℕ → Gate → Gate
append_entry entry events bytes gate = record gate {
  pending = record (gate.pending) {
    events = events ++ entry ∷ [];
    bytes = bytes + real_size (entry.cmd);
    next_seq = (gate.pending.next_seq + 1) % 2 ^ 64;
  };
}

-- The packet is not kept.
unfoldable pub drop_packet : List GateEntry → ℕ → Bool → Gate → Gate
drop_packet events bytes overflow gate = record gate {
  pending = record (gate.pending) {
    events = events;
    bytes = bytes;
    next_seq = (gate.pending.next_seq + 1) % 2 ^ 64;
  };
  overflowed = gate.overflowed || overflow;
}

-- `push_bounded`
unfoldable pub push_bounded : ServerCommand → Option ℕ → Gate → Gate
push_bounded cmd room_seq gate =
    let entry = entry_of (gate.pending.next_seq) cmd room_seq in
    let size = real_size cmd in
    let room =
      make_room (gate.max_pending_events) (gate.max_pending_bytes) size (gate.pending.events)
        (gate.pending.bytes) in
    if over_limit gate size
    then (if is_telemetry (entry.class)
        then drop_packet (gate.pending.events) (gate.pending.bytes) false gate
        else if room.2
        then append_entry entry (room.0) (room.1) gate
        else drop_packet (room.0) (room.1) true gate)
    else append_entry entry (gate.pending.events) (gate.pending.bytes) gate

-- A frame in the send queue of the client's connection, and whether its flush is confirmed.
pub record Sent : Type 0 where
  pub cmd : ServerCommand
  pub flushed : Bool

-- The test of `activate` for what the room's snapshot contains.
unfoldable pub in_snapshot : ℕ → GateEntry → Bool
in_snapshot cutover e =
    is_covered (e.class) && elim (e.room_seq) [ none ↦ false | some r ↦ leb r cutover ]

-- How a send ends: it succeeds, it fails, or its time is over. The last two say whether the frame is in the
-- connection's queue all the same, as it may be if only its flush fails.
pub data Answer : Type 0 where
  accepted : Answer
  refused timed_out : Bool → Answer

abbrev pub is_accepted : Answer → Bool
is_accepted accepted = true
is_accepted (refused queued) = false
is_accepted (timed_out queued) = false

-- `send`, which only queues the frame.
unfoldable pub plain_send : Answer → ServerCommand → List Sent
plain_send answer cmd = elim answer [
  | accepted ↦ record { cmd = cmd; flushed = false } ∷ []
  | refused queued ↦ []
  | timed_out queued ↦ []
]

-- `send_and_flush`
unfoldable pub flushed_send : Answer → ServerCommand → List Sent
flushed_send answer cmd =
    let unflushed : List Sent = record { cmd = cmd; flushed = false } ∷ [] in
    elim answer [
      | accepted ↦ record { cmd = cmd; flushed = true } ∷ []
      | refused queued ↦ if queued then unflushed else []
      | timed_out queued ↦ if queued then unflushed else []
    ]

-- A state packet is flushed, any other only queued.
unfoldable pub send_entry : Answer → GateEntry → List Sent
send_entry answer e =
    if is_covered (e.class) then flushed_send answer (e.cmd) else plain_send answer (e.cmd)

-- The loop of `activate`; `sink n` says how the `n`-th send ends.
unfoldable pub drain : ℕ → (ℕ → Answer) → ℕ → List GateEntry → List Sent × Bool
drain cutover sink n [] = ([], true)
drain cutover sink n (e ∷ es) =
    let skipped = drain cutover sink n es in
    let later = drain cutover sink (n + 1) es in
    let sent = send_entry (sink n) e in
    if in_snapshot cutover e
    then skipped
    else if is_accepted (sink n)
    then (sent ++ later.0, later.1)
    else (sent, false)

-- The emptied gate.
unfoldable pub emptied : Bool → Gate → Gate
emptied activated gate = record gate {
  activated = activated;
  pending = record (gate.pending) { events = []; bytes = 0 };
}

-- `activate`: the gate, the packets that went out, and whether it returns `Ok`.
unfoldable pub activate : (ℕ → Answer) → Gate → Gate × List Sent × Bool
activate sink gate =
    let drained = drain (gate.pending.cutover_seq) sink 0 (gate.pending.events) in
    if gate.overflowed
    then (emptied false gate, [], false)
    else (emptied drained.1 gate, drained.0, drained.1)

-- `begin_room_cutover`
unfoldable pub begin_room_cutover : ℕ → Gate → Gate
begin_room_cutover snapshot_seq gate = record gate {
  pending = record (gate.pending) { cutover_seq = snapshot_seq };
}

-- `auth_duration_exceeded`
unfoldable pub auth_duration_exceeded : ℕ → Gate → Bool
auth_duration_exceeded now gate = ltb (gate.max_auth_duration) (now - gate.created_at)
