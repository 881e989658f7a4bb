-- ===== src/Session/Gate/Limits.antt =====
-- phira-mp-plus-server/src/session.rs: the limits of a gate, over any packets.
use phira_mp_plus.Common.{
  ℕ, ◌-◌, ◌^◌, ◌<◌, ◌≡◌, refl, List, [], ◌∷◌, ◌++◌, true, Option, arith, Bool-cases,
}
use phira_mp_plus.Wire.Commands.Server.{ServerCommand}
use phira_mp_plus.Session.Gate.{
  real_size, GateEntry, Gate, make_room, entry_of, append_entry, drop_packet, push_bounded, new,
}
use phira_mp_plus.Session.Gate.Bounds.{
  size_of, size_of-append, within, IsBounded, make_room-longest_end, make_room-overflow,
  make_room-size_of, within-longest_end, expected_events, push_bounded-expected,
}

push_bounded-size_of :
    (cmd : ServerCommand) (room_seq : Option ℕ) (gate : Gate)
    → IsBounded gate
    → (push_bounded cmd room_seq gate).pending.bytes
      ≡ size_of ((push_bounded cmd room_seq gate).pending.events)
unfolding push_bounded append_entry drop_packet entry_of size_of
push_bounded-size_of cmd room_seq gate b =
    let e = entry_of (gate.pending.next_seq) cmd room_seq in
    let me = gate.max_pending_events in
    let mb = gate.max_pending_bytes in
    let es = gate.pending.events in
    let room = make_room me mb (real_size cmd) es (gate.pending.bytes) in
    ground (
      arith,
      make_room-size_of gate b (real_size cmd),
      make_room-overflow me mb es e (b.limit_lt),
      make_room-longest_end me mb es e (b.limit_lt),
      size_of-append es (e ∷ []),
      size_of-append (room.0) (e ∷ []),
      Bool-cases (within me mb (e ∷ [])),
    )

within-held :
    (gate : Gate)
    → IsBounded gate
    → within (gate.max_pending_events) (gate.max_pending_bytes) (gate.pending.events) ≡ true
unfolding within
within-held gate b = ground arith

-- A packet changes no limit.
pub push_bounded_limits :
    (cmd : ServerCommand) (room_seq : Option ℕ) (gate : Gate)
    → ((push_bounded cmd room_seq gate).max_pending_events ≡ gate.max_pending_events)
      × ((push_bounded cmd room_seq gate).max_pending_bytes ≡ gate.max_pending_bytes)
unfolding push_bounded append_entry drop_packet
push_bounded_limits cmd room_seq gate = ground arith

IsBounded-of :
    (gate gate' : Gate)
    → IsBounded gate
    → (gate'.max_pending_events ≡ gate.max_pending_events)
      × (gate'.max_pending_bytes ≡ gate.max_pending_bytes)
    → within (gate.max_pending_events) (gate.max_pending_bytes) (gate'.pending.events) ≡ true
    → gate'.pending.bytes ≡ size_of (gate'.pending.events)
    → IsBounded gate'
unfolding within
IsBounded-of gate gate' b l w s = ground arith

within-expected_events :
    (gate : Gate) (e : GateEntry)
    → IsBounded gate
    → within (gate.max_pending_events) (gate.max_pending_bytes) (expected_events gate e) ≡ true
unfolding expected_events
within-expected_events gate e b =
    let held : within (gate.max_pending_events) (gate.max_pending_bytes) (gate.pending.events)
        ≡ true =
      within-held gate b in
    ground (
      arith,
      within-longest_end (gate.max_pending_events) (gate.max_pending_bytes)
          (gate.pending.events ++ e ∷ []),
    )

-- However a packet fits, the gate keeps to its two limits and counts its bytes.
pub push_bounded-IsBounded :
    (cmd : ServerCommand) (room_seq : Option ℕ) (gate : Gate)
    → IsBounded gate
    → IsBounded (push_bounded cmd room_seq gate)
push_bounded-IsBounded cmd room_seq gate b =
    IsBounded-of gate (push_bounded cmd room_seq gate) b (push_bounded_limits cmd room_seq gate)
      (rw (push_bounded-expected cmd room_seq gate b).0
        (within-expected_events gate (entry_of (gate.pending.next_seq) cmd room_seq) b))
      (push_bounded-size_of cmd room_seq gate b)

-- The packets of a run.
unfoldable pub push_all : List (ServerCommand × Option ℕ) → Gate → Gate
push_all [] gate = gate
push_all ((cmd, room_seq) ∷ packets) gate = push_all packets (push_bounded cmd room_seq gate)

pub push_all-IsBounded :
    (packets : List (ServerCommand × Option ℕ)) (gate : Gate)
    → IsBounded gate
    → IsBounded (push_all packets gate)
unfolding push_all
push_all-IsBounded [] gate b = b
push_all-IsBounded ((cmd, room_seq) ∷ packets) gate b =
    push_all-IsBounded packets (push_bounded cmd room_seq gate)
      (push_bounded-IsBounded cmd room_seq gate b)

pub new-IsBounded :
    (max_events max_bytes max_duration now : ℕ)
    → max_bytes < 2 ^ 64 - 1
    → IsBounded (new max_events max_bytes max_duration now)
unfolding new size_of
new-IsBounded max_events max_bytes max_duration now h = record {
  events_le = omega arith;
  bytes_le = omega arith;
  bytes_eq = refl;
  limit_lt = h;
}
