-- ===== src/Session/Gate/Delivery.antt =====
-- phira-mp-plus-server/src/session.rs: a gate from its creation to its opening.
use mathlib.Core.List.{map}
use phira_mp_plus.Common.{
  ℕ, ◌+◌, ◌%◌, ◌^◌, ◌-◌, ◌≤◌, ◌<◌, ◌≡◌, refl, List, [], ◌∷◌, Bool, true, false, not, ◌||◌, ◌&&◌,
  Option, none, some, arith, leb, length, retain, ◌∙◌, ◌⊎◌, ap,
}
use phira_mp_plus.Wire.Commands.Server.{ServerCommand}
use phira_mp_plus.Session.Gate.{
  is_covered, is_telemetry, classify_command, real_size, Gate, entry_of, push_bounded, Sent, Answer,
  accepted, in_snapshot, emptied, activate, begin_room_cutover, new,
}
use phira_mp_plus.Session.Gate.Bounds.{
  size_of, within, IsBounded, expected_overflow, push_bounded-expected,
}
use phira_mp_plus.Session.Gate.Limits.{
  push_bounded-IsBounded, push_bounded_limits, push_all, new-IsBounded,
}
use phira_mp_plus.Session.Gate.Activation.{
  delta, delivery, activate-delta, entries_of, push_all-fits,
}

-- A packet with the sequence number of the room at which it arose.
abbrev pub Packet : Type 0
Packet = ServerCommand × Option ℕ

-- A packet that tells what the snapshot does not contain: no state, no number, or a later number.
unfoldable pub is_news : ℕ → Packet → Bool
is_news snapshot_seq (cmd, room_seq) = not (
    is_covered (classify_command cmd)
    && elim room_seq [ none ↦ false | some r ↦ leb r snapshot_seq ])

unfoldable pub delivered : Packet → Sent
delivered (cmd, room_seq) = record { cmd = cmd; flushed = is_covered (classify_command cmd) }

unfoldable pub bytes_of : List Packet → ℕ
bytes_of [] = 0
bytes_of ((cmd, room_seq) ∷ packets) = real_size cmd + bytes_of packets

delta-entries_of :
    (snapshot_seq seq : ℕ) (packets : List Packet)
    → map delivery (delta snapshot_seq (entries_of seq packets))
      ≡ map delivered (retain (is_news snapshot_seq) packets)
unfolding delta entries_of entry_of in_snapshot is_news delivered
delta-entries_of snapshot_seq seq [] = refl
delta-entries_of snapshot_seq seq ((cmd, room_seq) ∷ packets) =
    ground (arith, delta-entries_of snapshot_seq ((seq + 1) % 2 ^ 64) packets)

length-entries_of :
    (seq : ℕ) (packets : List Packet) → length (entries_of seq packets) ≡ length packets
unfolding entries_of
length-entries_of seq [] = refl
length-entries_of seq ((cmd, room_seq) ∷ packets) =
    omega (arith, length-entries_of ((seq + 1) % 2 ^ 64) packets)

size_of-entries_of :
    (seq : ℕ) (packets : List Packet) → size_of (entries_of seq packets) ≡ bytes_of packets
unfolding entries_of entry_of size_of bytes_of
size_of-entries_of seq [] = refl
size_of-entries_of seq ((cmd, room_seq) ∷ packets) =
    omega (arith, size_of-entries_of ((seq + 1) % 2 ^ 64) packets)

entries_of-within :
    (me mb seq : ℕ) (packets : List Packet)
    → within me mb (entries_of seq packets) ≡ leb (length packets) me && leb (bytes_of packets) mb
unfolding within
entries_of-within me mb seq packets =
    rw (length-entries_of seq packets, size_of-entries_of seq packets)

-- The gate as the authentication opens it.
unfoldable pub opened :
    (sink : ℕ → Answer) (snapshot_seq : ℕ) → List Packet → Gate → Gate × List Sent × Bool
opened sink snapshot_seq packets gate =
    activate sink (begin_room_cutover snapshot_seq (push_all packets gate))

-- The entries of a new gate after packets that fit.
new-fits :
    (packets : List Packet) (max_events max_bytes max_duration now : ℕ)
    → max_bytes < 2 ^ 64 - 1
    → length packets ≤ max_events
    → bytes_of packets ≤ max_bytes
    → let gate = push_all packets (new max_events max_bytes max_duration now) in
      (gate.pending.events ≡ entries_of 1 packets) × (gate.overflowed ≡ false)
unfolding new
new-fits packets me mb duration now limit fits_events fits_bytes =
    push_all-fits packets (new me mb duration now) (new-IsBounded me mb duration now limit)
      (entries_of-within me mb 1 packets ∙ ground arith)

-- The opening of a gate without an overflow, by sends that succeed.
open-delta :
    (snapshot_seq : ℕ) (sink : ℕ → Answer) (gate : Gate)
    → gate.overflowed ≡ false
    → ((n : ℕ) → sink n ≡ accepted)
    → let result = activate sink (begin_room_cutover snapshot_seq gate) in
      (result.1 ≡ map delivery (delta snapshot_seq (gate.pending.events))) × (result.2 ≡ true)
unfolding begin_room_cutover
open-delta snapshot_seq sink gate o answers =
    ground (arith, activate-delta sink (begin_room_cutover snapshot_seq gate) answers)

-- If the packets that arrive before the opening fit into the gate and every send succeeds, then the client
-- gets, in their order, exactly those that tell what its snapshot of the room does not contain: chats and
-- telemetry all, and of the state each change after the snapshot, but none before it.
pub opened-is_news :
    (packets : List Packet) (snapshot_seq max_events max_bytes max_duration now : ℕ)
    (sink : ℕ → Answer)
    → max_bytes < 2 ^ 64 - 1
    → length packets ≤ max_events
    → bytes_of packets ≤ max_bytes
    → ((n : ℕ) → sink n ≡ accepted)
    → let result = opened sink snapshot_seq packets (new max_events max_bytes max_duration now) in
      (result.1 ≡ map delivered (retain (is_news snapshot_seq) packets)) × (result.2 ≡ true)
unfolding opened
opened-is_news packets snapshot_seq me mb duration now sink limit fits_events fits_bytes answers =
    let gate = push_all packets (new me mb duration now) in
    let kept = new-fits packets me mb duration now limit fits_events fits_bytes in
    let result = open-delta snapshot_seq sink gate kept.1 answers in
    (
      result.0
          ∙ ap (λ es. map delivery (delta snapshot_seq es)) kept.0
          ∙ delta-entries_of snapshot_seq 1 packets,
      result.1,
    )

-- A packet other than telemetry that does not fit into an empty gate.
unfoldable pub is_oversized : ℕ → ℕ → Packet → Bool
is_oversized max_events max_bytes (cmd, room_seq) =
    not (is_telemetry (classify_command cmd))
    && not (leb 1 max_events && leb (real_size cmd) max_bytes)

unfoldable pub any_oversized : ℕ → ℕ → List Packet → Bool
any_oversized max_events max_bytes [] = false
any_oversized max_events max_bytes (p ∷ packets) =
    is_oversized max_events max_bytes p || any_oversized max_events max_bytes packets

push_bounded-oversized :
    (cmd : ServerCommand) (room_seq : Option ℕ) (gate : Gate)
    → IsBounded gate
    → (push_bounded cmd room_seq gate).overflowed ≡ (
        gate.overflowed
        || is_oversized (gate.max_pending_events) (gate.max_pending_bytes) (cmd, room_seq))
unfolding expected_overflow is_oversized within size_of entry_of
push_bounded-oversized cmd room_seq gate b =
    (push_bounded-expected cmd room_seq gate b).1 ∙ ground arith

push_all-oversized :
    (packets : List Packet) (gate : Gate)
    → IsBounded gate
    → (push_all packets gate).overflowed ≡ (
        gate.overflowed || any_oversized (gate.max_pending_events) (gate.max_pending_bytes) packets)
unfolding push_all any_oversized
push_all-oversized [] gate b = ground arith
push_all-oversized ((cmd, room_seq) ∷ packets) gate b =
    let after = push_bounded cmd room_seq gate in
    ground (
      arith,
      push_all-oversized packets after (push_bounded-IsBounded cmd room_seq gate b),
      push_bounded-oversized cmd room_seq gate b,
      push_bounded_limits cmd room_seq gate,
    )

activate-overflowed :
    (sink : ℕ → Answer) (gate : Gate)
    → ((n : ℕ) → sink n ≡ accepted)
    → let result = activate sink gate in
      (result.2 ≡ not gate.overflowed)
      × (result.0.activated ≡ not gate.overflowed)
      × (gate.overflowed ≡ true → result.1 ≡ [])
unfolding emptied
activate-overflowed sink gate answers = ground (arith, activate-delta sink gate answers)

-- With sends that succeed, a gate opens exactly if no packet other than telemetry was too large for it; if
-- one was, then nothing is sent.
pub opened-any_oversized :
    (packets : List Packet) (snapshot_seq max_events max_bytes max_duration now : ℕ)
    (sink : ℕ → Answer)
    → max_bytes < 2 ^ 64 - 1
    → ((n : ℕ) → sink n ≡ accepted)
    → let result = opened sink snapshot_seq packets (new max_events max_bytes max_duration now) in
      (result.0.activated ≡ not (any_oversized max_events max_bytes packets))
      × (result.2 ≡ not (any_oversized max_events max_bytes packets))
      × (any_oversized max_events max_bytes packets ≡ false ⊎ result.1 ≡ [])
unfolding opened begin_room_cutover new
opened-any_oversized packets snapshot_seq me mb duration now sink limit answers =
    let gate = push_all packets (new me mb duration now) in
    ground (
      arith,
      push_all-oversized packets (new me mb duration now) (new-IsBounded me mb duration now limit),
      activate-overflowed sink (begin_room_cutover snapshot_seq gate) answers,
    )
