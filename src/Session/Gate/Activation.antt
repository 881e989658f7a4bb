-- ===== src/Session/Gate/Activation.antt =====
-- phira-mp-plus-server/src/session.rs: what a client gets when its gate opens.
use mathlib.Core.List.{map}
use phira_mp_plus.Common.{
  ℕ, ◌+◌, ◌%◌, ◌^◌, ◌≡◌, refl, List, [], ◌∷◌, ◌++◌, true, not, Option, arith, if◌then◌else◌, retain,
  append-nil, append_assoc, length-append, ◌∙◌,
}
use phira_mp_plus.Wire.Commands.Server.{ServerCommand}
use phira_mp_plus.Session.Gate.{
  GateEntry, Gate, entry_of, push_bounded, append_entry, drop_packet, in_snapshot, drain, emptied,
  activate, is_covered, Sent, Answer, accepted, send_entry, flushed_send, plain_send,
}
use phira_mp_plus.Session.Gate.Bounds.{
  size_of-append, within, IsBounded, expected_events, expected_overflow, push_bounded-expected,
  longest_end-within,
}
use phira_mp_plus.Session.Gate.Limits.{push_bounded-IsBounded, push_bounded_limits, push_all}

-- What the snapshot does not contain.
unfoldable pub delta : ℕ → List GateEntry → List GateEntry
delta cutover = retain (λ e. not (in_snapshot cutover e))

-- What is sent for an entry, by a send that succeeds.
abbrev pub delivery : GateEntry → Sent
delivery e = record { cmd = e.cmd; flushed = is_covered (e.class) }

drain-delta :
    (cutover : ℕ) (sink : ℕ → Answer) (n : ℕ) (es : List GateEntry)
    → ((k : ℕ) → sink k ≡ accepted)
    → drain cutover sink n es ≡ (map delivery (delta cutover es), true)
unfolding drain delta send_entry flushed_send plain_send
drain-delta cutover sink n [] answers = refl
drain-delta cutover sink n (e ∷ es) answers = ground (
  arith,
  answers n,
  drain-delta cutover sink n es answers,
  drain-delta cutover sink (n + 1) es answers,
)

-- If every send succeeds, then a gate without an overflow sends the entries that the snapshot does not
-- contain, in their order, and is open afterwards and empty. A gate with an overflow sends nothing and
-- stays shut.
pub activate-delta :
    (sink : ℕ → Answer) (gate : Gate)
    → ((n : ℕ) → sink n ≡ accepted)
    → let d = delta (gate.pending.cutover_seq) (gate.pending.events) in
      activate sink gate ≡ (
        emptied (not gate.overflowed) gate,
        (if gate.overflowed then [] else map delivery d),
        not gate.overflowed,
      )
unfolding activate
activate-delta sink gate answers =
    ground (arith, drain-delta (gate.pending.cutover_seq) sink 0 (gate.pending.events) answers)

-- The entries of a run of packets.
unfoldable pub entries_of : ℕ → List (ServerCommand × Option ℕ) → List GateEntry
entries_of seq [] = []
entries_of seq ((cmd, room_seq) ∷ packets) =
    entry_of seq cmd room_seq ∷ entries_of ((seq + 1) % 2 ^ 64) packets

within-prefix :
    (me mb : ℕ) (xs ys : List GateEntry) → within me mb (xs ++ ys) ≡ true → within me mb xs ≡ true
unfolding within
within-prefix me mb xs ys h = ground (arith, length-append xs ys, size_of-append xs ys)

within-single :
    (me mb : ℕ) (xs : List GateEntry) (e : GateEntry)
    → within me mb (xs ++ e ∷ []) ≡ true
    → within me mb (e ∷ []) ≡ true
unfolding within
within-single me mb xs e h = ground (arith, length-append xs (e ∷ []), size_of-append xs (e ∷ []))

-- A packet that fits is kept.
push_bounded-fits :
    (cmd : ServerCommand) (room_seq : Option ℕ) (gate : Gate)
    → IsBounded gate
    → let e = entry_of (gate.pending.next_seq) cmd room_seq in
      within (gate.max_pending_events) (gate.max_pending_bytes) (gate.pending.events ++ e ∷ [])
        ≡ true
      → ((push_bounded cmd room_seq gate).pending.events ≡ gate.pending.events ++ e ∷ [])
        × ((push_bounded cmd room_seq gate).overflowed ≡ gate.overflowed)
unfolding expected_events expected_overflow
push_bounded-fits cmd room_seq gate b w =
    let e = entry_of (gate.pending.next_seq) cmd room_seq in
    let me = gate.max_pending_events in
    let mb = gate.max_pending_bytes in
    let es = gate.pending.events in
    ground (
      arith,
      push_bounded-expected cmd room_seq gate b,
      longest_end-within me mb (es ++ e ∷ []),
      within-single me mb es e,
    )

pub push_bounded_seqs :
    (cmd : ServerCommand) (room_seq : Option ℕ) (gate : Gate)
    → ((push_bounded cmd room_seq gate).pending.next_seq ≡ (gate.pending.next_seq + 1) % 2 ^ 64)
      × ((push_bounded cmd room_seq gate).pending.cutover_seq ≡ gate.pending.cutover_seq)
unfolding push_bounded append_entry drop_packet
push_bounded_seqs cmd room_seq gate = ground arith

-- Packets that fit all together are all kept.
pub push_all-fits :
    (packets : List (ServerCommand × Option ℕ)) (gate : Gate)
    → IsBounded gate
    → within
        (gate.max_pending_events)
        (gate.max_pending_bytes)
        (gate.pending.events ++ entries_of (gate.pending.next_seq) packets)
      ≡ true
    → ((push_all packets gate).pending.events
        ≡ gate.pending.events ++ entries_of (gate.pending.next_seq) packets)
      × ((push_all packets gate).overflowed ≡ gate.overflowed)
unfolding push_all entries_of
push_all-fits [] gate b w = (rw append-nil, refl)
push_all-fits ((cmd, room_seq) ∷ packets) gate b w =
    let e = entry_of (gate.pending.next_seq) cmd room_seq in
    let rest = entries_of ((gate.pending.next_seq + 1) % 2 ^ 64) packets in
    let me = gate.max_pending_events in
    let mb = gate.max_pending_bytes in
    let es = gate.pending.events in
    let after = push_bounded cmd room_seq gate in
    let regrouped : (es ++ e ∷ []) ++ rest ≡ es ++ e ∷ rest = append_assoc es (e ∷ []) rest in
    let fits : within me mb ((es ++ e ∷ []) ++ rest) ≡ true = rw regrouped w in
    let kept =
      push_bounded-fits cmd room_seq gate b (within-prefix me mb (es ++ e ∷ []) rest fits) in
    let limits = push_bounded_limits cmd room_seq gate in
    let seqs = push_bounded_seqs cmd room_seq gate in
    let later =
      push_all-fits packets after (push_bounded-IsBounded cmd room_seq gate b)
        (rw (limits.0, limits.1, seqs.0, kept.0) fits) in
    (later.0 ∙ rw (kept.0, seqs.0) regrouped, later.1 ∙ kept.1)
