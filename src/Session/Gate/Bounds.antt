-- ===== src/Session/Gate/Bounds.antt =====
-- phira-mp-plus-server/src/session.rs: what `push_bounded` keeps.
use phira_mp_plus.Common.{
  ℕ, ◌+◌, ◌-◌, ◌^◌, ◌≤◌, ◌<◌, ◌≡◌, refl, List, [], ◌∷◌, ◌++◌, Bool, true, false, not, ◌||◌, ◌&&◌,
  Option, arith, if◌then◌else◌, leb, length, length-append,
}
use phira_mp_plus.Wire.Commands.Server.{ServerCommand}
use phira_mp_plus.Session.Gate.{
  is_telemetry, real_size, GateEntry, Gate, has_room, over_limit, make_room, entry_of, append_entry,
  drop_packet, push_bounded,
}

-- The bytes of the entries.
unfoldable pub size_of : List GateEntry → ℕ
size_of [] = 0
size_of (e ∷ es) = real_size (e.cmd) + size_of es

pub size_of-append : (xs ys : List GateEntry) → size_of (xs ++ ys) ≡ size_of xs + size_of ys
unfolding size_of
size_of-append [] ys = omega arith
size_of-append (x ∷ xs) ys = omega (arith, size_of-append xs ys)

-- The two limits on a list of entries.
unfoldable pub within : ℕ → ℕ → List GateEntry → Bool
within max_events max_bytes es = leb (length es) max_events && leb (size_of es) max_bytes

-- The longest end of a list within the limits.
unfoldable pub longest_end : ℕ → ℕ → List GateEntry → List GateEntry
longest_end max_events max_bytes [] = []
longest_end max_events max_bytes (e ∷ es) =
    let shorter = longest_end max_events max_bytes es in
    if within max_events max_bytes (e ∷ es) then e ∷ es else shorter

-- The gate counts its bytes, and the count cannot reach the end of a `usize`.
pub record IsBounded (gate : Gate) : Type 0 where
  pub events_le : length (gate.pending.events) ≤ gate.max_pending_events
  pub bytes_le : gate.pending.bytes ≤ gate.max_pending_bytes
  pub bytes_eq : gate.pending.bytes ≡ size_of (gate.pending.events)
  pub limit_lt : gate.max_pending_bytes < 2 ^ 64 - 1

has_room-within :
    (me mb : ℕ) (es : List GateEntry) (e : GateEntry)
    → mb < 2 ^ 64 - 1
    → has_room me mb (real_size (e.cmd)) es (size_of es) ≡ within me mb (es ++ e ∷ [])
unfolding has_room within size_of
has_room-within me mb es e h = ground (arith, length-append es (e ∷ []), size_of-append es (e ∷ []))

-- The loop keeps the longest end with which the new entry is within the limits.
pub make_room-longest_end :
    (me mb : ℕ) (es : List GateEntry) (e : GateEntry)
    → mb < 2 ^ 64 - 1
    → within me mb (e ∷ []) ≡ true
    → let room = make_room me mb (real_size (e.cmd)) es (size_of es) in
      (room.0 ++ e ∷ [] ≡ longest_end me mb (es ++ e ∷ []))
      × (room.1 ≡ size_of room.0)
      × (room.2 ≡ true)
unfolding make_room longest_end size_of
make_room-longest_end me mb [] e h w = ground (arith, has_room-within me mb [] e)
make_room-longest_end me mb (x ∷ es) e h w =
    ground (arith, has_room-within me mb (x ∷ es) e, make_room-longest_end me mb es e)

within-append_false :
    (me mb : ℕ) (es : List GateEntry) (e : GateEntry)
    → within me mb (e ∷ []) ≡ false
    → within me mb (es ++ e ∷ []) ≡ false
unfolding within size_of
within-append_false me mb es e h =
    ground (arith, length-append es (e ∷ []), size_of-append es (e ∷ []))

-- An entry that is too large by itself empties the gate.
pub make_room-overflow :
    (me mb : ℕ) (es : List GateEntry) (e : GateEntry)
    → mb < 2 ^ 64 - 1
    → within me mb (e ∷ []) ≡ false
    → (make_room me mb (real_size (e.cmd)) es (size_of es) ≡ ([], 0, false))
      × (longest_end me mb (es ++ e ∷ []) ≡ [])
unfolding make_room longest_end size_of
make_room-overflow me mb [] e h w = ground (arith, has_room-within me mb [] e)
make_room-overflow me mb (x ∷ es) e h w = ground (
  arith,
  has_room-within me mb (x ∷ es) e,
  within-append_false me mb (x ∷ es) e,
  make_room-overflow me mb es e,
)

pub longest_end-within :
    (me mb : ℕ) (es : List GateEntry) → within me mb es ≡ true → longest_end me mb es ≡ es
unfolding longest_end
longest_end-within me mb [] h = refl
longest_end-within me mb (e ∷ es) h = ground arith

pub within-longest_end :
    (me mb : ℕ) (es : List GateEntry) → within me mb (longest_end me mb es) ≡ true
unfolding longest_end within size_of
within-longest_end me mb [] = ground arith
within-longest_end me mb (e ∷ es) = ground (arith, within-longest_end me mb es)

pub over_limit-within :
    (gate : Gate) (e : GateEntry)
    → IsBounded gate
    → over_limit gate (real_size (e.cmd))
      ≡ not (
          within (gate.max_pending_events) (gate.max_pending_bytes) (gate.pending.events ++ e ∷ []))
unfolding over_limit within size_of
over_limit-within gate e b = ground (
  arith,
  length-append (gate.pending.events) (e ∷ []),
  size_of-append (gate.pending.events) (e ∷ []),
)

-- What a gate should hold after a packet: telemetry that does not fit is left out, and for any other packet
-- the longest end of all the packets that fits.
unfoldable pub expected_events : Gate → GateEntry → List GateEntry
expected_events gate e =
    let all = gate.pending.events ++ e ∷ [] in
    if is_telemetry (e.class)
    then (if within (gate.max_pending_events) (gate.max_pending_bytes) all
        then all
        else gate.pending.events)
    else longest_end (gate.max_pending_events) (gate.max_pending_bytes) all

-- The gate overflows exactly on a packet that is no telemetry and does not fit by itself.
unfoldable pub expected_overflow : Gate → GateEntry → Bool
expected_overflow gate e =
    gate.overflowed
    || (not (is_telemetry (e.class))
        && not (within (gate.max_pending_events) (gate.max_pending_bytes) (e ∷ [])))

-- The length of the loop's list that is left.
pub make_room-size_of :
    (gate : Gate)
    → IsBounded gate
    → (size : ℕ)
    → make_room
        (gate.max_pending_events)
        (gate.max_pending_bytes)
        size
        (gate.pending.events)
        (gate.pending.bytes)
      ≡ make_room
          (gate.max_pending_events)
          (gate.max_pending_bytes)
          size
          (gate.pending.events)
          (size_of (gate.pending.events))
make_room-size_of gate b size = rw (b.bytes_eq)

-- Every packet leaves a gate with the entries that it should hold, and marks the overflow exactly if a
-- packet other than telemetry does not fit by itself.
pub push_bounded-expected :
    (cmd : ServerCommand) (room_seq : Option ℕ) (gate : Gate)
    → IsBounded gate
    → ((push_bounded cmd room_seq gate).pending.events
        ≡ expected_events gate (entry_of (gate.pending.next_seq) cmd room_seq))
      × ((push_bounded cmd room_seq gate).overflowed
          ≡ expected_overflow gate (entry_of (gate.pending.next_seq) cmd room_seq))
unfolding push_bounded append_entry drop_packet entry_of expected_events expected_overflow
push_bounded-expected cmd room_seq gate b =
    let e = entry_of (gate.pending.next_seq) cmd room_seq in
    let me = gate.max_pending_events in
    let mb = gate.max_pending_bytes in
    let es = gate.pending.events in
    ground (
      arith,
      over_limit-within gate e b,
      make_room-size_of gate b (real_size cmd),
      make_room-overflow me mb es e (b.limit_lt),
      make_room-longest_end me mb es e (b.limit_lt),
      longest_end-within me mb (es ++ e ∷ []),
      within-append_false me mb es e,
    )
