-- ===== src/Tests/Wal.antt =====
-- The theorems on phira-mp-plus-server/src/persistence/wal at a log of events that
-- a first reading rounds.
use phira_mp_plus.Common.{
  ℕ, zero, suc, ◌+◌, ◌-◌, ◌*◌, ◌/◌, ◌%◌, ◌<◌, ◌≤◌, ◌≡◌, refl, ◌⊎◌, List, [], ◌∷◌, ◌++◌, Bool, true,
  false, ◌&&◌, ltb, leb, ◌==◌, if◌then◌else◌, Option, none, some, arith, take, All,
}
use phira_mp_plus.Wire.Text.{beq_text, beq_text_iff}
use phira_mp_plus.Wire.Containers.{Uuid}
use phira_mp_plus.Wal.Format.{
  WalRecord, admission, ack, WalFrame, Codec, IsJson, IsSettled, Settles, reread, newline, has_byte,
  new_frame, is_valid_frame, verify, split_lines, ends_with_newline,
}
use phira_mp_plus.Wal.State.{Degraded, PersistenceWal, marker, is_fatal}
use phira_mp_plus.Wal.Append.{AppendIo, WalCall, call_admit, call_ack, perform_all}
use phira_mp_plus.Wal.Recovery.{
  admitted, pending, list_pending, is_acked, read_frames, records_of, greater, max_sequence_of,
}
use phira_mp_plus.Wal.Replay.{check_instance_consistency, lines_for, replay}
use phira_mp_plus.Wal.Compact.{compact, compact_bytes, compact_lines, admissions}
use phira_mp_plus.Wal.Ledger.{read_back, outstanding}
use phira_mp_plus.Wal.Lines.{IsLineOf}
use phira_mp_plus.Wal.Durability.{Holds}
use phira_mp_plus.Wal.Calls.{perform_all-list_pending}
use phira_mp_plus.Wal.Crash.{works, replay-survivors}
use phira_mp_plus.Wal.Compaction.{compact-list_pending}
use phira_mp_plus.Wal.Damage.{IsDamaged, damaged-replay}
use phira_mp_plus.Wal.Sequence.{
  IsNumbered, perform_all-IsNumbered, compacts, compact-replay_sequence,
}

-- A codec of one byte a frame, a number for the record. It writes the ids 0 to 9. An event says whether it
-- has more digits than come back: whatever is written, what is read has not.
abbrev code_of : WalRecord Bool → ℕ
code_of (admission id event seq) = 20 + (seq * 10 + id.low) * 2
code_of (ack id) = 21 + id.low * 2

abbrev is_small : Uuid → Bool
is_small id = id.high == 0 && ltb (id.low) 10

abbrev is_codable : WalRecord Bool → Bool
is_codable (admission id event seq) = is_small id
is_codable (ack id) = is_small id

abbrev id_of : ℕ → Uuid
id_of n = record { high = 0; low = n }

abbrev record_at : ℕ → WalRecord Bool
record_at n =
    if n % 2 == 0 then admission (id_of (n / 2 % 10)) false (n / 2 / 10) else ack (id_of (n / 2))

abbrev frame_at : ℕ → WalFrame Bool
frame_at b = record { ver = 3; record_of = record_at (b - 20); cksum = [] }

abbrev read_code : List ℕ → Option (WalFrame Bool)
read_code (b ∷ []) = if leb 20 b then some (frame_at b) else none
read_code _ = none

abbrev small_codec : Codec Bool
small_codec = record {
  canonical = λ r. some [];
  sha256_hex = λ bs. [];
  to_vec = λ f.
      if f.ver == 3 && beq_text f.cksum [] && is_codable (f.record_of)
      then some (code_of (f.record_of) ∷ [])
      else none;
  from_slice = read_code;
}

code-record_at :
    (r : WalRecord Bool) → is_codable r ≡ true → record_at (code_of r - 20) ≡ reread (λ u. false) r
code-record_at (admission id event seq) h = ground arith
code-record_at (ack id) h = ground arith

coded :
    (f : WalFrame Bool) {bs : List ℕ}
    → small_codec.to_vec f ≡ some bs
    → (bs ≡ code_of (f.record_of) ∷ [])
      × (frame_at (code_of (f.record_of))
          ≡ record f { record_of = reread (λ u. false) (f.record_of) })
coded f e = ground (arith, beq_text_iff f.cksum [], code-record_at f.record_of)

small_codec-IsJson : IsJson small_codec
unfolding has_byte
small_codec-IsJson = record {
  read_event = λ u. false;
  reads = λ f e. rw (coded f e).0 (ground (arith, (coded f e).1, code_le (f.record_of)));
  one_line = λ f e. rw (coded f e).0 (ground (arith, code_le (f.record_of)));
  prefix_free = λ f n e h. rw (coded f e).0 (short n _ (rw (coded f e).0 at h));
  not_empty = refl;
}
  where
    short : (n x : ℕ) → n < 1 → read_code (take n (x ∷ [])) ≡ none
    short zero x h = refl
    short (suc n) x h = absurd (omega arith)

    code_le : (r : WalRecord Bool) → 20 ≤ code_of r
    code_le (admission id event seq) = omega arith
    code_le (ack id) = omega arith

event-Settles : (event : Bool) → Settles small_codec-IsJson event
unfolding small_codec-IsJson
event-Settles event = record { same_text = λ id n. refl; once = refl }

all-IsSettled : (log : List (WalRecord Bool)) → All (IsSettled small_codec-IsJson) log
all-IsSettled [] = tt
all-IsSettled (admission id event seq ∷ rs) = (event-Settles event, all-IsSettled rs)
all-IsSettled (ack id ∷ rs) = (tt, all-IsSettled rs)

abbrev sound : Degraded
sound = record {
  ack_failed = false;
  corruption = false;
  marker_failed = false;
  compact_failed = false;
}

abbrev is_none_yet : Option (List ℕ) → Bool
is_none_yet none = true
is_none_yet (some bytes) = false

-- A log that is ready, with this file and this counter.
abbrev log_with : Option (List ℕ) → ℕ → PersistenceWal
log_with file seq = record {
  file = file;
  instance_marker = marker (is_none_yet file) 0;
  replay_succeeded = true;
  degraded = sound;
  admit_sequence = seq;
}

-- An append that works, or that fails after so many bytes and is repaired.
abbrev io_of : Bool → ℕ → AppendIo
io_of synced written = record {
  opened = true;
  stated = true;
  synced = synced;
  written = written;
  readable = true;
  resynced = true;
  delimited = true;
  rolled_back = true;
  left = 0;
  marker_io = record { renamed = true; synced = true };
}

abbrev calls : List (WalCall Bool)
calls =
    call_admit (io_of true 0) true (id_of 1) true
    ∷ call_admit (io_of false 1) true (id_of 2) true
    ∷ call_ack (io_of true 0) (id_of 1)
    ∷ []

empty-Holds : Holds small_codec-IsJson (log_with none 0) []
unfolding lines_for
empty-Holds = refl

perform_all-list_pending_example :
    (is_fatal (perform_all small_codec calls (log_with none 0)).1 ≡ true)
    ⊎ ((list_pending small_codec true (perform_all small_codec calls (log_with none 0)).1).0
        ≡ some (
            read_back
              (λ u. false)
              (outstanding ([] ++ (perform_all small_codec calls (log_with none 0)).0))))
unfolding small_codec-IsJson
perform_all-list_pending_example =
    perform_all-list_pending small_codec-IsJson calls (log_with none 0) []
      (event-Settles true, (event-Settles true, (tt, tt))) tt empty-Holds refl

perform_all-IsNumbered_example :
    IsNumbered 1 (admitted (perform_all small_codec calls (log_with none 0)).0)
perform_all-IsNumbered_example =
    perform_all-IsNumbered small_codec calls (log_with none 0) (omega arith)

abbrev first_two : List (WalRecord Bool)
first_two = admission (id_of 1) true 1 ∷ admission (id_of 2) true 2 ∷ []

abbrev first_two_bytes : List ℕ
first_two_bytes = 42 ∷ newline ∷ 64 ∷ newline ∷ []

first_two_lines : lines_for small_codec first_two ≡ some first_two_bytes
unfolding lines_for new_frame
first_two_lines = refl

abbrev last_ack : WalRecord Bool
last_ack = ack (id_of 2)

ack_line : IsLineOf small_codec-IsJson last_ack (frame_at 25) (25 ∷ [])
unfolding new_frame
ack_line = record { frame_of = refl; text_of = refl }

torn_start :
    check_instance_consistency works (log_with (some (first_two_bytes ++ 25 ∷ [])) 0)
    ≡ some (log_with (some (first_two_bytes ++ 25 ∷ [])) 0)
unfolding check_instance_consistency
torn_start = refl

replay-survivors_example :
    ((replay small_codec works (log_with (some (first_two_bytes ++ 25 ∷ [])) 0)).0
      ≡ some (read_back (λ u. false) (outstanding (first_two ++ last_ack ∷ []))))
    × Holds small_codec-IsJson
        (replay small_codec works (log_with (some (first_two_bytes ++ 25 ∷ [])) 0)).1
        (first_two ++ last_ack ∷ [])
    × ((replay small_codec works
          (log_with (some (first_two_bytes ++ 25 ∷ [])) 0)).1.replay_succeeded
        ≡ true)
unfolding small_codec-IsJson
replay-survivors_example =
    replay-survivors small_codec-IsJson first_two (all-IsSettled first_two) first_two_lines ack_line
      1 (log_with (some (first_two_bytes ++ 25 ∷ [])) 0) tt refl torn_start

abbrev acked_two : List (WalRecord Bool)
acked_two = first_two ++ last_ack ∷ []

abbrev acked_two_bytes : List ℕ
acked_two_bytes = first_two_bytes ++ 25 ∷ newline ∷ []

acked_two_lines : lines_for small_codec acked_two ≡ some acked_two_bytes
unfolding lines_for new_frame
acked_two_lines = refl

compact-list_pending_example :
    (list_pending small_codec true
      (compact small_codec compacts (log_with (some acked_two_bytes) 2)).1).0
    ≡ (list_pending small_codec true (log_with (some acked_two_bytes) 2)).0
compact-list_pending_example =
    compact-list_pending small_codec-IsJson compacts (log_with (some acked_two_bytes) 2) acked_two
      (all-IsSettled acked_two) acked_two_lines refl

acked_two-outstanding :
    outstanding acked_two ≡ record { id = id_of 1; event = true; sequence = 1 } ∷ []
unfolding outstanding
acked_two-outstanding = refl

acked_two_compacted : (compact small_codec compacts (log_with (some acked_two_bytes) 2)).0 ≡ some 1
unfolding compact compact_bytes compact_lines read_frames split_lines records_of pending admitted
    is_acked lines_for new_frame admissions is_valid_frame verify ends_with_newline
acked_two_compacted = refl

-- The number 2 was given to the second admission, and the next start gives it again.
compact-replay_sequence_example :
    (replay small_codec works
      (compact small_codec compacts (log_with (some acked_two_bytes) 2)).1).1.admit_sequence
    ≡ greater (max_sequence_of (record { id = id_of 1; event = true; sequence = 1 } ∷ [])) 0
compact-replay_sequence_example =
    compact-replay_sequence small_codec-IsJson (log_with (some acked_two_bytes) 2) acked_two
      (record { id = id_of 1; event = true; sequence = 1 }) [] (all-IsSettled acked_two) refl
      acked_two_lines acked_two-outstanding refl acked_two_compacted

-- The two admissions with a line between them that is no frame.
abbrev damaged_bytes : List ℕ
damaged_bytes = 42 ∷ newline ∷ 7 ∷ newline ∷ 64 ∷ newline ∷ []

damaged_bytes-IsDamaged : IsDamaged small_codec damaged_bytes
unfolding lines_for new_frame has_byte is_valid_frame
damaged_bytes-IsDamaged = record {
  before = admission (id_of 1) true 1 ∷ [];
  first = admission (id_of 2) true 2;
  rest = [];
  good = 42 ∷ newline ∷ [];
  bad = 7 ∷ [];
  more = 64 ∷ newline ∷ [];
  good_before = refl;
  good_after = refl;
  one_line = refl;
  filled = refl;
  invalid = refl;
  whole = refl;
}

damaged-replay_example :
    replay small_codec works (log_with (some damaged_bytes) 0)
    ≡ (none, log_with (some damaged_bytes) 0)
damaged-replay_example =
    damaged-replay small_codec-IsJson damaged_bytes-IsDamaged
      (all-IsSettled (damaged_bytes-IsDamaged.before))
      (all-IsSettled (damaged_bytes-IsDamaged.first ∷ damaged_bytes-IsDamaged.rest)) works
      (log_with (some damaged_bytes) 0) refl
