-- ===== src/Wal/Replay.antt =====
-- phira-mp-plus-server/src/persistence/wal/mod.rs: the start-up replay of the log, with the upgrade of
-- old formats, and the consistency check of marker.rs.
use phira_mp_plus.Common.{
  ℕ, zero, ◌+◌, List, [], ◌∷◌, ◌++◌, Bool, true, false, not, ◌||◌, Option, none, some, length, take,
  ltb, ◌==◌, if◌then◌else◌,
}
use phira_mp_plus.Wal.Format.{
  WalRecord, admission, WalFrame, Codec, newline, new_frame, line_of, split_lines, is_empty,
  ends_with_newline,
}
use phira_mp_plus.Wal.State.{
  no_marker, corrupt_marker, marker, PersistenceWal, MarkerIo, write_marker, marker_max_sequence,
}
use phira_mp_plus.Wal.Recovery.{
  Entry, admitted, pending, max_sequence_of, greater, read_frames, records_of, kept_lines,
}

-- How the file system answers one replay: the removal of an empty file, the reading of the log, the
-- repairs of its end, the rewriting of an old one, and the two writings of the marker.
pub record ReplayIo : Type 0 where
  pub removed : Bool
  pub readable : Bool
  pub delimited : Bool
  pub truncated : Bool
  pub rewritten : Bool
  pub first_marker : MarkerIo
  pub last_marker : MarkerIo

-- `check_instance_consistency`; `none` is its error.
unfoldable pub check_instance_consistency : ReplayIo → PersistenceWal → Option PersistenceWal
check_instance_consistency io w = elim w.instance_marker [
  | no_marker ↦ some w
  | corrupt_marker ↦ none
  | marker clean max_sequence ↦ elim w.file [
    | none ↦ if clean then some w else none
    | some [] ↦ if clean then some (if io.removed then record w { file = none } else w) else none
    | some (b ∷ bs) ↦ some w
  ]
]

-- The length of the segments with a delimiter each: where what was dropped began.
unfoldable pub size_of_lines : List (List ℕ) → ℕ
size_of_lines [] = 0
size_of_lines (s ∷ ss) = length s + 1 + size_of_lines ss

-- `write_instance_marker`: an existing marker stays.
unfoldable pub write_instance_marker : MarkerIo → PersistenceWal → Bool × PersistenceWal
write_instance_marker io w = elim w.instance_marker [
  | no_marker ↦ write_marker io true (w.admit_sequence) w
  | _ ↦ (true, w)
]

abbrev pub joined : Option (List ℕ) → Option (List ℕ) → Option (List ℕ)
joined none rest = none
joined (some line) none = none
joined (some line) (some rest) = some (line ++ rest)

module _ {E : Type 0} where
  unfoldable pub needs_upgrade : List (WalFrame E) → Bool
  needs_upgrade [] = false
  needs_upgrade (f ∷ fs) = f.ver == 1 || needs_upgrade fs

  -- Admissions of the first format have no sequence number, and get the next ones.
  unfoldable pub assign_sequences : ℕ → List (WalRecord E) → List (WalRecord E)
  assign_sequences next [] = []
  assign_sequences next (admission id event zero ∷ rs) =
      admission id event next ∷ assign_sequences (next + 1) rs
  assign_sequences next (r ∷ rs) = r ∷ assign_sequences next rs

  unfoldable pub upgraded : List (WalFrame E) → List (WalRecord E)
  upgraded fs =
      let rs = records_of fs in
      if needs_upgrade fs then assign_sequences (max_sequence_of (admitted rs) + 1) rs else rs

module _ {E : Type 0} (c : Codec E) where
  -- Something at the end of the file was dropped.
  abbrev pub is_torn : List ℕ → Bool
  is_torn bytes = ltb (length (kept_lines c bytes)) (length (split_lines bytes))

  -- The result is the list of pending admissions; `none` is an error.
  abbrev Replayed : Type 0
  Replayed = Option (List (Entry E)) × PersistenceWal

  abbrev pub line_of_record : Option (WalFrame E) → Option (List ℕ)
  line_of_record none = none
  line_of_record (some f) = line_of c f

  -- New lines for records; `none` if one cannot be serialized.
  unfoldable pub lines_for : List (WalRecord E) → Option (List ℕ)
  lines_for [] = some []
  lines_for (r ∷ rs) = joined (line_of_record (new_frame c r)) (lines_for rs)

  -- `upgrade_wal_from_v1`
  abbrev pub rewrite_file : ReplayIo → Option (List ℕ) → PersistenceWal → Bool × PersistenceWal
  rewrite_file io none w = (false, w)
  rewrite_file io (some bytes) w =
      if io.rewritten then (true, record w { file = some bytes }) else (false, w)

  -- The sequence goes on from the greater of the marker's and the log's.
  abbrev pub restored : ReplayIo → Bool → List (WalRecord E) → Bool × PersistenceWal → Replayed
  restored io was_empty rs (false, w) = (none, w)
  restored io was_empty rs (true, w) =
      let seq = greater (max_sequence_of (admitted rs)) (marker_max_sequence w.instance_marker) in
      let written =
        write_marker (io.last_marker) was_empty seq (record w { admit_sequence = seq }) in
      if written.0
      then (some (pending rs), record (written.1) { replay_succeeded = true })
      else (none, written.1)

  abbrev pub marked : ReplayIo → Bool → List (WalFrame E) → Bool × PersistenceWal → Replayed
  marked io was_empty fs (false, w) = (none, w)
  marked io was_empty fs (true, w) =
      restored io was_empty (upgraded fs)
        (if needs_upgrade fs then rewrite_file io (lines_for (upgraded fs)) w else (true, w))

  -- A last frame without its newline gets it (`append_missing_newline`).
  unfoldable pub add_newline : ReplayIo → List ℕ → PersistenceWal → Bool × PersistenceWal
  add_newline io bytes w =
      if ends_with_newline bytes || is_empty bytes || is_torn bytes
      then (true, w)
      else if io.delimited
      then (true, record w { file = some (bytes ++ newline ∷ []) })
      else (false, w)

  -- A torn end is cut off (`truncate_wal_file`).
  unfoldable pub cut_torn : ReplayIo → List ℕ → PersistenceWal → Bool × PersistenceWal
  cut_torn io bytes w =
      if not (is_torn bytes)
      then (true, w)
      else if io.truncated
      then (true, record w { file = some (take (size_of_lines (kept_lines c bytes)) bytes) })
      else (false, w)

  abbrev pub repaired : ReplayIo → Bool → List (WalFrame E) → Bool × PersistenceWal → Replayed
  repaired io was_empty fs (false, w) = (none, w)
  repaired io was_empty fs (true, w) =
      marked io was_empty fs (write_instance_marker (io.first_marker) w)

  abbrev pub read_on : ReplayIo → List ℕ → Bool × PersistenceWal → Replayed
  read_on io bytes (false, w) = (none, w)
  read_on io bytes (true, w) = elim (read_frames c (kept_lines c bytes)) [
    | none ↦ (none, w)
    | some frames ↦ repaired io (is_empty bytes) frames (cut_torn io bytes w)
  ]

  -- The log is there.
  unfoldable pub replay_bytes : ReplayIo → List ℕ → PersistenceWal → Replayed
  replay_bytes io bytes w = read_on io bytes (add_newline io bytes w)

  -- The log is not there, and that is right.
  unfoldable pub replay_nothing : ReplayIo → PersistenceWal → Replayed
  replay_nothing io w = elim w.instance_marker [
    | no_marker ↦
        let written = write_marker (io.first_marker) true (w.admit_sequence) w in
        if written.0
        then (some [], record (written.1) { replay_succeeded = true })
        else (none, written.1)
    | other ↦
        (some [], record w { admit_sequence = marker_max_sequence other; replay_succeeded = true })
  ]

  -- `replay`
  unfoldable pub replay : ReplayIo → PersistenceWal → Replayed
  replay io w = elim (check_instance_consistency io w) [
    | none ↦ (none, w)
    | some w ↦ elim w.file [
      | none ↦ replay_nothing io w
      | some bytes ↦ if io.readable then replay_bytes io bytes w else (none, w)
    ]
  ]
