-- ===== src/Wal/Compact.antt =====
-- phira-mp-plus-server/src/persistence/wal/mod.rs: the compaction of the log.
use phira_mp_plus.Common.{
  ℕ, List, [], ◌∷◌, Bool, true, not, ◌||◌, Option, none, some, length, if◌then◌else◌,
}
use phira_mp_plus.Wal.Format.{WalRecord, admission, Codec, split_lines, is_empty, ends_with_newline}
use phira_mp_plus.Wal.State.{
  no_marker, corrupt_marker, marker, PersistenceWal, mark_corruption, mark_marker, mark_compact,
  clear_compact, MarkerIo, write_marker,
}
use phira_mp_plus.Wal.Recovery.{Entry, pending, drop_torn_tail, read_frames, records_of}
use phira_mp_plus.Wal.Replay.{lines_for}

-- How the file system answers one compaction: the reading of the two files, the removal of the log, the
-- writing of the new log up to its renaming, and the sync of the directory.
pub record CompactIo : Type 0 where
  pub marker_readable : Bool
  pub readable : Bool
  pub removed : Bool
  pub marker_io : MarkerIo
  pub renamed : Bool
  pub synced : Bool

module _ {E : Type 0} where
  unfoldable pub admissions : List (Entry E) → List (WalRecord E)
  admissions [] = []
  admissions (e ∷ es) = admission (e.id) (e.event) (e.sequence) ∷ admissions es

module _ {E : Type 0} (c : Codec E) where
  -- The result is the number of admissions that stay; `none` is an error.
  abbrev Compacted : Type 0
  Compacted = Option ℕ × PersistenceWal

  -- Without a log, only a clean marker or none will do.
  unfoldable pub compact_nothing : CompactIo → PersistenceWal → Compacted
  compact_nothing io w = elim w.instance_marker [
    | no_marker ↦ (some 0, w)
    | corrupt_marker ↦ (none, if io.marker_readable then mark_compact w else mark_marker w)
    | marker clean max_sequence ↦
        if not io.marker_readable
        then (none, mark_marker w)
        else if clean
        then (some 0, w)
        else (none, mark_compact w)
  ]

  -- Nothing is pending: the log is removed.
  unfoldable pub compact_to_zero : CompactIo → PersistenceWal → Compacted
  compact_to_zero io w =
      let removed = if io.removed then record w { file = none } else w in
      let written = write_marker (io.marker_io) true (w.admit_sequence) removed in
      if written.0 then (some 0, clear_compact (written.1)) else (none, mark_compact (written.1))

  abbrev pub replace_file : CompactIo → ℕ → Option (List ℕ) → PersistenceWal → Compacted
  replace_file io n none w = (none, mark_compact w)
  replace_file io n (some bytes) w =
      let moved = record w { file = some bytes } in
      if not io.renamed
      then (none, mark_compact w)
      else if not io.synced
      then (none, mark_compact moved)
      else (some n, clear_compact moved)

  abbrev pub compact_entries : CompactIo → List (Entry E) → PersistenceWal → Compacted
  compact_entries io [] w = compact_to_zero io w
  compact_entries io (e ∷ es) w =
      replace_file io (length (e ∷ es)) (lines_for c (admissions (e ∷ es))) w

  -- The segments that it reads: a torn line that ends with a newline is not dropped here.
  unfoldable pub compact_lines : List ℕ → List (List ℕ)
  compact_lines bytes =
      let segments = split_lines bytes in
      if ends_with_newline bytes || is_empty bytes then segments else drop_torn_tail c segments

  unfoldable pub compact_bytes : CompactIo → List ℕ → PersistenceWal → Compacted
  compact_bytes io bytes w = elim (read_frames c (compact_lines bytes)) [
    | none ↦ (none, mark_corruption w)
    | some frames ↦ compact_entries io (pending (records_of frames)) w
  ]

  -- `compact`
  unfoldable pub compact : CompactIo → PersistenceWal → Compacted
  compact io w = elim w.file [
    | none ↦ compact_nothing io w
    | some bytes ↦ if io.readable then compact_bytes io bytes w else (none, mark_compact w)
  ]
