-- ===== src/Wal/State.antt =====
-- phira-mp-plus-server/src/persistence/wal/mod.rs and marker.rs: the state of the log and its two files.
use phira_mp_plus.Common.{
  ℕ, List, [], Bool, true, false, ◌&&◌, ◌||◌, Option, none, some, if◌then◌else◌,
}

-- The instance marker next to the log: its `clean` flag and its high-water mark, where a missing field
-- counts as `false` and as 0.
pub data Marker : Type 0 where
  no_marker corrupt_marker : Marker
  marker : Bool → ℕ → Marker

-- The reasons of a degraded log, a bit each.
pub record Degraded : Type 0 where
  pub ack_failed : Bool
  pub corruption : Bool
  pub marker_failed : Bool
  pub compact_failed : Bool

-- `PersistenceWal` with its files, without the counters that are only reported or decide when to
-- compact. The file is `none` if there is none.
pub record PersistenceWal : Type 0 where
  pub file : Option (List ℕ)
  pub instance_marker : Marker
  pub replay_succeeded : Bool
  pub degraded : Degraded
  pub admit_sequence : ℕ

abbrev pub contents : PersistenceWal → List ℕ
contents w = elim w.file [ none ↦ [] | some bytes ↦ bytes ]

-- `mark_degraded(DEGRADED_CORRUPTION)`, and so on.
abbrev pub mark_corruption : PersistenceWal → PersistenceWal
mark_corruption w = record w { degraded = record (w.degraded) { corruption = true } }

abbrev pub mark_marker : PersistenceWal → PersistenceWal
mark_marker w = record w { degraded = record (w.degraded) { marker_failed = true } }

abbrev pub mark_compact : PersistenceWal → PersistenceWal
mark_compact w = record w { degraded = record (w.degraded) { compact_failed = true } }

-- `clear_marker_degraded` and `clear_compact_degraded`
abbrev pub clear_marker : PersistenceWal → PersistenceWal
clear_marker w = record w { degraded = record (w.degraded) { marker_failed = false } }

abbrev pub clear_compact : PersistenceWal → PersistenceWal
clear_compact w = record w { degraded = record (w.degraded) { compact_failed = false } }

-- `is_fatal`
unfoldable pub is_fatal : PersistenceWal → Bool
is_fatal w = w.degraded.corruption || w.degraded.compact_failed

-- How the file system answers the writing of the marker: the new file takes the old one's place, and
-- the directory is synced.
pub record MarkerIo : Type 0 where
  pub renamed : Bool
  pub synced : Bool

-- `write_marker_inner`: whether it succeeds, and the files after it.
unfoldable pub write_marker : MarkerIo → Bool → ℕ → PersistenceWal → Bool × PersistenceWal
write_marker io clean max_sequence w = (
  io.renamed && io.synced,
  if io.renamed then record w { instance_marker = marker clean max_sequence } else w,
)

-- `read_marker_max_sequence`
abbrev pub marker_max_sequence : Marker → ℕ
marker_max_sequence (marker clean max_sequence) = max_sequence
marker_max_sequence _ = 0
