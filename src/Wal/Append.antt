-- ===== src/Wal/Append.antt =====
-- phira-mp-plus-server/src/persistence/wal/mod.rs: admissions, acknowledgements, and what becomes of a
-- frame whose write fails.
use phira_mp_plus.Common.{
  ℕ, ◌+◌, ◌%◌, ◌^◌, ◌-◌, List, [], ◌∷◌, ◌++◌, Bool, true, false, not, ◌&&◌, Option, none, some,
  Result, ok, err, length, take, if◌then◌else◌,
}
use phira_mp_plus.Wire.Containers.{Uuid}
use phira_mp_plus.Wal.Format.{
  WalRecord, admission, ack, WalFrame, Codec, newline, new_frame, is_valid_frame, line_of, is_empty,
  ends_with_newline,
}
use phira_mp_plus.Wal.State.{
  no_marker, corrupt_marker, marker, PersistenceWal, contents, mark_corruption, mark_marker,
  clear_marker, is_fatal, MarkerIo, write_marker,
}

-- How the file system answers one append.
pub record AppendIo : Type 0 where
  -- The directory and the file are there, or are made; the file's length can be read.
  pub opened : Bool
  pub stated : Bool
  -- The write, the flush and the sync; if one fails, so many bytes of the line are in the file.
  pub synced : Bool
  pub written : ℕ
  -- After a failure: the tail can be read, a complete frame can be synced again, a missing newline can
  -- be added, a part of a frame can be cut off; if a repair fails, so many bytes stay.
  pub readable : Bool
  pub resynced : Bool
  pub delimited : Bool
  pub rolled_back : Bool
  pub left : ℕ
  -- Writing the instance marker.
  pub marker_io : MarkerIo

-- `AppendOutcome`, and the `Err` of a failed preparation.
pub data AppendOutcome : Type 0 where
  appended admitted_degraded rejected fatal_unknown not_prepared : AppendOutcome

abbrev to_file : List ℕ → PersistenceWal → PersistenceWal
to_file bytes w = record w { file = some bytes }

-- Why a call is refused.
pub data WalError : Type 0 where
  not_replayed fatally_degraded low_disk_space not_serialized not_appended : WalError

-- A failure that leaves the tail unknown marks the log as corrupt.
abbrev unknown : AppendIo → List ℕ → List ℕ → PersistenceWal → AppendOutcome × PersistenceWal
unknown io base line w = (fatal_unknown, mark_corruption (to_file (base ++ take io.left line) w))

-- `durable_rollback`
abbrev durable_rollback :
    AppendIo → List ℕ → List ℕ → PersistenceWal → AppendOutcome × PersistenceWal
durable_rollback io base line w =
    if io.rolled_back then (rejected, to_file base w) else unknown io base line w

-- Whether the frame is in the log for good.
abbrev pub is_durable : AppendOutcome → Bool
is_durable appended = true
is_durable admitted_degraded = true
is_durable _ = false

-- A marker that is written again as active, or the mark that
-- `mark_marker_active_after_admit` leaves if that fails.
abbrev activated : Bool × PersistenceWal → PersistenceWal
activated (done, w) = if done then clear_marker w else mark_marker w

-- `mark_marker_active_after_admit` with `mark_marker_active`
unfoldable pub mark_marker_active : AppendIo → PersistenceWal → PersistenceWal
mark_marker_active io w = elim w.instance_marker [
  | no_marker ↦ activated (write_marker io.marker_io false (w.admit_sequence) w)
  | corrupt_marker ↦ mark_marker w
  | marker clean max_sequence ↦
      if not clean
      then clear_marker w
      else activated (write_marker io.marker_io false max_sequence w)
]

-- The calls that write to the log.
pub data WalCall (E : Type 0) : Type 0 where
  call_admit : AppendIo → Bool → Uuid → E → WalCall E
  call_ack : AppendIo → Uuid → WalCall E

module _ {E : Type 0} (c : Codec E) where
  -- `classify_append_failure`; the tail is what is in the file after the old bytes.
  unfoldable pub classify_append_failure :
      AppendIo → List ℕ → List ℕ → PersistenceWal → AppendOutcome × PersistenceWal
  classify_append_failure io base line w =
      let tail = take io.written line in
      if not io.readable
      then unknown io base line w
      else if is_empty tail
      then durable_rollback io base line w
      else if ends_with_newline tail && is_valid_frame c (take (length tail - 1) tail)
      then (if io.resynced
          then (admitted_degraded, to_file (base ++ tail) w)
          else unknown io base line w)
      else if is_valid_frame c tail
      then (if io.delimited
          then (admitted_degraded, to_file (base ++ tail ++ newline ∷ []) w)
          else unknown io base line w)
      else durable_rollback io base line w

  abbrev append_line : AppendIo → Option (List ℕ) → PersistenceWal → AppendOutcome × PersistenceWal
  append_line io none w = (not_prepared, w)
  append_line io (some line) w =
      if not io.stated
      then (not_prepared, w)
      else if io.synced
      then (appended, to_file (contents w ++ line) w)
      else classify_append_failure io (contents w) line w

  -- `append_frame_inner`: opening the file makes it.
  unfoldable pub append_frame :
      AppendIo → WalFrame E → PersistenceWal → AppendOutcome × PersistenceWal
  append_frame io f w =
      if not io.opened
      then (not_prepared, w)
      else append_line io (line_of c f) (to_file (contents w) w)

  abbrev append_admission :
      AppendIo
      → Uuid
      → ℕ
      → Option (WalFrame E)
      → PersistenceWal
      → Result WalError (Uuid × ℕ) × PersistenceWal
  append_admission io id seq none w = (err not_serialized, w)
  append_admission io id seq (some f) w =
      let done = append_frame io f w in
      if is_durable done.0
      then (ok (id, seq), mark_marker_active io (record done.1 { admit_sequence = seq }))
      else (err not_appended, done.1)

  -- `admit`, where `disk_space` is the answer of `check_disk_space` and `id` that of `Uuid::new_v4`.
  unfoldable pub admit :
      AppendIo → Bool → Uuid → E → PersistenceWal → Result WalError (Uuid × ℕ) × PersistenceWal
  admit io disk_space id event w =
      if not w.replay_succeeded
      then (err not_replayed, w)
      else if is_fatal w
      then (err fatally_degraded, w)
      else if not disk_space
      then (err low_disk_space, w)
      else (let seq = (w.admit_sequence + 1) % 2 ^ 64 in
          append_admission io id seq (new_frame c (admission id event seq)) w)

  abbrev append_ack :
      AppendIo → Option (WalFrame E) → PersistenceWal → Result WalError (Unit {0}) × PersistenceWal
  append_ack io none w = (err not_serialized, w)
  append_ack io (some f) w =
      let done = append_frame io f w in
      if is_durable done.0 then (ok tt, done.1) else (err not_appended, done.1)

  -- `ack`
  unfoldable pub acknowledge :
      AppendIo → Uuid → PersistenceWal → Result WalError (Unit {0}) × PersistenceWal
  acknowledge io id w =
      if not w.replay_succeeded
      then (err not_replayed, w)
      else if is_fatal w
      then (err fatally_degraded, w)
      else append_ack io (new_frame c (ack id)) w

  -- The record of a call that was answered with success.
  abbrev pub admitted_record : E → Result WalError (Uuid × ℕ) → List (WalRecord E)
  admitted_record event (ok (id, seq)) = admission id event seq ∷ []
  admitted_record event (err e) = []

  abbrev pub acked_record : Uuid → Result WalError (Unit {0}) → List (WalRecord E)
  acked_record id (ok u) = ack id ∷ []
  acked_record id (err e) = []

  unfoldable pub perform : WalCall E → PersistenceWal → List (WalRecord E) × PersistenceWal
  unfolding admit acknowledge
  perform (call_admit io disk_space id event) w =
      (admitted_record event (admit io disk_space id event w).0, (admit io disk_space id event w).1)
  perform (call_ack io id) w = (acked_record id (acknowledge io id w).0, (acknowledge io id w).1)

  unfoldable pub perform_all :
      List (WalCall E) → PersistenceWal → List (WalRecord E) × PersistenceWal
  unfolding perform
  perform_all [] w = ([], w)
  perform_all (call ∷ calls) w =
      let rest = perform_all calls (perform call w).1 in ((perform call w).0 ++ rest.0, rest.1)
