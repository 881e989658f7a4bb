-- ===== src/Wal/Compaction.antt =====
-- The compaction of phira-mp-plus-server/src/persistence/wal/mod.rs loses no pending entry.
use phira_mp_plus.Common.{
  ℕ, ◌≡◌, refl, sym, ap, ◌∙◌, List, [], ◌∷◌, ◌++◌, Bool, true, false, not, Option, none, some,
  retain, arith, ◌⊎◌, Option-cases, inl, inr, append-nil, length, All,
}
use phira_mp_plus.Wire.Containers.{Uuid}
use phira_mp_plus.Wal.Format.{WalRecord, Codec, IsJson, IsSettled, split_lines}
use phira_mp_plus.Wal.State.{PersistenceWal, contents, write_marker}
use phira_mp_plus.Wal.Recovery.{Entry, admitted, is_acked, pending, list_pending, read_frames}
use phira_mp_plus.Wal.Replay.{lines_for}
use phira_mp_plus.Wal.Compact.{
  CompactIo, admissions, compact_nothing, compact_to_zero, compact_entries, replace_file,
  compact_lines, compact_bytes, compact,
}
use phira_mp_plus.Wal.Lines.{lines_for-Segmented}
use phira_mp_plus.Wal.Durability.{Holds}
use phira_mp_plus.Wal.Ledger.{
  reread_all, read_back, pending-reread_all, reread_all-IsSettled, reread_all_twice,
  reread_all-admissions, admissions-IsSettled,
}
use phira_mp_plus.Wal.Calls.{list_pending-Holds}

module _ {E : Type 0} where
  pub admitted-admissions : (es : List (Entry E)) → admitted (admissions es) ≡ es
  unfolding admitted admissions
  admitted-admissions [] = refl
  admitted-admissions (e ∷ es) = ap (◌∷◌ e) (admitted-admissions es)

  is_acked-admissions : (id : Uuid) (es : List (Entry E)) → is_acked id (admissions es) ≡ false
  unfolding is_acked admissions
  is_acked-admissions id [] = refl
  is_acked-admissions id (e ∷ es) = is_acked-admissions id es

  retain-all :
      (keep : Entry E → Bool) (es : List (Entry E))
      → ((e : Entry E) → keep e ≡ true)
      → retain keep es ≡ es
  retain-all keep [] h = refl
  retain-all keep (e ∷ es) h = ground (arith, h e, retain-all keep es h)

  -- A log of admissions alone has all of them pending.
  pub pending-admissions : (es : List (Entry E)) → pending (admissions es) ≡ es
  unfolding pending
  pending-admissions es =
      rw (admitted-admissions es) (retain-all _ es (λ e. rw (is_acked-admissions (e.id) es) refl))

module _ {E : Type 0} {c : Codec E} (j : IsJson c) where
  -- The file is the old one, or that of the entries alone.
  compact_entries-contents :
      (io : CompactIo) (es : List (Entry E)) (w : PersistenceWal)
      → (contents (compact_entries c io es w).1 ≡ contents w)
        ⊎ (lines_for c (admissions es) ≡ some (contents (compact_entries c io es w).1))
  unfolding compact_to_zero write_marker lines_for admissions
  compact_entries-contents io [] w = ground arith
  compact_entries-contents io (e ∷ es) w = replaced (lines_for c (admissions (e ∷ es)))
    where
      replaced :
          (o : Option (List ℕ))
          → (contents (replace_file c io (length (e ∷ es)) o w).1 ≡ contents w)
            ⊎ (o ≡ some (contents (replace_file c io (length (e ∷ es)) o w).1))
      replaced none = inl refl
      replaced (some bytes) = ground arith

  pub compact_bytes-entries :
      (io : CompactIo) (w : PersistenceWal) (log : List (WalRecord E)) {bytes : List ℕ}
      → All (IsSettled j) log
      → lines_for c log ≡ some bytes
      → compact_bytes c io bytes w
        ≡ compact_entries c io (pending (reread_all (j.read_event) log)) w
  unfolding compact_bytes compact_lines read_frames split_lines
  compact_bytes-entries io w log {bytes} q h =
      let s = lines_for-Segmented j log q h in
      let split : split_lines bytes ≡ s.segments ++ [] ∷ [] =
        ap split_lines (sym (append-nil bytes)) ∙ s.splits [] in
      let lines : compact_lines c bytes ≡ s.segments ++ [] ∷ [] = rw (s.has_end, split) refl in
      let read : read_frames c (compact_lines c bytes) ≡ some (s.frames) =
        rw lines (s.reads ([] ∷ []) refl ∙ ap some (append-nil (s.frames))) in
      ground (arith, read, s.is_log)

  compact_nothing-contents :
      (io : CompactIo) (w : PersistenceWal) → contents (compact_nothing c io w).1 ≡ contents w
  unfolding compact_nothing
  compact_nothing-contents io w = ground arith

  compact-contents :
      (io : CompactIo) (w : PersistenceWal) (log : List (WalRecord E))
      → All (IsSettled j) log
      → Holds j w log
      → (contents (compact c io w).1 ≡ contents w)
        ⊎ Holds j (compact c io w).1 (admissions (pending (reread_all (j.read_event) log)))
  unfolding compact
  compact-contents io w log q h = elim (Option-cases w.file) [
    | inl no_file ↦ ground (arith, no_file, compact_nothing-contents io w)
    | inr (bytes, e) ↦ ground (
      arith,
      e,
      compact_bytes-entries io w log q (rw e at h),
      compact_entries-contents io (pending (reread_all (j.read_event) log)) w,
    )
  ]

  -- Entries that have been read back are read back as they are.
  pending-reread_all_twice :
      (log : List (WalRecord E))
      → All (IsSettled j) log
      → read_back (j.read_event) (pending (reread_all (j.read_event) log))
        ≡ pending (reread_all (j.read_event) log)
  pending-reread_all_twice log q =
      sym (pending-reread_all (j.read_event) (reread_all (j.read_event) log))
      ∙ ap pending (reread_all_twice j log q)

  -- The log after a compaction, whichever of its steps failed.
  compact-Holds :
      (io : CompactIo) (w : PersistenceWal) (log : List (WalRecord E))
      → All (IsSettled j) log
      → Holds j w log
      → (after : List (WalRecord E)) × All (IsSettled j) after
        × Holds j (compact c io w).1 after
        × (pending (reread_all (j.read_event) after) ≡ pending (reread_all (j.read_event) log))
  unfolding pending
  compact-Holds io w log q h =
      let read = reread_all (j.read_event) log in
      elim (compact-contents io w log q h) [
        | inl same ↦ (log, q, rw same h, refl)
        | inr new ↦ (
          admissions (pending read),
          admissions-IsSettled j (λ (e : Entry E). not (is_acked (e.id) read)) read
              (reread_all-IsSettled j log q),
          new,
          ap pending (reread_all-admissions j (pending read))
              ∙ pending-admissions (read_back (j.read_event) (pending read))
              ∙ pending-reread_all_twice log q,
        )
      ]

  compact-replayed :
      (io : CompactIo) (w : PersistenceWal)
      → (compact c io w).1.replay_succeeded ≡ w.replay_succeeded
  unfolding compact compact_nothing compact_bytes compact_to_zero write_marker
  compact-replayed io w = ground arith

  -- Whichever of its steps the file system fails, a compaction of a log in order whose events a first reading
  -- settles changes nothing in the list of the pending entries.
  pub compact-list_pending :
      (io : CompactIo) (w : PersistenceWal) (log : List (WalRecord E))
      → All (IsSettled j) log
      → Holds j w log
      → w.replay_succeeded ≡ true
      → (list_pending c true (compact c io w).1).0 ≡ (list_pending c true w).0
  compact-list_pending io w log q h r =
      let (after, settled, held, same) = compact-Holds io w log q h in
      list_pending-Holds j (compact c io w).1 after settled held (compact-replayed io w ∙ r)
      ∙ ap some same
      ∙ sym (list_pending-Holds j w log q h r)
