-- ===== src/Wal/Calls.antt =====
-- Calls of the log of phira-mp-plus-server/src/persistence/wal/mod.rs, one after the other.
use phira_mp_plus.Common.{
  ◌+◌, ◌%◌, ◌^◌, ◌≡◌, refl, ◌∙◌, ◌⊎◌, inl, inr, List, [], ◌∷◌, ◌++◌, append_assoc, append-nil, true,
  some, arith, Option-cases, All, ap,
}
use phira_mp_plus.Wal.Format.{
  WalRecord, admission, ack, WalFrame, Codec, IsJson, IsSettled, new_frame,
}
use phira_mp_plus.Wal.State.{PersistenceWal, is_fatal, write_marker}
use phira_mp_plus.Wal.Append.{
  AppendIo, append_frame, classify_append_failure, mark_marker_active, admit, acknowledge, WalCall,
  call_admit, call_ack, perform, perform_all,
}
use phira_mp_plus.Wal.Recovery.{admitted, pending, list_pending}
use phira_mp_plus.Wal.Lines.{lines_for-none}
use phira_mp_plus.Wal.Reading.{whole-Found}
use phira_mp_plus.Wal.Durability.{Holds, perform-Holds, perform-IsSettled, IsSettledCall}
use phira_mp_plus.Wal.Ledger.{
  reread_all, read_back, outstanding, pending-reread_all, pending-outstanding,
}

module _ {E : Type 0} {c : Codec E} (j : IsJson c) where
  perform-fatal :
      (call : WalCall E) (w : PersistenceWal) → is_fatal w ≡ true → perform c call w ≡ ([], w)
  unfolding perform admit acknowledge
  perform-fatal (call_admit io disk_space id event) w h = ground arith
  perform-fatal (call_ack io id) w h = ground arith

  perform_all-fatal :
      (calls : List (WalCall E)) (w : PersistenceWal)
      → is_fatal w ≡ true
      → is_fatal (perform_all c calls w).1 ≡ true
  unfolding perform_all
  perform_all-fatal [] w h = h
  perform_all-fatal (call ∷ calls) w h = rw (perform-fatal call w h) (perform_all-fatal calls w h)

  -- A fatally degraded log takes no call.
  pub perform_all-stopped :
      (calls : List (WalCall E)) (w : PersistenceWal)
      → is_fatal w ≡ true
      → perform_all c calls w ≡ ([], w)
  unfolding perform_all
  perform_all-stopped [] w h = refl
  perform_all-stopped (call ∷ calls) w h =
      rw (perform-fatal call w h, perform_all-stopped calls w h) refl

  append_frame-replayed :
      (io : AppendIo) (f : WalFrame E) (w : PersistenceWal)
      → (append_frame c io f w).1.replay_succeeded ≡ w.replay_succeeded
  unfolding append_frame classify_append_failure
  append_frame-replayed io f w = ground arith

  mark_marker_active-replayed :
      (io : AppendIo) (w : PersistenceWal)
      → (mark_marker_active io w).replay_succeeded ≡ w.replay_succeeded
  unfolding mark_marker_active write_marker
  mark_marker_active-replayed io w = ground arith

  perform-replayed :
      (call : WalCall E) (w : PersistenceWal)
      → (perform c call w).1.replay_succeeded ≡ w.replay_succeeded
  unfolding perform admit acknowledge
  perform-replayed (call_admit io disk_space id event) w =
      let seq = (w.admit_sequence + 1) % 2 ^ 64 in
      elim (Option-cases (new_frame c (admission id event seq))) [
        | inl no_frame ↦ ground (arith, no_frame)
        | inr (f, e) ↦ ground (
          arith,
          e,
          append_frame-replayed io f w,
          mark_marker_active-replayed io
              (record ((append_frame c io f w).1) { admit_sequence = seq }),
        )
      ]
  perform-replayed (call_ack io id) w = elim (Option-cases (new_frame c (ack id))) [
    | inl no_frame ↦ ground (arith, no_frame)
    | inr (f, e) ↦ ground (arith, e, append_frame-replayed io f w)
  ]

  -- A log that could be written is read back.
  pub list_pending-Holds :
      (w : PersistenceWal) (log : List (WalRecord E))
      → All (IsSettled j) log
      → Holds j w log
      → w.replay_succeeded ≡ true
      → (list_pending c true w).0 ≡ some (pending (reread_all (j.read_event) log))
  list_pending-Holds w log q h r = elim (Option-cases w.file) [
    | inl no_file ↦
        let nothing = lines_for-none j log (rw no_file at h) in
        unfold list_pending pending admitted in ground (arith, nothing, no_file, r)
    | inr (bytes, e) ↦
        let found = whole-Found j log q (rw e at h) in
        unfold list_pending in ground (arith, found.read, found.is_log, e, r)
  ]

  list_pending-outstanding :
      (w : PersistenceWal) (log : List (WalRecord E))
      → All (IsSettled j) log
      → Holds j w log
      → w.replay_succeeded ≡ true
      → (list_pending c true w).0 ≡ some (read_back (j.read_event) (outstanding log))
  list_pending-outstanding w log q h r =
      list_pending-Holds w log q h r
      ∙ ap some (
          pending-reread_all (j.read_event) log
          ∙ ap (read_back (j.read_event)) (pending-outstanding log))

  -- However the file system answers the calls of a log in order whose events a first reading settles, either
  -- the log has stopped taking calls as fatally degraded, or its pending entries are those that its successful
  -- calls have admitted and not struck out by an acknowledgement, as JSON gives them back.
  pub perform_all-list_pending :
      (calls : List (WalCall E)) (w : PersistenceWal) (log : List (WalRecord E))
      → All (IsSettledCall j) calls
      → All (IsSettled j) log
      → Holds j w log
      → w.replay_succeeded ≡ true
      → (is_fatal (perform_all c calls w).1 ≡ true)
        ⊎ ((list_pending c true (perform_all c calls w).1).0
            ≡ some (read_back (j.read_event) (outstanding (log ++ (perform_all c calls w).0))))
  unfolding perform_all
  perform_all-list_pending [] w log qs q h r =
      inr (rw (append-nil log) (list_pending-outstanding w log q h r))
  perform_all-list_pending (call ∷ calls) w log qs q h r =
      elim (perform-Holds j call w log qs.0 h) [
        | inl fatal ↦ inl (perform_all-fatal calls (perform c call w).1 fatal)
        | inr more ↦ rw (← append_assoc) (
            perform_all-list_pending calls (perform c call w).1 (log ++ (perform c call w).0) qs.1
              (perform-IsSettled j call w log qs.0 q) more (perform-replayed call w ∙ r))
      ]
