-- ===== src/Wal/Sequence.antt =====
-- The sequence numbers of phira-mp-plus-server/src/persistence/wal/mod.rs.
use phira_mp_plus.Common.{
  ℕ, ◌+◌, ◌%◌, ◌^◌, ◌<◌, ◌≡◌, refl, ap, ◌∙◌, ◌⊎◌, inl, inr, List, [], ◌∷◌, ◌++◌, Bool, true, some,
  length, arith, Option-cases, All, not,
}
use phira_mp_plus.Wire.Containers.{Uuid}
use phira_mp_plus.Wal.Format.{
  WalRecord, admission, ack, WalFrame, Codec, IsJson, IsSettled, new_frame, newline,
}
use phira_mp_plus.Wal.State.{PersistenceWal, write_marker, marker, marker_max_sequence}
use phira_mp_plus.Wal.Append.{
  AppendIo, append_frame, classify_append_failure, mark_marker_active, admit, acknowledge, WalCall,
  call_admit, call_ack, perform, perform_all,
}
use phira_mp_plus.Wal.Recovery.{Entry, admitted, pending, greater, max_sequence_of, is_acked}
use phira_mp_plus.Wal.Replay.{lines_for, replay, check_instance_consistency, write_instance_marker}
use phira_mp_plus.Wal.Compact.{CompactIo, admissions, compact}
use phira_mp_plus.Wal.Lines.{lines_for-cons}
use phira_mp_plus.Wal.Crash.{works, writes, replay-replay_bytes, whole-Restarts}
use phira_mp_plus.Wal.Compaction.{admitted-admissions, compact_bytes-entries}
use phira_mp_plus.Wal.Ledger.{
  reread_all, read_back, outstanding, pending-reread_all, pending-outstanding,
  max_sequence_of-read_back, admissions-IsSettled, reread_all-IsSettled, reread_all-admissions,
}

module _ {E : Type 0} where
  admitted-append : (rs ss : List (WalRecord E)) → admitted (rs ++ ss) ≡ admitted rs ++ admitted ss
  unfolding admitted
  admitted-append [] ss = refl
  admitted-append (ack id ∷ rs) ss = admitted-append rs ss
  admitted-append (admission id event seq ∷ rs) ss =
      ap (◌∷◌ (record { id = id; event = event; sequence = seq })) (admitted-append rs ss)

  -- The entries carry these numbers, one after the other.
  abbrev pub IsNumbered : ℕ → List (Entry E) → Type 0
  IsNumbered next [] = Unit {0}
  IsNumbered next (e ∷ es) = (e.sequence ≡ next) × IsNumbered (next + 1) es

module _ {E : Type 0} (c : Codec E) where
  append_frame-sequence :
      (io : AppendIo) (f : WalFrame E) (w : PersistenceWal)
      → (append_frame c io f w).1.admit_sequence ≡ w.admit_sequence
  unfolding append_frame classify_append_failure
  append_frame-sequence io f w = ground arith

  mark_marker_active-sequence :
      (io : AppendIo) (w : PersistenceWal)
      → (mark_marker_active io w).admit_sequence ≡ w.admit_sequence
  unfolding mark_marker_active write_marker
  mark_marker_active-sequence io w = ground arith

  -- A call takes the next number, or none and no record carries one.
  abbrev Numbers : PersistenceWal → List (WalRecord E) × PersistenceWal → Type 0
  Numbers w done =
      ((admitted done.0 ≡ []) × (done.1.admit_sequence ≡ w.admit_sequence))
      ⊎ ((e : Entry E) × (admitted done.0 ≡ e ∷ [])
          × (e.sequence ≡ w.admit_sequence + 1)
          × (done.1.admit_sequence ≡ w.admit_sequence + 1))

  append_frame-admits :
      (io : AppendIo) (f : WalFrame E) (w : PersistenceWal) (seq : ℕ)
      → (mark_marker_active io
          (record ((append_frame c io f w).1) { admit_sequence = seq })).admit_sequence
        ≡ seq
  append_frame-admits io f w seq =
      mark_marker_active-sequence io (record ((append_frame c io f w).1) { admit_sequence = seq })

  admit-numbers :
      (io : AppendIo) (disk_space : Bool) (id : Uuid) (event : E) (w : PersistenceWal)
      → w.admit_sequence + 1 < 2 ^ 64
      → (((perform c (call_admit io disk_space id event) w).0 ≡ [])
          × ((perform c (call_admit io disk_space id event) w).1.admit_sequence ≡ w.admit_sequence))
        ⊎ (((perform c (call_admit io disk_space id event) w).0
              ≡ admission id event (w.admit_sequence + 1) ∷ [])
            × ((perform c (call_admit io disk_space id event) w).1.admit_sequence
                ≡ w.admit_sequence + 1))
  unfolding perform admit
  admit-numbers io disk_space id event w h =
      let wrap : (w.admit_sequence + 1) % 2 ^ 64 ≡ w.admit_sequence + 1 = omega arith in
      elim (Option-cases (new_frame c (admission id event (w.admit_sequence + 1)))) [
        | inl no_frame ↦ rw wrap (ground (arith, no_frame))
        | inr (f, e) ↦ rw wrap (
            ground (
              arith,
              e,
              append_frame-sequence io f w,
              append_frame-admits io f w (w.admit_sequence + 1),
            ))
      ]

  perform-Numbers :
      (call : WalCall E) (w : PersistenceWal)
      → w.admit_sequence + 1 < 2 ^ 64
      → Numbers w (perform c call w)
  unfolding perform acknowledge admitted
  perform-Numbers (call_ack io id) w h = elim (Option-cases (new_frame c (ack id))) [
    | inl no_frame ↦ inl (ground (arith, no_frame), ground (arith, no_frame))
    | inr (f, e) ↦ inl (ground (arith, e), ground (arith, e, append_frame-sequence io f w))
  ]
  perform-Numbers (call_admit io disk_space id event) w h =
      elim (admit-numbers io disk_space id event w h) [
        | inl (silent, same) ↦ inl (ap admitted silent, same)
        | inr (spoken, next) ↦ inr (
          record { id = id; event = event; sequence = w.admit_sequence + 1 },
          ap admitted spoken,
          refl,
          next,
        )
      ]

  -- While the counter does not wrap, the admissions that succeed are numbered without gaps, from one
  -- more than the counter: a call that fails takes no number.
  pub perform_all-IsNumbered :
      (calls : List (WalCall E)) (w : PersistenceWal)
      → w.admit_sequence + length calls < 2 ^ 64
      → IsNumbered (w.admit_sequence + 1) (admitted (perform_all c calls w).0)
  unfolding perform_all admitted
  perform_all-IsNumbered [] w h = tt
  perform_all-IsNumbered (call ∷ calls) w h =
      let after = (perform c call w).1 in
      elim (perform-Numbers call w (omega arith)) [
        | inl (silent, same) ↦
            rw (admitted-append, silent)
              (rw same at (perform_all-IsNumbered calls after (omega arith)))
        | inr (e, one, here, next) ↦
            rw (admitted-append, one)
              (here, rw next at (perform_all-IsNumbered calls after (omega arith)))
      ]

-- A file system that does all that a compaction asks.
abbrev pub compacts : CompactIo
compacts = record {
  marker_readable = true;
  readable = true;
  removed = true;
  marker_io = writes;
  renamed = true;
  synced = true;
}

module _ {E : Type 0} {c : Codec E} (j : IsJson c) where
  -- A compaction of entries that succeeds has replaced the file.
  compact-file :
      (w : PersistenceWal) (log : List (WalRecord E)) {bytes : List ℕ} (e : Entry E)
      (es : List (Entry E)) {n : ℕ}
      → All (IsSettled j) log
      → w.file ≡ some bytes
      → lines_for c log ≡ some bytes
      → pending (reread_all (j.read_event) log) ≡ e ∷ es
      → (compact c compacts w).0 ≡ some n
      → (again : List ℕ) × (lines_for c (admissions (e ∷ es)) ≡ some again)
        × ((compact c compacts w).1.file ≡ some again)
        × ((compact c compacts w).1.instance_marker ≡ w.instance_marker)
  unfolding compact
  compact-file w log {bytes} e es q f h p done =
      let entries = compact_bytes-entries j compacts w log q h in
      elim (Option-cases (lines_for c (admissions (e ∷ es)))) [
        | inl unwritten ↦ absurd (ground (arith, f, entries, p, unwritten, done))
        | inr (again, more) ↦
            (again, more, ground (arith, f, entries, p, more), ground (arith, f, entries, p, more))
      ]

  not_empty :
      (e : Entry E) (es : List (Entry E)) {again : List ℕ}
      → lines_for c (admissions (e ∷ es)) ≡ some again
      → (b : ℕ) × (bs : List ℕ) × (again ≡ b ∷ bs)
  unfolding admissions
  not_empty e es h =
      let (f, bs, rest, l, es', whole) =
        lines_for-cons j (admission (e.id) (e.event) (e.sequence)) (admissions es) h in
      starts bs rest whole
    where
      starts :
          (bs rest : List ℕ) {xs : List ℕ}
          → xs ≡ bs ++ newline ∷ rest
          → (b : ℕ) × (ys : List ℕ) × (xs ≡ b ∷ ys)
      starts [] rest w = (newline, rest, w)
      starts (b ∷ bs) rest w = (b, bs ++ newline ∷ rest, w)

  keeps_marker :
      (w : PersistenceWal) {clean : Bool} {mark : ℕ}
      → w.instance_marker ≡ marker clean mark
      → marker_max_sequence (write_instance_marker writes w).1.instance_marker ≡ mark
  unfolding write_instance_marker
  keeps_marker w m = ground (arith, m)

  allows_start :
      (w : PersistenceWal) {clean : Bool} {mark b : ℕ} {bs : List ℕ}
      → w.instance_marker ≡ marker clean mark
      → w.file ≡ some (b ∷ bs)
      → check_instance_consistency works w ≡ some w
  unfolding check_instance_consistency
  allows_start w m f = ground (arith, m, f)

  -- After a compaction that succeeds and leaves entries, of a log whose events a first reading settles, the
  -- next start goes on from the greatest number of these entries or of the instance marker, whatever numbers
  -- were given before.
  pub compact-replay_sequence :
      (w : PersistenceWal) (log : List (WalRecord E)) {bytes : List ℕ} (e : Entry E)
      (es : List (Entry E)) {clean : Bool} {mark n : ℕ}
      → All (IsSettled j) log
      → w.file ≡ some bytes
      → lines_for c log ≡ some bytes
      → outstanding log ≡ e ∷ es
      → w.instance_marker ≡ marker clean mark
      → (compact c compacts w).0 ≡ some n
      → (replay c works (compact c compacts w).1).1.admit_sequence
        ≡ greater (max_sequence_of (e ∷ es)) mark
  unfolding pending
  compact-replay_sequence w log e es q f h p m done =
      let read = reread_all (j.read_event) log in
      let first = record e { event = j.read_event (e.event) } in
      let others = read_back (j.read_event) es in
      let left : pending read ≡ first ∷ others =
        pending-reread_all (j.read_event) log
        ∙ ap (read_back (j.read_event)) (pending-outstanding log ∙ p) in
      let (again, more, file, same) = compact-file w log first others q f h left done in
      let next = (compact c compacts w).1 in
      let (b, bs, start) = not_empty first others more in
      let marked = same ∙ m in
      let settled : All (IsSettled j) (admissions (first ∷ others)) = rw left at (
        admissions-IsSettled j (λ (x : Entry E). not (is_acked (x.id) read)) read
          (reread_all-IsSettled j log q)) in
      let started = whole-Restarts j (admissions (first ∷ others)) settled more next file in
      let numbers =
        ap max_sequence_of (
          ap admitted (reread_all-admissions j (first ∷ others))
          ∙ admitted-admissions (read_back (j.read_event) (first ∷ others)))
        ∙ max_sequence_of-read_back (j.read_event) (first ∷ others)
        ∙ max_sequence_of-read_back (j.read_event) (e ∷ es) in
      rw (replay-replay_bytes j next again (allows_start next marked (rw start at file)) file)
        (rw (keeps_marker next marked, numbers) at (started.goes_on))
