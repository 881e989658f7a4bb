-- ===== src/Wal/Crash.antt =====
-- The start of phira-mp-plus-server/src/persistence/wal/mod.rs after a crash in an append.
use phira_mp_plus.Common.{
  ℕ, zero, suc, ◌<◌, ◌≡◌, refl, inl, inr, List, [], ◌∷◌, ◌++◌, append_assoc, append-nil, Bool, true,
  false, ◌||◌, Option, some, length, take, leb, arith, if◌then◌else◌, Bool-cases, take-append, All,
  ap, ◌∙◌,
}
use phira_mp_plus.Wal.Format.{
  WalRecord, WalFrame, Codec, IsJson, IsSettled, newline, is_empty, ends_with_newline,
}
use phira_mp_plus.Wal.State.{PersistenceWal, contents, MarkerIo, write_marker, marker_max_sequence}
use phira_mp_plus.Wal.Recovery.{
  Entry, admitted, pending, greater, max_sequence_of, kept_lines, records_of,
}
use phira_mp_plus.Wal.Replay.{
  ReplayIo, check_instance_consistency, lines_for, size_of_lines, write_instance_marker,
  needs_upgrade, upgraded, is_torn, marked, read_on, add_newline, cut_torn, replay_bytes, replay,
}
use phira_mp_plus.Wal.Lines.{IsLineOf, line-not_empty, lines_for-Segmented}
use phira_mp_plus.Wal.Reading.{Found, whole-Found, torn-Found, unterminated-Found, tail-open}
use phira_mp_plus.Wal.Durability.{Holds, cut-cases, lines_for-snoc, append-IsSettled}
use phira_mp_plus.Wal.Ledger.{
  reread_all, read_back, outstanding, pending-reread_all, pending-outstanding,
}

abbrev pub writes : MarkerIo
writes = record { renamed = true; synced = true }

-- A file system that does all that it is asked.
abbrev pub works : ReplayIo
works = record {
  removed = true;
  readable = true;
  delimited = true;
  truncated = true;
  rewritten = true;
  first_marker = writes;
  last_marker = writes;
}

module _ {E : Type 0} (c : Codec E) where
  -- The file after a replay: a torn end is cut off, a missing newline added.
  abbrev pub mended : List ℕ → Bool → List ℕ
  mended bytes torn =
      if torn
      then take (size_of_lines (kept_lines c bytes)) bytes
      else if ends_with_newline bytes || is_empty bytes
      then bytes
      else bytes ++ newline ∷ []

  -- A replay has this result and leaves the log ready with this file.
  pub record Restarts (result : Option (List (Entry E)) × PersistenceWal) (log : List (WalRecord E))
      (bytes : List ℕ) (mark : ℕ) : Type 0 where
    pub gives : result.0 ≡ some (pending log)
    pub ready : result.1.replay_succeeded ≡ true
    pub holds : contents (result.1) ≡ bytes
    pub goes_on : result.1.admit_sequence ≡ greater (max_sequence_of (admitted log)) mark

  upgraded-new : (fs : List (WalFrame E)) → needs_upgrade fs ≡ false → upgraded fs ≡ records_of fs
  unfolding upgraded
  upgraded-new fs h = ground arith

  -- The last steps, for frames of this format.
  marked-Restarts :
      (was_empty : Bool) (fs : List (WalFrame E)) (w : PersistenceWal)
      → needs_upgrade fs ≡ false
      → Restarts
          (marked c works was_empty fs (true, w))
          (records_of fs)
          (contents w)
          (marker_max_sequence w.instance_marker)
  unfolding write_marker
  marked-Restarts was_empty fs w new =
      rw (new, upgraded-new fs new)
        (record { gives = refl; ready = refl; holds = refl; goes_on = refl })

  write_instance_marker-works :
      (w : PersistenceWal)
      → write_instance_marker writes w ≡ (true, (write_instance_marker writes w).1)
  unfolding write_instance_marker write_marker
  write_instance_marker-works w = ground arith

  write_instance_marker-contents :
      (w : PersistenceWal) → contents (write_instance_marker writes w).1 ≡ contents w
  unfolding write_instance_marker write_marker
  write_instance_marker-contents w = ground arith

  write_instance_marker-mark :
      (w v : PersistenceWal)
      → w.instance_marker ≡ v.instance_marker
      → w.admit_sequence ≡ v.admit_sequence
      → marker_max_sequence (write_instance_marker writes w).1.instance_marker
        ≡ marker_max_sequence (write_instance_marker writes v).1.instance_marker
  unfolding write_instance_marker write_marker
  write_instance_marker-mark w v e a = ground arith

  abbrev with_file : List ℕ → PersistenceWal → PersistenceWal
  with_file bytes w = record w { file = some bytes }

  mended_file :
      (bytes : List ℕ) (w : PersistenceWal) (torn : Bool)
      → w.file ≡ some bytes
      → is_torn c bytes ≡ torn
      → (v : PersistenceWal) × (add_newline c works bytes w ≡ (true, v))
        × (cut_torn c works bytes v ≡ (true, with_file (mended bytes torn) w))
  unfolding add_newline cut_torn
  mended_file bytes w true e t = (w, ground (arith, t), ground (arith, t))
  mended_file bytes w false e t = elim (Bool-cases (ends_with_newline bytes || is_empty bytes)) [
    | inl ends ↦ (w, ground (arith, t, ends), ground (arith, t, ends, e))
    | inr bare ↦
        (with_file (bytes ++ newline ∷ []) w, ground (arith, t, bare), ground (arith, t, bare))
  ]

  replay_bytes-Restarts :
      (bytes : List ℕ) (w : PersistenceWal) (log : List (WalRecord E)) (torn : Bool)
      → w.file ≡ some bytes
      → Found c bytes log torn
      → Restarts
          (replay_bytes c works bytes w)
          log
          (mended bytes torn)
          (marker_max_sequence (write_instance_marker writes w).1.instance_marker)
  unfolding replay_bytes
  replay_bytes-Restarts bytes w log torn e found =
      let (v, added, cut) = mended_file bytes w torn e (found.dropped) in
      let ready = with_file (mended bytes torn) w in
      let last =
        marked-Restarts (is_empty bytes) (found.frames) (write_instance_marker writes ready).1
          (found.is_new) in
      rw (added, read_on, found.read, cut, write_instance_marker-works ready)
        (rw
          (
            found.is_log,
            write_instance_marker-contents ready,
            write_instance_marker-mark ready w refl refl,
          )
          at last)

module _ {E : Type 0} {c : Codec E} (j : IsJson c) where
  -- What a crash leaves of a record that was being appended: it is there if its text is.
  abbrev pub survivors : List (WalRecord E) → WalRecord E → List ℕ → ℕ → List (WalRecord E)
  survivors log r text n = log ++ (if leb (length text) n then r ∷ [] else [])

  -- A replay of a log that could be written.
  pub whole-Restarts :
      (log : List (WalRecord E)) {bytes : List ℕ}
      → All (IsSettled j) log
      → lines_for c log ≡ some bytes
      → (w : PersistenceWal) → w.file ≡ some bytes
      → Restarts c
          (replay_bytes c works bytes w)
          (reread_all (j.read_event) log)
          bytes
          (marker_max_sequence (write_instance_marker writes w).1.instance_marker)
  whole-Restarts log {bytes} q h w e =
      let tidy : mended c bytes false ≡ bytes = rw (lines_for-Segmented j log q h).has_end refl in
      rw tidy at (
        replay_bytes-Restarts c bytes w (reread_all (j.read_event) log) false e
          (whole-Found j log q h))

  cut_line-Restarts :
      (log : List (WalRecord E)) {bytes : List ℕ} (q : All (IsSettled j) log)
      (h : lines_for c log ≡ some bytes) {r : WalRecord E} {f : WalFrame E} {text : List ℕ}
      (l : IsLineOf j r f text) (n : ℕ) (w : PersistenceWal)
      → n < length text
      → w.file ≡ some (bytes ++ take n text)
      → Restarts c
          (replay_bytes c works (bytes ++ take n text) w)
          (reread_all (j.read_event) log)
          bytes
          (marker_max_sequence (write_instance_marker writes w).1.instance_marker)
  cut_line-Restarts log {bytes} q h l zero w short e =
      rw (append-nil bytes) (whole-Restarts log q h w (rw (append-nil bytes) at e))
  cut_line-Restarts log {bytes} q h {text = text} l (suc n) w short e =
      let (found, size) = torn-Found j log q h l (suc n) (omega arith) short in
      let cut : mended c (bytes ++ take (suc n) text) true ≡ bytes =
        rw size (take-append bytes (take (suc n) text)) in
      rw cut at (
        replay_bytes-Restarts c (bytes ++ take (suc n) text) w (reread_all (j.read_event) log) true
          e found)

  torn-Restarts :
      (log : List (WalRecord E)) {bytes : List ℕ} (q : All (IsSettled j) log)
      (h : lines_for c log ≡ some bytes) {r : WalRecord E} {f : WalFrame E} {text : List ℕ}
      (l : IsLineOf j r f text) (n : ℕ) (w : PersistenceWal)
      → IsSettled j r
      → w.file ≡ some (bytes ++ take n (text ++ newline ∷ []))
      → (whole : List ℕ) × (lines_for c (survivors log r text n) ≡ some whole)
        × Restarts c
            (replay_bytes c works (bytes ++ take n (text ++ newline ∷ [])) w)
            (reread_all (j.read_event) (survivors log r text n))
            whole
            (marker_max_sequence (write_instance_marker writes w).1.instance_marker)
  torn-Restarts log {bytes} q h {r} {text = text} l n w qr e = elim (cut-cases text n) [
    | inl (short, cut) ↦
        let none_left : survivors log r text n ≡ log = ground (arith, append-nil log, short) in
        rw (none_left, cut) (bytes, h, cut_line-Restarts log q h l n w short (rw cut at e))
    | inr (long, inl cut) ↦
        let one_left : survivors log r text n ≡ log ++ r ∷ [] = ground (arith, long) in
        let ended : mended c (bytes ++ text) false ≡ bytes ++ (text ++ newline ∷ []) =
          rw (tail-open bytes text (line-not_empty j l) (j.one_line _ (l.text_of)))
            (append_assoc bytes text (newline ∷ [])) in
        rw (one_left, cut)
          (
            bytes ++ (text ++ newline ∷ []),
            lines_for-snoc j log l h,
            rw ended at (
                replay_bytes-Restarts c (bytes ++ text) w
                  (reread_all (j.read_event) (log ++ r ∷ [])) false (rw cut at e)
                  (unterminated-Found j log q h l qr)),
          )
    | inr (long, inr cut) ↦
        let one_left : survivors log r text n ≡ log ++ r ∷ [] = ground (arith, long) in
        let h' = lines_for-snoc j log l h in
        rw (one_left, cut)
          (
            bytes ++ (text ++ newline ∷ []),
            h',
            whole-Restarts (log ++ r ∷ []) (append-IsSettled j log (r ∷ []) q (qr, tt)) h' w
                (rw cut at e),
          )
  ]

  pub replay-replay_bytes :
      (w : PersistenceWal) (bytes : List ℕ)
      → check_instance_consistency works w ≡ some w
      → w.file ≡ some bytes
      → replay c works w ≡ replay_bytes c works bytes w
  unfolding replay
  replay-replay_bytes w bytes consistent e = ground (arith, consistent, e)

  -- A crash in an append to a log whose events a first reading settles leaves any part of the new line; if
  -- the instance marker allows the start and the file system works, the replay returns the entries that are
  -- admitted and not struck out by an acknowledgement, as JSON gives them back, with the new record if all
  -- its text is there, and leaves a log of just these records that takes calls again.
  pub replay-survivors :
      (log : List (WalRecord E)) {bytes : List ℕ} (q : All (IsSettled j) log)
      (h : lines_for c log ≡ some bytes) {r : WalRecord E} {f : WalFrame E} {text : List ℕ}
      (l : IsLineOf j r f text) (n : ℕ) (w : PersistenceWal)
      → IsSettled j r
      → w.file ≡ some (bytes ++ take n (text ++ newline ∷ []))
      → check_instance_consistency works w ≡ some w
      → ((replay c works w).0
          ≡ some (read_back (j.read_event) (outstanding (survivors log r text n))))
        × Holds j (replay c works w).1 (survivors log r text n)
        × ((replay c works w).1.replay_succeeded ≡ true)
  replay-survivors log q h {r} {text = text} l n w qr e consistent =
      let (whole, held, started) = torn-Restarts log q h l n w qr e in
      let left = survivors log r text n in
      rw (replay-replay_bytes w _ consistent e) (
        started.gives
            ∙ ap some (
                pending-reread_all (j.read_event) left
                ∙ ap (read_back (j.read_event)) (pending-outstanding left)),
        rw (started.holds) held,
        started.ready,
      )
