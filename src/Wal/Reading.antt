-- ===== src/Wal/Reading.antt =====
-- What the readers of phira-mp-plus-server/src/persistence/wal/mod.rs make of a log, and of one whose
-- last line a crash has torn.
use phira_mp_plus.Common.{
  ℕ, zero, suc, ◌<◌, ◌≡◌, refl, sym, ap, ◌∙◌, List, [], ◌∷◌, ◌++◌, append-nil, Bool, true, false,
  not, ◌||◌, some, length, length-append, take, if◌then◌else◌, All, arith,
}
use phira_mp_plus.Wal.Format.{
  WalRecord, WalFrame, Codec, IsJson, IsSettled, newline, has_byte, is_valid_frame, split_lines,
  is_empty, ends_with_newline,
}
use phira_mp_plus.Wal.Recovery.{read_frames, records_of, kept_lines, drop_torn_line, drop_torn_tail}
use phira_mp_plus.Wal.Replay.{lines_for, needs_upgrade, size_of_lines, is_torn}
use phira_mp_plus.Wal.Ledger.{reread_all, reread_all-append}
use phira_mp_plus.Wal.Lines.{
  lines_for-Segmented, splits_part, IsLineOf, line-is_valid_frame, line-not_empty,
  new_frame-record_of, new_frame-verify, read_frame, has_byte-take, ends_with_newline-none,
  ends_with_newline-append,
}

module _ {E : Type 0} (c : Codec E) where
  abbrev pub AreSound : List (List ℕ) → Type 0
  AreSound = All (λ s. (is_empty s ≡ false) × (is_valid_frame c s ≡ true))

  pub drop_torn_line_sound :
      (seen : Bool) (ss : List (List ℕ))
      → AreSound ss
      → drop_torn_line c seen (ss ++ [] ∷ []) ≡ ss ++ [] ∷ []
  unfolding drop_torn_line
  drop_torn_line_sound seen [] h = ground arith
  drop_torn_line_sound seen (s ∷ []) h = ground arith
  drop_torn_line_sound seen (s ∷ t ∷ ss) h =
      ground (arith, drop_torn_line_sound (seen || not (is_empty s)) (t ∷ ss) h.1)

  drop_torn_tail_sound :
      (ss : List (List ℕ)) (tail : List ℕ)
      → drop_torn_tail c (ss ++ tail ∷ []) ≡ ss ++ (if is_valid_frame c tail then tail ∷ [] else [])
  unfolding drop_torn_tail
  drop_torn_tail_sound [] tail = refl
  drop_torn_tail_sound (s ∷ []) tail = refl
  drop_torn_tail_sound (s ∷ t ∷ ss) tail = ap (◌∷◌ s) (drop_torn_tail_sound (t ∷ ss) tail)

records_of-append :
    {E : Type 0} (fs gs : List (WalFrame E))
    → records_of (fs ++ gs) ≡ records_of fs ++ records_of gs
unfolding records_of
records_of-append [] gs = refl
records_of-append (f ∷ fs) gs = ap (◌∷◌ f.record_of) (records_of-append fs gs)

needs_upgrade-append :
    {E : Type 0} (fs gs : List (WalFrame E))
    → needs_upgrade (fs ++ gs) ≡ (needs_upgrade fs || needs_upgrade gs)
unfolding needs_upgrade
needs_upgrade-append [] gs = refl
needs_upgrade-append (f ∷ fs) gs = ground (arith, needs_upgrade-append fs gs)

-- A part of a line at the end: the file does not end with a newline.
pub tail-open :
    (bytes tail : List ℕ)
    → is_empty tail ≡ false
    → has_byte newline tail ≡ false
    → (ends_with_newline (bytes ++ tail) || is_empty (bytes ++ tail)) ≡ false
tail-open bytes [] e h = absurd (cc e)
tail-open [] (y ∷ ys) e h = ground (arith, ends_with_newline-none (y ∷ ys) h)
tail-open (b ∷ bs) (y ∷ ys) e h =
    ground (arith, ends_with_newline-append (b ∷ bs) y ys, ends_with_newline-none (y ∷ ys) h)

-- What a reader finds in a file: frames of these records, and whether it dropped the end.
pub record Found {E : Type 0} (c : Codec E) (bytes : List ℕ) (log : List (WalRecord E))
    (torn : Bool) : Type 0 where
  pub frames : List (WalFrame E)
  pub read : read_frames c (kept_lines c bytes) ≡ some frames
  pub is_log : records_of frames ≡ log
  pub is_new : needs_upgrade frames ≡ false
  pub dropped : is_torn c bytes ≡ torn

module _ {E : Type 0} {c : Codec E} (j : IsJson c) where
  pub whole-Found :
      (log : List (WalRecord E)) {bytes : List ℕ}
      → All (IsSettled j) log
      → lines_for c log ≡ some bytes
      → Found c bytes (reread_all (j.read_event) log) false
  unfolding kept_lines read_frames split_lines
  whole-Found log {bytes} q h =
      let s = lines_for-Segmented j log q h in
      let split : split_lines bytes ≡ s.segments ++ [] ∷ [] =
        ap split_lines (sym (append-nil bytes)) ∙ s.splits [] in
      let kept : kept_lines c bytes ≡ s.segments ++ [] ∷ [] =
        rw (s.has_end, split) (drop_torn_line_sound c false (s.segments) (s.sound)) in
      record {
        frames = s.frames;
        read = rw kept (s.reads ([] ∷ []) refl ∙ ap some (append-nil (s.frames)));
        is_log = s.is_log;
        is_new = s.is_new;
        dropped = rw (kept, split) (ground arith);
      }

  pub part_invalid :
      {r : WalRecord E} {f : WalFrame E} {text : List ℕ} (l : IsLineOf j r f text) (n : ℕ)
      → n < length text
      → is_valid_frame c (take n text) ≡ false
  unfolding is_valid_frame
  part_invalid {f = f} l n q = rw (j.prefix_free f n (l.text_of) q) refl

  module _ (log : List (WalRecord E)) {bytes : List ℕ} (q : All (IsSettled j) log)
      (h : lines_for c log ≡ some bytes) {r : WalRecord E} {f : WalFrame E} {text : List ℕ}
      (l : IsLineOf j r f text) where
    part_line : (n : ℕ) → 0 < n → n < length text → is_empty (take n text) ≡ false
    part_line n p q = go text n p q
      where
        go : (xs : List ℕ) (n : ℕ) → 0 < n → n < length xs → is_empty (take n xs) ≡ false
        go [] n p q = absurd (omega arith)
        go (x ∷ xs) zero p q = absurd (omega arith)
        go (x ∷ xs) (suc n) p q = refl

    -- A torn line is dropped.
    pub torn-Found :
        (n : ℕ)
        → 0 < n
        → n < length text
        → Found c (bytes ++ take n text) (reread_all (j.read_event) log) true
          × (size_of_lines (kept_lines c (bytes ++ take n text)) ≡ length bytes)
    unfolding kept_lines read_frames
    torn-Found n p short =
        let s = lines_for-Segmented j log q h in
        let tail = take n text in
        let clean = has_byte-take newline n text (j.one_line f (l.text_of)) in
        let kept : kept_lines c (bytes ++ tail) ≡ s.segments ++ [] =
          rw
            (
              tail-open bytes tail (part_line n p short) clean,
              splits_part j s tail clean,
              drop_torn_tail_sound c (s.segments) tail,
              part_invalid l n short,
            )
            refl in
        (
          record {
            frames = s.frames;
            read = rw kept (s.reads [] refl ∙ ap some (append-nil (s.frames)));
            is_log = s.is_log;
            is_new = s.is_new;
            dropped =
                rw (kept, splits_part j s tail clean)
                  (ground (arith, append-nil (s.segments), length-append (s.segments) (tail ∷ [])));
          },
          rw (kept, append-nil (s.segments)) (s.has_size),
        )

    -- A whole frame without its newline is kept.
    pub unterminated-Found :
        IsSettled j r → Found c (bytes ++ text) (reread_all (j.read_event) (log ++ r ∷ [])) false
    unfolding kept_lines read_frames records_of needs_upgrade
    unterminated-Found qr =
        let s = lines_for-Segmented j log q h in
        let clean = j.one_line f (l.text_of) in
        let kept : kept_lines c (bytes ++ text) ≡ s.segments ++ text ∷ [] =
          rw
            (
              tail-open bytes text (line-not_empty j l) clean,
              splits_part j s text clean,
              drop_torn_tail_sound c (s.segments) text,
              line-is_valid_frame j l qr,
            )
            refl in
        let g = read_frame j l in
        let last : read_frames c (text ∷ []) ≡ some (g ∷ []) = ground (
          arith,
          line-not_empty j l,
          j.reads f (l.text_of),
          new_frame-verify j l qr,
          (new_frame-record_of j l).1,
        ) in
        record {
          frames = s.frames ++ g ∷ [];
          read = rw kept (s.reads (text ∷ []) last);
          is_log =
              records_of-append (s.frames) (g ∷ [])
              ∙ ground (
                arith,
                s.is_log,
                (new_frame-record_of j l).0,
                reread_all-append (j.read_event) log (r ∷ []),
              );
          is_new =
              needs_upgrade-append (s.frames) (g ∷ [])
              ∙ ground (arith, s.is_new, (new_frame-record_of j l).1);
          dropped = rw (kept, splits_part j s text clean) (ground arith);
        }
