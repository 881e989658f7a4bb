-- ===== src/Wal/Damage.antt =====
-- A damaged line before the last one stops the log of
-- phira-mp-plus-server/src/persistence/wal/mod.rs.
use phira_mp_plus.Common.{
  ℕ, ◌≡◌, refl, sym, ap, ◌∙◌, ◌⊎◌, List, [], ◌∷◌, ◌++◌, append_assoc, append-nil, Bool, true, false,
  not, ◌||◌, none, some, arith, Option-cases, inl, inr, All,
}
use phira_mp_plus.Wal.Format.{
  WalRecord, Codec, IsJson, IsSettled, newline, has_byte, is_valid_frame, split_lines, is_empty,
  ends_with_newline,
}
use phira_mp_plus.Wal.State.{PersistenceWal, is_fatal}
use phira_mp_plus.Wal.Append.{WalCall, perform_all}
use phira_mp_plus.Wal.Recovery.{read_frames, kept_lines, drop_torn_line, list_pending}
use phira_mp_plus.Wal.Replay.{
  ReplayIo, lines_for, check_instance_consistency, add_newline, read_on, replay_bytes, replay,
}
use phira_mp_plus.Wal.Lines.{
  lines_for-Segmented, lines_for-cons, split_lines-line, ends-line, line-not_empty,
  line-is_valid_frame,
}
use phira_mp_plus.Wal.Calls.{perform_all-stopped}
use phira_mp_plus.Wal.Reading.{AreSound, drop_torn_line_sound}

check-nonempty :
    (io : ReplayIo) (w : PersistenceWal) (bytes : List ℕ)
    → w.file ≡ some bytes
    → is_empty bytes ≡ false
    → (check_instance_consistency io w ≡ some w) ⊎ (check_instance_consistency io w ≡ none)
unfolding check_instance_consistency
check-nonempty io w [] e h = absurd (cc h)
check-nonempty io w (b ∷ bs) e h = ground (arith, e)

module _ {E : Type 0} (c : Codec E) where
  -- One bad line, and there is no result.
  read_frames-bad :
      (xs : List (List ℕ)) (s : List ℕ) (ys : List (List ℕ))
      → is_empty s ≡ false
      → is_valid_frame c s ≡ false
      → read_frames c (xs ++ s ∷ ys) ≡ none
  unfolding read_frames is_valid_frame
  read_frames-bad [] s ys full bad = ground (arith, full, bad)
  read_frames-bad (x ∷ xs) s ys full bad = elim (Option-cases (c.from_slice x)) [
    | inl no_frame ↦ ground (arith, no_frame, read_frames-bad xs s ys full bad)
    | inr (f, e) ↦ ground (arith, e, read_frames-bad xs s ys full bad)
  ]

  -- It is not dropped if a sound line comes after it.
  drop_torn_line-keeps :
      (seen : Bool) (xs : List (List ℕ)) (s y : List ℕ) (ys : List (List ℕ))
      → AreSound c xs
      → AreSound c (y ∷ ys)
      → drop_torn_line c seen (xs ++ s ∷ y ∷ ys ++ [] ∷ []) ≡ xs ++ s ∷ y ∷ ys ++ [] ∷ []
  unfolding drop_torn_line
  drop_torn_line-keeps seen [] s y ys hx hy =
      ground (arith, hy, drop_torn_line_sound c (seen || not (is_empty s)) (y ∷ ys) hy)
  drop_torn_line-keeps seen (x ∷ xs) s y ys hx hy =
      ground (arith, hx.0, drop_torn_line-keeps (seen || not (is_empty x)) xs s y ys hx.1 hy)

  -- A damaged line after a log and before another.
  pub record IsDamaged (bytes : List ℕ) : Type 0 where
    pub before : List (WalRecord E)
    pub first : WalRecord E
    pub rest : List (WalRecord E)
    pub good : List ℕ
    pub bad : List ℕ
    pub more : List ℕ
    pub good_before : lines_for c before ≡ some good
    pub good_after : lines_for c (first ∷ rest) ≡ some more
    pub one_line : has_byte newline bad ≡ false
    pub filled : is_empty bad ≡ false
    pub invalid : is_valid_frame c bad ≡ false
    pub whole : bytes ≡ good ++ (bad ++ newline ∷ more)

module _ {E : Type 0} {c : Codec E} (j : IsJson c) {bytes : List ℕ} (d : IsDamaged c bytes)
    (q : All (IsSettled j) (d.before)) (q' : All (IsSettled j) (d.first ∷ d.rest)) where
  damaged-ends : (ends_with_newline bytes || is_empty bytes) ≡ true
  damaged-ends =
      rw (d.whole, ← append_assoc (d.good) (d.bad) (newline ∷ d.more))
        (ends-line (d.good ++ d.bad) (d.more)
          (lines_for-Segmented j (d.first ∷ d.rest) q' (d.good_after)).has_end)

  damaged-read_frames : read_frames c (kept_lines c bytes) ≡ none
  unfolding kept_lines split_lines
  damaged-read_frames =
      let (f, text, more, l, e, whole) = lines_for-cons j (d.first) (d.rest) (d.good_after) in
      let before = lines_for-Segmented j (d.before) q (d.good_before) in
      let after = lines_for-Segmented j (d.rest) q'.1 e in
      let last : split_lines more ≡ after.segments ++ [] ∷ [] =
        ap split_lines (sym (append-nil more)) ∙ after.splits [] in
      let split : split_lines bytes ≡ before.segments ++ d.bad ∷ text ∷ after.segments ++ [] ∷ [] =
        rw
          (
            d.whole,
            before.splits (d.bad ++ newline ∷ d.more),
            split_lines-line (d.bad) (d.more) (d.one_line),
            whole,
            split_lines-line text more (j.one_line f (l.text_of)),
          )
          (ap (λ ss. before.segments ++ d.bad ∷ text ∷ ss) last
            ∙ sym (append_assoc (before.segments) (d.bad ∷ text ∷ after.segments) ([] ∷ []))) in
      rw
        (
          damaged-ends,
          split,
          drop_torn_line-keeps c false (before.segments) (d.bad) text (after.segments)
              (before.sound) ((line-not_empty j l, line-is_valid_frame j l q'.0), after.sound),
        )
        (rw (append_assoc (before.segments) (d.bad ∷ text ∷ after.segments) ([] ∷ []))
          (read_frames-bad c (before.segments) (d.bad) _ (d.filled) (d.invalid)))

  damaged-not_empty : is_empty bytes ≡ false
  damaged-not_empty = rw (d.whole) (later (d.good) _ (now (d.bad)))
    where
      now : (xs : List ℕ) → is_empty (xs ++ newline ∷ d.more) ≡ false
      now [] = refl
      now (x ∷ xs) = refl

      later : (xs ys : List ℕ) → is_empty ys ≡ false → is_empty (xs ++ ys) ≡ false
      later [] ys h = h
      later (x ∷ xs) ys h = refl

  damaged-replay_bytes :
      (io : ReplayIo) (w : PersistenceWal) → replay_bytes c io bytes w ≡ (none, w)
  unfolding replay_bytes add_newline
  damaged-replay_bytes io w = rw (damaged-ends, read_on, damaged-read_frames) refl

  -- A damaged line between good ones, whose events a first reading settles, stops the start of a log: it
  -- fails, and changes neither file nor state.
  pub damaged-replay :
      (io : ReplayIo) (w : PersistenceWal) → w.file ≡ some bytes → replay c io w ≡ (none, w)
  unfolding replay
  damaged-replay io w e =
      ground (arith, e, check-nonempty io w bytes e damaged-not_empty, damaged-replay_bytes io w)

  -- Such a line stops a log that runs: the list of the pending entries fails, and
  -- no later call changes anything.
  damaged-list_pending :
      (w : PersistenceWal) (calls : List (WalCall E))
      → w.file ≡ some bytes
      → w.replay_succeeded ≡ true
      → ((list_pending c true w).0 ≡ none)
        × (perform_all c calls (list_pending c true w).1 ≡ ([], (list_pending c true w).1))
  unfolding list_pending is_fatal
  damaged-list_pending w calls e r = (
    ground (arith, damaged-read_frames, e, r),
    perform_all-stopped j calls (list_pending c true w).1
        (ground (arith, damaged-read_frames, e, r)),
  )
