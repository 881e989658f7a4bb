-- ===== src/Wal/Durability.antt =====
-- A call of the log of phira-mp-plus-server/src/persistence/wal/mod.rs has succeeded exactly if its
-- record is in the file, whatever the file system does, or else the log takes no more calls.
use phira_mp_plus.Common.{
  ℕ, zero, suc, ◌+◌, ◌-◌, ◌%◌, ◌^◌, ◌<◌, ◌≤◌, ◌≡◌, refl, ap, ◌⊎◌, inl, inr, List, [], ◌∷◌, ◌++◌,
  append_assoc, append-nil, true, false, some, length, length-append, take, arith, Option-cases,
  take-append, All, Result, ok, err,
}
use phira_mp_plus.Wal.Format.{
  WalRecord, admission, ack, WalFrame, Codec, IsJson, IsSettled, Settles, newline, new_frame,
}
use phira_mp_plus.Wal.State.{PersistenceWal, contents, is_fatal, write_marker}
use phira_mp_plus.Wal.Append.{
  AppendIo, AppendOutcome, classify_append_failure, append_frame, is_durable, mark_marker_active,
  admit, acknowledge, WalCall, call_admit, call_ack, perform, WalError, admitted_record,
  acked_record,
}
use phira_mp_plus.Wire.Containers.{Uuid}
use phira_mp_plus.Wal.Replay.{lines_for}
use phira_mp_plus.Wal.Lines.{
  IsLineOf, lines_for-cons, line-is_valid_frame, ends_with_newline-none, ends_with_newline-line,
  has_byte-take,
}
use phira_mp_plus.Wal.Reading.{part_invalid}

-- A part of a line: a proper part of the text, all of it, or the line with its newline.
pub cut-cases :
    (text : List ℕ) (n : ℕ)
    → ((n < length text) × (take n (text ++ newline ∷ []) ≡ take n text))
      ⊎ ((length text ≤ n)
          × ((take n (text ++ newline ∷ []) ≡ text)
              ⊎ (take n (text ++ newline ∷ []) ≡ text ++ newline ∷ [])))
cut-cases [] zero = inr (omega arith, inl refl)
cut-cases [] (suc zero) = inr (omega arith, inr refl)
cut-cases [] (suc (suc n)) = inr (omega arith, inr refl)
cut-cases (x ∷ xs) zero = inl (omega arith, refl)
cut-cases (x ∷ xs) (suc n) = elim (cut-cases xs n) [
  | inl (short, e) ↦ inl (omega arith, ap (◌∷◌ x) e)
  | inr (long, inl e) ↦ inr (omega arith, inl (ap (◌∷◌ x) e))
  | inr (long, inr e) ↦ inr (omega arith, inr (ap (◌∷◌ x) e))
]

drop_one : (n : ℕ) → n + 1 - 1 ≡ n
drop_one n = omega arith

module _ {E : Type 0} {c : Codec E} (j : IsJson c) where
  -- The file is a log of these records.
  abbrev pub Holds : PersistenceWal → List (WalRecord E) → Type 0
  Holds w log = lines_for c log ≡ some (contents w)

  -- What an append has done to the file, by its outcome.
  abbrev Settled : List ℕ → List ℕ → AppendOutcome × PersistenceWal → Type 0
  Settled base line done =
      ((is_durable done.0 ≡ true) × (contents done.1 ≡ base ++ line))
      ⊎ ((is_durable done.0 ≡ false) × ((contents done.1 ≡ base) ⊎ (is_fatal done.1 ≡ true)))

  module _ {r : WalRecord E} {f : WalFrame E} {text : List ℕ} (l : IsLineOf j r f text) where
    classify-Settled :
        (q : IsSettled j r) (io : AppendIo) (base : List ℕ) (w : PersistenceWal)
        → Settled base
            (text ++ newline ∷ [])
            (classify_append_failure c io base (text ++ newline ∷ []) w)
    unfolding classify_append_failure is_fatal
    classify-Settled q io base w = elim (cut-cases text io.written) [
      | inl (short, e) ↦ rw e (
          ground (
            arith,
            ends_with_newline-none (take io.written text)
                (has_byte-take newline io.written text (j.one_line f (l.text_of))),
            part_invalid j l io.written short,
          ))
      | inr (long, inl e) ↦ rw e (
          ground (
            arith,
            line-is_valid_frame j l q,
            append_assoc base text (newline ∷ []),
            ends_with_newline-none text (j.one_line f (l.text_of)),
          ))
      | inr (long, inr e) ↦
          rw e
            (ground (arith, line-is_valid_frame j l q, ends_with_newline-line text, take_text text))
    ]
      where
        take_text : (xs : List ℕ) → take (length (xs ++ newline ∷ []) - 1) (xs ++ newline ∷ []) ≡ xs
        take_text xs =
            rw (length-append xs (newline ∷ []), drop_one (length xs))
              (take-append xs (newline ∷ []))

    append_frame-Settled :
        (q : IsSettled j r) (io : AppendIo) (w : PersistenceWal)
        → Settled (contents w) (text ++ newline ∷ []) (append_frame c io f w)
    unfolding append_frame
    append_frame-Settled q io w = ground (
      arith,
      l.text_of,
      classify-Settled q io (contents w) (record w { file = some (contents w) }),
    )

  pub lines_for-snoc :
      (log : List (WalRecord E)) {r : WalRecord E} {f : WalFrame E} {text base : List ℕ}
      → IsLineOf j r f text
      → lines_for c log ≡ some base
      → lines_for c (log ++ r ∷ []) ≡ some (base ++ (text ++ newline ∷ []))
  unfolding lines_for
  lines_for-snoc [] {text = text} l h =
      ground (arith, l.frame_of, l.text_of, append-nil (text ++ newline ∷ []))
  lines_for-snoc (x ∷ xs) {text = text} l h =
      let (g, bs, rest, first, es, whole) = lines_for-cons j x xs h in
      ground (
        arith,
        first.frame_of,
        first.text_of,
        whole,
        lines_for-snoc xs l es,
        append_assoc bs (newline ∷ rest) (text ++ newline ∷ []),
        append_assoc bs (newline ∷ []) (rest ++ (text ++ newline ∷ [])),
      )

  append_frame-Holds :
      (r : WalRecord E) (f : WalFrame E) (io : AppendIo) (w : PersistenceWal)
      (log : List (WalRecord E))
      → IsSettled j r
      → new_frame c r ≡ some f
      → Holds w log
      → ((is_durable (append_frame c io f w).0 ≡ true)
          × Holds (append_frame c io f w).1 (log ++ r ∷ []))
        ⊎ ((is_durable (append_frame c io f w).0 ≡ false)
            × (Holds (append_frame c io f w).1 log ⊎ (is_fatal (append_frame c io f w).1 ≡ true)))
  append_frame-Holds r f io w log q e h = elim (Option-cases (c.to_vec f)) [
    | inl no_text ↦
        unfold append_frame in inr (ground (arith, no_text), inl (ground (arith, no_text)))
    | inr (text, t) ↦
        let l : IsLineOf j r f text = record { frame_of = e; text_of = t } in
        ground (arith, append_frame-Settled l q io w, lines_for-snoc log l h)
  ]

  mark_marker_active-contents :
      (io : AppendIo) (w : PersistenceWal) → contents (mark_marker_active io w) ≡ contents w
  unfolding mark_marker_active write_marker
  mark_marker_active-contents io w = ground arith

  mark_marker_active-is_fatal :
      (io : AppendIo) (w : PersistenceWal) → is_fatal (mark_marker_active io w) ≡ is_fatal w
  unfolding mark_marker_active write_marker is_fatal
  mark_marker_active-is_fatal io w = ground arith

  -- The event of a call settles.
  abbrev pub IsSettledCall : WalCall E → Type 0
  IsSettledCall (call_admit io disk_space id event) = Settles j event
  IsSettledCall (call_ack io id) = Unit {0}

  pub append-IsSettled :
      (log more : List (WalRecord E))
      → All (IsSettled j) log
      → All (IsSettled j) more
      → All (IsSettled j) (log ++ more)
  append-IsSettled [] more h k = k
  append-IsSettled (r ∷ rs) more h k = (h.0, append-IsSettled rs more h.1 k)

  pub perform-IsSettled :
      (call : WalCall E) (w : PersistenceWal) (log : List (WalRecord E))
      → IsSettledCall call
      → All (IsSettled j) log
      → All (IsSettled j) (log ++ (perform c call w).0)
  unfolding perform
  perform-IsSettled (call_admit io disk_space id event) w log q h =
      append-IsSettled log _ h (of_answer (admit c io disk_space id event w).0)
    where
      of_answer : (a : Result WalError (Uuid × ℕ)) → All (IsSettled j) (admitted_record c event a)
      of_answer (ok p) = (q, tt)
      of_answer (err e) = tt
  perform-IsSettled (call_ack io id) w log q h =
      append-IsSettled log _ h (of_answer (acknowledge c io id w).0)
    where
      of_answer : (a : Result WalError (Unit {0})) → All (IsSettled j) (acked_record c id a)
      of_answer (ok u) = (tt, tt)
      of_answer (err e) = tt

  -- A call that succeeds adds its record, and one that fails adds nothing, or else is the last.
  pub perform-Holds :
      (call : WalCall E) (w : PersistenceWal) (log : List (WalRecord E))
      → IsSettledCall call
      → Holds w log
      → (is_fatal (perform c call w).1 ≡ true)
        ⊎ Holds (perform c call w).1 (log ++ (perform c call w).0)
  unfolding perform admit acknowledge is_fatal
  perform-Holds (call_admit io disk_space id event) w log q h =
      let seq = (w.admit_sequence + 1) % 2 ^ 64 in
      let r = admission id event seq in
      elim (Option-cases (new_frame c r)) [
        | inl no_frame ↦ ground (arith, no_frame, append-nil log)
        | inr (f, e) ↦
            let done = append_frame c io f w in
            let after = record (done.1) { admit_sequence = seq } in
            ground (
              arith,
              e,
              append-nil log,
              append_frame-Holds r f io w log q e h,
              mark_marker_active-contents io after,
              mark_marker_active-is_fatal io after,
            )
      ]
  perform-Holds (call_ack io id) w log q h = elim (Option-cases (new_frame c (ack id))) [
    | inl no_frame ↦ ground (arith, no_frame, append-nil log)
    | inr (f, e) ↦ ground (arith, e, append-nil log, append_frame-Holds (ack id) f io w log q e h)
  ]
