-- ===== src/Wal/Lines.antt =====
-- The lines of a log that phira-mp-plus-server/src/persistence/wal/mod.rs has written, as its readers
-- see them.
use phira_mp_plus.Common.{
  ℕ, zero, suc, ◌≡◌, ◌≢◌, refl, ap, List, [], ◌∷◌, ◌++◌, append_assoc, ◌∙◌, true, false, ◌||◌,
  Option, none, some, length, length-append, take, All, arith,
}
use phira_mp_plus.Wal.Ledger.{reread_all}
use phira_mp_plus.Wire.Text.{Text, beq_text, beq_text_iff}
use phira_mp_plus.Wal.Format.{
  WalRecord, admission, ack, WalFrame, Codec, IsJson, IsSettled, reread, newline, has_byte, framed,
  compute_checksum, new_frame, verify, is_valid_frame, split_lines, is_empty, ends_with_newline,
  wal_format_version,
}
use phira_mp_plus.Wal.Recovery.{read_frames, records_of}
use phira_mp_plus.Wal.Replay.{joined, line_of_record, lines_for, needs_upgrade, size_of_lines}

pub split_lines-line :
    (bs rest : List ℕ)
    → has_byte newline bs ≡ false
    → split_lines (bs ++ newline ∷ rest) ≡ bs ∷ split_lines rest
unfolding split_lines has_byte
split_lines-line [] rest h = refl
split_lines-line (b ∷ bs) rest h = ground (arith, split_lines-line bs rest)

pub split_lines-tail : (bs : List ℕ) → has_byte newline bs ≡ false → split_lines bs ≡ bs ∷ []
unfolding split_lines has_byte
split_lines-tail [] h = refl
split_lines-tail (b ∷ bs) h = ground (arith, split_lines-tail bs)

-- A text that ends in a line ends with a newline.
pub ends_with_newline-line : (xs : List ℕ) → ends_with_newline (xs ++ newline ∷ []) ≡ true
unfolding ends_with_newline
ends_with_newline-line [] = refl
ends_with_newline-line (x ∷ []) = refl
ends_with_newline-line (x ∷ y ∷ xs) = ends_with_newline-line (y ∷ xs)

pub ends_with_newline-append :
    (xs : List ℕ) (y : ℕ) (ys : List ℕ)
    → ends_with_newline (xs ++ y ∷ ys) ≡ ends_with_newline (y ∷ ys)
unfolding ends_with_newline
ends_with_newline-append [] y ys = refl
ends_with_newline-append (x ∷ []) y ys = refl
ends_with_newline-append (x ∷ z ∷ xs) y ys = ends_with_newline-append (z ∷ xs) y ys

-- A line before a text that ends with a newline, if there is any text.
pub ends-line :
    (bs rest : List ℕ)
    → (ends_with_newline rest || is_empty rest) ≡ true
    → (ends_with_newline (bs ++ newline ∷ rest) || is_empty (bs ++ newline ∷ rest)) ≡ true
unfolding ends_with_newline
ends-line bs [] h = rw (ends_with_newline-line bs)
ends-line bs (y ∷ ys) h = ground (
  arith,
  append_assoc bs (newline ∷ []) (y ∷ ys),
  ends_with_newline-append (bs ++ newline ∷ []) y ys,
)

pub ends_with_newline-none :
    (bs : List ℕ) → has_byte newline bs ≡ false → ends_with_newline bs ≡ false
unfolding ends_with_newline has_byte
ends_with_newline-none [] h = refl
ends_with_newline-none (b ∷ []) h = ground arith
ends_with_newline-none (b ∷ d ∷ bs) h = ground (arith, ends_with_newline-none (d ∷ bs))

pub has_byte-take : (b n : ℕ) (xs : List ℕ) → has_byte b xs ≡ false → has_byte b (take n xs) ≡ false
unfolding has_byte
has_byte-take b zero xs h = refl
has_byte-take b (suc n) [] h = refl
has_byte-take b (suc n) (x ∷ xs) h = ground (arith, has_byte-take b n xs)

agrees :
    (o : Option Text) (k : Text)
    → o ≡ some k
    → (elim o [ none ↦ false | some expected ↦ beq_text k expected ]) ≡ true
agrees none k e = absurd (cc e)
agrees (some x) k e = (beq_text_iff k x).1 (cc e)

delimited-some :
    (o : Option (List ℕ)) {line : List ℕ}
    → (elim o [ none ↦ none | some bs ↦ some (bs ++ newline ∷ []) ]) ≡ some line
    → (bs : List ℕ) × (o ≡ some bs) × (line ≡ bs ++ newline ∷ [])
delimited-some none e = absurd (cc e)
delimited-some (some bs) e = (bs, refl, cc e)

joined-some :
    (a b : Option (List ℕ)) {bytes : List ℕ}
    → joined a b ≡ some bytes
    → (x : List ℕ) × (y : List ℕ) × (a ≡ some x) × (b ≡ some y) × (bytes ≡ x ++ y)
joined-some none b e = absurd (cc e)
joined-some (some x) none e = absurd (cc e)
joined-some (some x) (some y) e = (x, y, refl, refl, cc e)

framed-some :
    {E : Type 0} (c : Codec E) (r : WalRecord E) (o : Option Text) {f : WalFrame E}
    → framed c r o ≡ some f
    → (k : Text) × (o ≡ some k)
      × (f ≡ record { ver = wal_format_version; record_of = r; cksum = k })
framed-some c r none e = absurd (cc e)
framed-some c r (some k) e = (k, refl, cc e)

module _ {E : Type 0} {c : Codec E} (j : IsJson c) where
  compute_checksum-reread :
      (ver : ℕ) (r : WalRecord E)
      → IsSettled j r
      → compute_checksum c ver (reread (j.read_event) r) ≡ compute_checksum c ver r
  compute_checksum-reread ver (admission id event sequence) q =
      rw (compute_checksum, q.same_text id sequence) refl
  compute_checksum-reread ver (ack id) q = refl

  -- A frame of a new record, and its line.
  pub record IsLineOf (r : WalRecord E) (f : WalFrame E) (bs : List ℕ) : Type 0 where
    pub frame_of : new_frame c r ≡ some f
    pub text_of : c.to_vec f ≡ some bs

  module _ {r : WalRecord E} {f : WalFrame E} {bs : List ℕ} (l : IsLineOf r f bs) where
    made :
        (k : Text) × (compute_checksum c wal_format_version r ≡ some k)
        × (f ≡ record { ver = wal_format_version; record_of = r; cksum = k })
    unfolding new_frame
    made = framed-some c r (compute_checksum c wal_format_version r) (l.frame_of)

    -- The frame as it is read back.
    abbrev pub read_frame : WalFrame E
    read_frame = record f { record_of = reread (j.read_event) (f.record_of) }

    pub new_frame-record_of :
        (read_frame.record_of ≡ reread (j.read_event) r) × (f.ver ≡ wal_format_version)
    new_frame-record_of = (
      ap (λ (g : WalFrame E). reread (j.read_event) (g.record_of)) (made.2),
      ap (λ (g : WalFrame E). g.ver) (made.2),
    )

    pub new_frame-verify : IsSettled j r → verify c read_frame ≡ true
    unfolding verify
    new_frame-verify q = rw (made.2) (
        agrees (compute_checksum c wal_format_version (reread (j.read_event) r)) (made.0)
          (compute_checksum-reread wal_format_version r q ∙ made.1))

    pub line-is_valid_frame : IsSettled j r → is_valid_frame c bs ≡ true
    unfolding is_valid_frame
    line-is_valid_frame q = rw (j.reads f l.text_of, new_frame-verify q, new_frame-record_of.1) refl

    pub line-not_empty : is_empty bs ≡ false
    line-not_empty = full bs (j.reads f l.text_of)
      where
        full : (xs : List ℕ) → c.from_slice xs ≡ some read_frame → is_empty xs ≡ false
        full [] e = cc (e, j.not_empty)
        full (x ∷ xs) e = refl

  line_of_record-some :
      (o : Option (WalFrame E)) {line : List ℕ}
      → line_of_record c o ≡ some line
      → (f : WalFrame E) × (bs : List ℕ) × (o ≡ some f)
        × (c.to_vec f ≡ some bs)
        × (line ≡ bs ++ newline ∷ [])
  line_of_record-some none e = absurd (cc e)
  line_of_record-some (some f) e =
      let (bs, text, whole) = delimited-some (c.to_vec f) e in (f, bs, refl, text, whole)

  -- The first record of a log that could be written, and the rest.
  pub lines_for-cons :
      (r : WalRecord E) (rs : List (WalRecord E)) {bytes : List ℕ}
      → lines_for c (r ∷ rs) ≡ some bytes
      → (f : WalFrame E) × (bs : List ℕ) × (rest : List ℕ) × IsLineOf r f bs
        × (lines_for c rs ≡ some rest)
        × (bytes ≡ bs ++ newline ∷ rest)
  unfolding lines_for
  lines_for-cons r rs h =
      let (line, rest, e, es, whole) =
        joined-some (line_of_record c (new_frame c r)) (lines_for c rs) h in
      let (f, bs, frame_of, text_of, here) = line_of_record-some (new_frame c r) e in
      (
        f,
        bs,
        rest,
        record { frame_of = frame_of; text_of = text_of },
        es,
        rw (whole, here, append_assoc) refl,
      )

  -- How a log that could be written splits into frames, whatever part of a line comes after it.
  pub record Segmented (log : List (WalRecord E)) (bytes : List ℕ) : Type 0 where
    pub segments : List (List ℕ)
    pub frames : List (WalFrame E)
    pub splits : (tail : List ℕ) → split_lines (bytes ++ tail) ≡ segments ++ split_lines tail
    pub sound : All (λ s. (is_empty s ≡ false) × (is_valid_frame c s ≡ true)) segments
    pub reads :
        (more : List (List ℕ)) {fs : List (WalFrame E)}
        → read_frames c more ≡ some fs
        → read_frames c (segments ++ more) ≡ some (frames ++ fs)
    pub is_log : records_of frames ≡ reread_all (j.read_event) log
    pub is_new : needs_upgrade frames ≡ false
    pub has_end : ends_with_newline bytes || is_empty bytes ≡ true
    pub has_size : size_of_lines segments ≡ length bytes

  pub lines_for-Segmented :
      (log : List (WalRecord E)) {bytes : List ℕ}
      → All (IsSettled j) log
      → lines_for c log ≡ some bytes
      → Segmented log bytes
  unfolding split_lines read_frames records_of needs_upgrade ends_with_newline size_of_lines
      lines_for
  lines_for-Segmented [] {bytes} q h =
      let nil : bytes ≡ [] = cc h in
      rw nil (record {
        segments = [];
        frames = [];
        splits = λ tail. refl;
        sound = tt;
        reads = λ more e. e;
        is_log = refl;
        is_new = refl;
        has_end = refl;
        has_size = refl;
      })
  lines_for-Segmented (r ∷ rs) {bytes} q h =
      let (f, bs, rest, l, e, whole) = lines_for-cons r rs h in
      let s = lines_for-Segmented rs q.1 e in
      rw whole (record {
        segments = bs ∷ s.segments;
        frames = read_frame l ∷ s.frames;
        splits = λ tail.
            rw (append_assoc, split_lines-line bs (rest ++ tail) (j.one_line f (l.text_of)))
              (ap (◌∷◌ bs) (s.splits tail));
        sound = ((line-not_empty l, line-is_valid_frame l q.0), s.sound);
        reads = λ more t. ground (
          arith,
          line-not_empty l,
          j.reads f (l.text_of),
          new_frame-verify l q.0,
          (new_frame-record_of l).1,
          s.reads more t,
        );
        is_log = ground (arith, (new_frame-record_of l).0, s.is_log);
        is_new = ground (arith, (new_frame-record_of l).1, s.is_new);
        has_end = ends-line bs rest (s.has_end);
        has_size = omega (arith, length-append bs (newline ∷ rest), s.has_size);
      })

  pub lines_for-none : (log : List (WalRecord E)) → lines_for c log ≡ some [] → log ≡ []
  lines_for-none [] h = refl
  lines_for-none (r ∷ rs) h =
      let (f, bs, rest, l, e, whole) = lines_for-cons r rs h in absurd (filled bs rest whole)
    where
      filled : (bs rest : List ℕ) → [] ≢ bs ++ newline ∷ rest
      filled [] rest e = cc e
      filled (b ∷ bs) rest e = cc e

  pub splits_part :
      {log : List (WalRecord E)} {bytes : List ℕ} (s : Segmented log bytes) (tail : List ℕ)
      → has_byte newline tail ≡ false
      → split_lines (bytes ++ tail) ≡ s.segments ++ tail ∷ []
  splits_part s tail h = rw (s.splits tail, split_lines-tail tail h) refl
