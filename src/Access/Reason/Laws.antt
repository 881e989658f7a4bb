-- ===== src/Access/Reason/Laws.antt =====
-- phira-mp-plus-server/src/ban.rs: the form that `normalize_reason` gives to a reason.
use phira_mp_plus.Common.{
  [], ◌∷◌, ◌++◌, Bool, true, false, ◌||◌, ◌≡◌, refl, arith, append-nil, append_assoc,
}
use phira_mp_plus.Common.Tests.{if-both}
use phira_mp_plus.Wire.Text.{Text}
use phira_mp_plus.Access.Reason.{
  Chars, default_ban_reason, is_empty, trim_start, trim_end, trim, separated, without_controls,
  normalize_reason,
}

module _ (chars : Chars) where
  unfoldable pub has_control : Text → Bool
  has_control [] = false
  has_control (c ∷ cs) = chars.is_control c || has_control cs

  -- The documented behaviour of the tests of characters: a space is no control character, and the default
  -- reason has neither control characters nor spaces at its ends.
  pub record AreChars : Type 0 where
    pub space_plain : chars.is_control b' ' ≡ false
    pub default_plain : has_control default_ban_reason ≡ false
    pub default_start : chars.is_whitespace 0x8fdd ≡ false
    pub default_end : chars.is_whitespace 0x5219 ≡ false

  -- The form of a reason.
  pub record IsNormal (t : Text) : Type 0 where
    pub plain : has_control t ≡ false
    pub trimmed : trim chars t ≡ t
    pub not_empty : is_empty t ≡ false

  trim_end_twice : (t : Text) → trim_end chars (trim_end chars t) ≡ trim_end chars t
  unfolding trim_end
  trim_end_twice [] = refl
  trim_end_twice (c ∷ cs) = ground (arith, trim_end_twice cs)

  trim_start-trim : (t : Text) → trim_start chars (trim chars t) ≡ trim chars t
  unfolding trim_start trim_end
  trim_start-trim [] = refl
  trim_start-trim (c ∷ cs) = ground (arith, trim_start-trim cs)

  trim_twice : (t : Text) → trim chars (trim chars t) ≡ trim chars t
  trim_twice t = rw (trim_start-trim t) (trim_end_twice (trim_start chars t))

  has_control-append : (s t : Text) → has_control (s ++ t) ≡ (has_control s || has_control t)
  unfolding has_control
  has_control-append [] t = refl
  has_control-append (c ∷ s) t = ground (arith, has_control-append s t)

  has_control-trim_start :
      (t : Text) → has_control t ≡ false → has_control (trim_start chars t) ≡ false
  unfolding has_control trim_start
  has_control-trim_start [] h = refl
  has_control-trim_start (c ∷ cs) h = ground (arith, has_control-trim_start cs)

  has_control-trim_end : (t : Text) → has_control t ≡ false → has_control (trim_end chars t) ≡ false
  unfolding has_control trim_end
  has_control-trim_end [] h = refl
  has_control-trim_end (c ∷ cs) h = ground (arith, has_control-trim_end cs)

  has_control-separated :
      (acc : Text) (pending : Bool)
      → AreChars
      → has_control acc ≡ false
      → has_control (separated chars acc pending) ≡ false
  unfolding has_control separated
  has_control-separated acc pending a h =
      ground (arith, a.space_plain, has_control-append acc (b' ' ∷ []))

  has_control-without_controls :
      (acc : Text) (pending : Bool) (t : Text)
      → AreChars
      → has_control acc ≡ false
      → has_control (without_controls chars acc pending t) ≡ false
  unfolding has_control without_controls
  has_control-without_controls acc pending [] a h = h
  has_control-without_controls acc pending (c ∷ cs) a h = ground (
    arith,
    has_control-without_controls acc true cs a,
    has_control-without_controls (separated chars acc pending ++ c ∷ []) false cs a,
    has_control-append (separated chars acc pending) (c ∷ []),
    has_control-separated acc pending a h,
  )

  without_controls-plain :
      (acc t : Text) → has_control t ≡ false → without_controls chars acc false t ≡ acc ++ t
  unfolding has_control without_controls separated
  without_controls-plain acc [] h = ground (arith, append-nil acc)
  without_controls-plain acc (c ∷ cs) h =
      ground (arith, without_controls-plain (acc ++ c ∷ []) cs, append_assoc acc (c ∷ []) cs)

  default-IsNormal : AreChars → IsNormal default_ban_reason
  unfolding trim_start trim_end
  default-IsNormal a = record {
    plain = a.default_plain;
    trimmed = ground (arith, a.default_start, a.default_end);
    not_empty = refl;
  }

  -- With tests of characters that call no space a control character and find the default reason in
  -- order, every normalized reason has no control characters and no spaces at its ends, and is not
  -- empty.
  pub normalize_reason-IsNormal :
      (reason : Text) → AreChars → IsNormal (normalize_reason chars reason)
  unfolding normalize_reason has_control
  normalize_reason-IsNormal reason a =
      let inner = without_controls chars [] false (trim chars reason) in
      let plain = has_control-without_controls [] false (trim chars reason) a refl in
      if-both IsNormal (λ h. default-IsNormal a)
        (λ h. record {
          plain =
              has_control-trim_end (trim_start chars inner) (has_control-trim_start inner plain);
          trimmed = trim_twice inner;
          not_empty = h;
        })

  -- What has the form of a reason is its own reason.
  pub normalize_reason-normal : (t : Text) → IsNormal t → normalize_reason chars t ≡ t
  unfolding normalize_reason
  normalize_reason-normal t n =
      ground (arith, n.trimmed, n.not_empty, without_controls-plain [] t n.plain)

  pub normalize_reason_twice :
      (reason : Text)
      → AreChars
      → normalize_reason chars (normalize_reason chars reason) ≡ normalize_reason chars reason
  normalize_reason_twice reason a =
      normalize_reason-normal (normalize_reason chars reason) (normalize_reason-IsNormal reason a)
