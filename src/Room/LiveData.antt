-- ===== src/Room/LiveData.antt =====
-- phira-mp-plus-server/src/room.rs: `PlayerLiveData`, a player's most recent touches and judgements.
use phira_mp_plus.Common.{
  ℕ, ◌+◌, ◌-◌, ◌≤◌, ◌≡◌, refl, ap, ◌∙◌, List, [], ◌∷◌, ◌++◌, append_assoc, ℤ, length, ltb,
  if◌then◌else◌, drop, length-append, length-drop, arith, inl, inr, Bool-cases, false, drop-drop,
  drop-append_le, append-nil,
}
use phira_mp_plus.Wire.Text.{Text}

-- `TouchEventPoint` and `JudgeEventItem` of phira-mp-plus-server-api/src/lib.rs.
pub record TouchEventPoint : Type 0 where
  pub time : ℕ
  pub finger : ℤ
  pub x : ℕ
  pub y : ℕ

pub record JudgeEventItem : Type 0 where
  pub time : ℕ
  pub line_id : ℕ
  pub note_id : ℕ
  pub judgement : Text

pub record PlayerLiveData : Type 0 where
  pub touches : List TouchEventPoint
  pub judges : List JudgeEventItem

-- `if v.len() > cap { v.drain(0..v.len() - cap) }`
abbrev trim {ℓ} : {A : Type ℓ} → ℕ → List A → List A
trim cap v = if ltb cap (length v) then drop (length v - cap) v else v

unfoldable pub push_touches : PlayerLiveData → List TouchEventPoint → PlayerLiveData
push_touches d new = record d { touches = trim 120 (d.touches ++ new) }

unfoldable pub push_judges : PlayerLiveData → List JudgeEventItem → PlayerLiveData
push_judges d new = record d { judges = trim 64 (d.judges ++ new) }

unfoldable pub clear : PlayerLiveData → PlayerLiveData
clear d = record d { touches = []; judges = [] }

-- The last `n` of a list.
abbrev pub last_of {ℓ} : {A : Type ℓ} → ℕ → List A → List A
last_of n v = drop (length v - n) v

trim-last_of {ℓ} : {A : Type ℓ} (n : ℕ) (v : List A) → trim n v ≡ last_of n v
trim-last_of n v = elim (Bool-cases (ltb n (length v))) [
  | inl long ↦ rw long
  | inr short ↦ rw (short, none_to_drop n (length v) short)
]
  where
    none_to_drop : (a b : ℕ) → ltb a b ≡ false → b - a ≡ 0
    none_to_drop a b h = ground arith

-- Dropping old items early changes nothing.
last_of-last_of {ℓ} :
    {A : Type ℓ} (n : ℕ) (xs ys : List A) → last_of n (last_of n xs ++ ys) ≡ last_of n (xs ++ ys)
last_of-last_of n xs ys =
    let k = length xs - n in
    rw (← drop-append_le k xs ys (omega arith), length-drop k (xs ++ ys), drop-drop)
      (ap (λ (m : ℕ). drop m (xs ++ ys)) (whole k refl))
  where
    whole : (k : ℕ) → k ≡ length xs - n → k + (length (xs ++ ys) - k - n) ≡ length (xs ++ ys) - n
    whole k e = omega (arith, length-append xs ys, e)

-- Batches of touches, in the order in which the telemetry commands bring them.
pub push_all_touches : PlayerLiveData → List (List TouchEventPoint) → PlayerLiveData
push_all_touches d [] = d
push_all_touches d (b ∷ bs) = push_all_touches (push_touches d b) bs

abbrev pub joined {ℓ} : {A : Type ℓ} → List (List A) → List A
joined [] = []
joined (b ∷ bs) = b ++ joined bs

-- However the touches come in batches, the cache holds the last 120 of the old ones and all of them.
push_all_touches-last_of :
    (d : PlayerLiveData) (bs : List (List TouchEventPoint))
    → length d.touches ≤ 120
    → (push_all_touches d bs).touches ≡ last_of 120 (d.touches ++ joined bs)
unfolding push_all_touches push_touches
push_all_touches-last_of d [] h = rw (append-nil (d.touches), none (length d.touches) h)
  where
    none : (k : ℕ) → k ≤ 120 → k - 120 ≡ 0
    none k h = omega arith
push_all_touches-last_of d (b ∷ bs) h =
    push_all_touches-last_of (push_touches d b) bs
      (rw (trim-last_of 120 (d.touches ++ b)) (kept (d.touches ++ b)))
    ∙ ap (λ v. last_of 120 (v ++ joined bs)) (trim-last_of 120 (d.touches ++ b))
    ∙ last_of-last_of 120 (d.touches ++ b) (joined bs)
    ∙ ap (last_of 120) (append_assoc (d.touches) b (joined bs))
  where
    kept : (v : List TouchEventPoint) → length (last_of 120 v) ≤ 120
    kept v = omega (arith, length-drop (length v - 120) v)
