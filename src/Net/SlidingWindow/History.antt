-- ===== src/Net/SlidingWindow/History.antt =====
-- What the limiter of phira-mp-plus-server/src/rate_limiter.rs promises, said with the list of all the
-- requests that it has admitted: no buckets, and nothing is ever cleaned up.
use phira_mp_plus.Common.{
  ℕ, ◌≤◌, ◌-◌, ◌≡◌, refl, List, [], ◌∷◌, ◌++◌, Bool, true, ◌&&◌, length, ltb, leb, if◌then◌else◌,
  retain, arith, append_assoc, append-nil, length-append, Bool-cases, inl, inr,
}
use phira_mp_plus.Wire.Text.{Text, beq_text, beq_text_iff}
use phira_mp_plus.Net.SlidingWindow.{Call, request, tidy, fresh}

unfoldable pub times_of : Text → List (Text × ℕ) → List ℕ
times_of key [] = []
times_of key ((k, t) ∷ h) = let rest = times_of key h in if beq_text k key then t ∷ rest else rest

-- Fewer than `max_count` requests of the key were admitted in the last window.
abbrev pub allows : ℕ → ℕ → List (Text × ℕ) → ℕ → Text → Bool
allows max_count width h now key =
    ltb (length (retain (fresh width now) (times_of key h))) max_count

unfoldable pub expected : ℕ → ℕ → List (Text × ℕ) → List Call → List Bool
expected max_count width h [] = []
expected max_count width h (request now key ∷ calls) =
    let granted = allows max_count width h now key in
    granted ∷ expected max_count width (if granted then h ++ (key, now) ∷ [] else h) calls
expected max_count width h (tidy now ∷ calls) = expected max_count width h calls

-- The instants of the calls do not go back.
abbrev pub IsOrdered : ℕ → List Call → Type 0
IsOrdered clock [] = Unit {0}
IsOrdered clock (request now key ∷ calls) = (clock ≤ now) × IsOrdered now calls
IsOrdered clock (tidy now ∷ calls) = (clock ≤ now) × IsOrdered now calls

-- The requests that got the answer `true`.
unfoldable pub admitted : List Call → List Bool → List (Text × ℕ)
admitted [] bs = []
admitted (tidy now ∷ calls) bs = admitted calls bs
admitted (request now key ∷ calls) [] = []
admitted (request now key ∷ calls) (b ∷ bs) =
    let rest = admitted calls bs in if b then (key, now) ∷ rest else rest

-- The window of the given width that ends at `t`.
abbrev pub in_window : ℕ → ℕ → ℕ → Bool
in_window width t a = leb a t && ltb (t - a) width

pub retain-append {ℓ} :
    {A : Type ℓ} (keep : A → Bool) (xs ys : List A)
    → retain keep (xs ++ ys) ≡ retain keep xs ++ retain keep ys
retain-append keep [] ys = refl
retain-append keep (x ∷ xs) ys = ground (arith, retain-append keep xs ys)

pub times_of-append :
    (key : Text) (xs ys : List (Text × ℕ))
    → times_of key (xs ++ ys) ≡ times_of key xs ++ times_of key ys
unfolding times_of
times_of-append key [] ys = refl
times_of-append key ((k, t) ∷ xs) ys = ground (arith, times_of-append key xs ys)

module _ (max_count width : ℕ) where
  -- No window has more than `max_count` admitted requests of a key.
  abbrev IsLimited : List (Text × ℕ) → Type 0
  IsLimited h =
      (key : Text) (t : ℕ) → length (retain (in_window width t) (times_of key h)) ≤ max_count

  in_window-fresh :
      (t now : ℕ) (xs : List ℕ)
      → now ≤ t
      → length (retain (in_window width t) xs) ≤ length (retain (fresh width now) xs)
  in_window-fresh t now [] h = omega arith
  in_window-fresh t now (x ∷ xs) h = ground (arith, in_window-fresh t now xs h)

  IsLimited-admit :
      (h : List (Text × ℕ)) (now : ℕ) (key : Text)
      → allows max_count width h now key ≡ true
      → IsLimited h
      → IsLimited (h ++ (key, now) ∷ [])
  unfolding times_of
  IsLimited-admit h now key a l j t = ground (
    arith,
    l j t,
    beq_text_iff key j,
    in_window-fresh t now (times_of j h),
    times_of-append j h ((key, now) ∷ []),
    retain-append (in_window width t) (times_of j h) (times_of j ((key, now) ∷ [])),
    length-append (retain (in_window width t) (times_of j h))
        (retain (in_window width t) (times_of j ((key, now) ∷ []))),
  )

  expected-IsLimited_from :
      (h : List (Text × ℕ)) (calls : List Call)
      → IsLimited h
      → IsLimited (h ++ admitted calls (expected max_count width h calls))
  unfolding admitted expected
  expected-IsLimited_from h [] l = rw append-nil l
  expected-IsLimited_from h (tidy now ∷ calls) l = expected-IsLimited_from h calls l
  expected-IsLimited_from h (request now key ∷ calls) l =
      elim (Bool-cases (allows max_count width h now key)) [
        | inl granted ↦ rw granted (
            rw append_assoc at (
              expected-IsLimited_from (h ++ (key, now) ∷ []) calls
                (IsLimited-admit h now key granted l)))
        | inr denied ↦ rw denied (expected-IsLimited_from h calls l)
      ]

  pub expected-IsLimited :
      (calls : List Call) (key : Text) (t : ℕ)
      → length (
          retain
            (in_window width t)
            (times_of key (admitted calls (expected max_count width [] calls))))
        ≤ max_count
  expected-IsLimited calls =
      expected-IsLimited_from [] calls (λ key t. unfold times_of in omega arith)
