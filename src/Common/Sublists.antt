-- ===== src/Common/Sublists.antt =====
-- The lists that leave some elements of a list out.
use mathlib.Core.List.{List, [], ◌∷◌, ◌++◌}

pub data Sublist {ℓ} {A : Type ℓ} : List A → List A → Type ℓ where
  done : Sublist [] []
  keep : {xs ys : List A} (x : A) → Sublist xs ys → Sublist (x ∷ xs) (x ∷ ys)
  skip : {xs ys : List A} (y : A) → Sublist xs ys → Sublist xs (y ∷ ys)

module _ {ℓ} {A : Type ℓ} where
  pub Sublist-refl : (xs : List A) → Sublist xs xs
  Sublist-refl [] = done
  Sublist-refl (x ∷ xs) = keep x (Sublist-refl xs)

  pub Sublist-nil : (xs : List A) → Sublist [] xs
  Sublist-nil [] = done
  Sublist-nil (x ∷ xs) = skip x (Sublist-nil xs)

  pub Sublist-append :
      {xs ys us vs : List A} → Sublist xs ys → Sublist us vs → Sublist (xs ++ us) (ys ++ vs)
  Sublist-append done s = s
  Sublist-append (keep x r) s = keep x (Sublist-append r s)
  Sublist-append (skip y r) s = skip y (Sublist-append r s)

  pub Sublist-trans :
      {ys zs : List A} → Sublist ys zs → {xs : List A} → Sublist xs ys → Sublist xs zs
  Sublist-trans done r = r
  Sublist-trans (skip z s) r = skip z (Sublist-trans s r)
  Sublist-trans (keep y s) (keep x r) = keep x (Sublist-trans s r)
  Sublist-trans (keep y s) (skip x r) = skip y (Sublist-trans s r)

  pub Sublist-append_right : (xs ys : List A) → Sublist xs (xs ++ ys)
  Sublist-append_right [] ys = Sublist-nil ys
  Sublist-append_right (x ∷ xs) ys = keep x (Sublist-append_right xs ys)
