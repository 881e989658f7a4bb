-- ===== src/Room/Ids.antt =====
-- The `HashSet<i32>` and `HashMap<i32, V>` of the room actor, as lists that repeat no id.
use phira_mp_plus.Common.{
  ◌≡◌, refl, List, [], ◌∷◌, Bool, false, not, ◌||◌, ◌&&◌, Option, none, some, ℤ, beq_ℤ, beq_ℤ_iff,
  if◌then◌else◌, retain, arith,
}

unfoldable pub has : ℤ → List ℤ → Bool
has x [] = false
has x (y ∷ ys) = beq_ℤ y x || has x ys

-- `HashSet::insert`, without its result.
unfoldable pub add_id : ℤ → List ℤ → List ℤ
add_id x ys = if has x ys then ys else x ∷ ys

unfoldable pub remove_id : ℤ → List ℤ → List ℤ
remove_id x = retain (λ y. not (beq_ℤ y x))

module _ {V : Type 0} where
  unfoldable pub has_key : ℤ → List (ℤ × V) → Bool
  has_key x [] = false
  has_key x ((y, v) ∷ m) = beq_ℤ y x || has_key x m

  unfoldable pub lookup : ℤ → List (ℤ × V) → Option V
  lookup x [] = none
  lookup x ((y, v) ∷ m) = let rest = lookup x m in if beq_ℤ y x then some v else rest

  -- `HashMap::insert`: a value that stands under the key is replaced.
  unfoldable pub set_key : ℤ → V → List (ℤ × V) → List (ℤ × V)
  set_key x v [] = (x, v) ∷ []
  set_key x v ((y, w) ∷ m) =
      let rest = set_key x v m in if beq_ℤ y x then (y, v) ∷ m else (y, w) ∷ rest

  unfoldable pub remove_key : ℤ → List (ℤ × V) → List (ℤ × V)
  remove_key x [] = []
  remove_key x ((y, v) ∷ m) = let rest = remove_key x m in if beq_ℤ y x then rest else (y, v) ∷ rest

  pub has_key-set_key :
      (j x : ℤ) (v : V) (m : List (ℤ × V)) → has_key j (set_key x v m) ≡ (beq_ℤ x j || has_key j m)
  unfolding has_key set_key
  has_key-set_key j x v [] = refl
  has_key-set_key j x v ((y, w) ∷ m) = ground (arith, beq_ℤ_iff y x, has_key-set_key j x v m)

-- No id twice.
abbrev pub IsDistinct : List ℤ → Type 0
IsDistinct [] = Unit {0}
IsDistinct (x ∷ xs) = (has x xs ≡ false) × IsDistinct xs

pub has-remove_id : (j x : ℤ) (xs : List ℤ) → has j (remove_id x xs) ≡ (not (beq_ℤ x j) && has j xs)
unfolding has remove_id
has-remove_id j x [] = ground arith
has-remove_id j x (y ∷ xs) =
    ground (arith, beq_ℤ_iff y x, beq_ℤ_iff y j, beq_ℤ_iff x j, has-remove_id j x xs)

pub add_id-IsDistinct : (x : ℤ) (xs : List ℤ) → IsDistinct xs → IsDistinct (add_id x xs)
unfolding add_id
add_id-IsDistinct x xs h = ground arith

pub has-add_id : (j x : ℤ) (xs : List ℤ) → has j (add_id x xs) ≡ (beq_ℤ x j || has j xs)
unfolding add_id has
has-add_id j x xs = ground (arith, beq_ℤ_iff x j)

pub remove_id-IsDistinct : (x : ℤ) (xs : List ℤ) → IsDistinct xs → IsDistinct (remove_id x xs)
unfolding remove_id
remove_id-IsDistinct x [] h = tt
remove_id-IsDistinct x (y ∷ xs) h =
    let kept : has y (retain (λ z. not (beq_ℤ z x)) xs) ≡ (not (beq_ℤ x y) && has y xs) =
      has-remove_id y x xs in
    ground (arith, kept, remove_id-IsDistinct x xs)
