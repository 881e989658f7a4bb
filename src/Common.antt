-- ===== src/Common.antt =====
-- The names that the other modules share: the libraries', passed on, and those of the children.
pub mod Tests
pub mod Lists
pub mod Sublists
pub mod Maps
pub mod Order
pub mod Bits
pub mod And
pub mod Int
pub use Tests.{
  ltb, leb, ◌==◌, if◌then◌else◌, ==_iff, ltb→lt, lt→ltb, le→leb, Bool-cases, Option-cases, Eq,
}
pub use Lists.{
  length, get_elem?, take, drop, replicate, length-replicate, retain, All, length-append,
  take-append, drop-append, take-append-drop, length-take, length-drop, length-retain-le,
  retain-same, drop-drop, drop-append_le,
}
pub use Int.{ℤ, pos, negsuc, beq_ℤ, beq_ℤ_iff, int_eq}
pub use Prim.Native.Nat.{ℕ, zero, suc, ◌+◌, ◌-◌, ◌*◌, ◌/◌, ◌%◌, ◌^◌, ◌≤◌, ◌<◌, min, bit_or}
pub use mathlib.Core.Path.{◌≡◌, refl, sym, ap, ◌∙◌}
pub use mathlib.Core.Logic.{◌≢◌, ◌↔◌, ◌⊎◌, inl, inr}
pub use mathlib.Core.Bool.{Bool, true, false, not, ◌&&◌, ◌||◌}
pub use mathlib.Core.Option.{Option, none, some}
pub use mathlib.Core.List.{List, [], ◌∷◌, ◌++◌, append-nil, append_assoc}
pub use native.Mathlib.Omega.{arith}

-- `anyhow::Result` and the other result types of the source, over the type of their errors.
pub data Result {ℓ} (E : Type 0) (A : Type ℓ) : Type ℓ where
  ok : A → Result E A
  err : E → Result E A

pub Result-cases {ℓ} :
    {E : Type 0} {A : Type ℓ} (r : Result E A) → ((a : A) × (r ≡ ok a)) ⊎ ((e : E) × (r ≡ err e))
Result-cases (ok a) = inl (a, refl)
Result-cases (err e) = inr (e, refl)
