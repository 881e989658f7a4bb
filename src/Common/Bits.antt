-- ===== src/Common/Bits.antt =====
-- `|` of a number with bits above it is a sum. The native operation is a recursion on binary
-- digits with fuel; here the fuel is dropped first.
use Prim.Native.Nat.{
  ℕ, zero, suc, ◌+◌, ◌*◌, ◌/◌, ◌%◌, ◌^◌, ◌≤◌, ◌<◌, max, digits, bit_or, bit_or-bitwise,
}
use mathlib.Core.Path.{◌≡◌, refl, ap}
use native.Mathlib.Nat.{pow-suc}
use native.Mathlib.Omega.{arith}

-- The recursion on digits with more fuel than digits, for any operation on two of them.
pub digits_fuel :
    (e : ℕ → ℕ) (op : ℕ → ℕ → ℕ) (n m a b : ℕ)
    → a ≤ n
    → a ≤ m
    → digits e op n a b ≡ digits e op m a b
digits_fuel e op zero zero a b p q = refl
digits_fuel e op zero (suc m) zero b p q = refl
digits_fuel e op zero (suc m) (suc a) b p q = absurd (omega arith)
digits_fuel e op (suc n) zero zero b p q = refl
digits_fuel e op (suc n) zero (suc a) b p q = absurd (omega arith)
digits_fuel e op (suc n) (suc m) zero b p q = refl
digits_fuel e op (suc n) (suc m) (suc a) b p q =
    ap (λ (t : ℕ). t * 2 + op (suc a % 2) (b % 2))
      (digits_fuel e op n m (suc a / 2) (b / 2) (omega arith) (omega arith))

zero-bit_or : (b : ℕ) → bit_or 0 b ≡ b
zero-bit_or b = bit_or-bitwise 0 b

bit_or_step : (a b : ℕ) → bit_or a b ≡ bit_or (a / 2) (b / 2) * 2 + max (a % 2) (b % 2)
bit_or_step zero b = omega (arith, zero-bit_or b, zero-bit_or (b / 2))
bit_or_step (suc a) b = omega (
  arith,
  bit_or-bitwise (suc a) b,
  bit_or-bitwise (suc a / 2) (b / 2),
  digits_fuel (λ y. y) max a (suc a / 2) (suc a / 2) (b / 2) (omega arith) (omega arith),
)

-- `low | (high << k)` when `low` fits below bit `k`.
pub bit_or-shifted : (k low high : ℕ) → low < 2 ^ k → bit_or low (high * 2 ^ k) ≡ low + high * 2 ^ k
bit_or-shifted zero low high h = ground (arith, zero-bit_or (high * 2 ^ 0))
bit_or-shifted (suc k) low high h = ground (
  arith,
  bit_or_step low (high * 2 ^ suc k),
  ap (λ (t : ℕ). high * t) (pow-suc 2 k),
  pow-suc 2 k,
  bit_or-shifted k (low / 2) high (omega arith),
)

-- `group | 0x80` on a group of seven bits.
pub bit_or-top_bit : (group : ℕ) → group < 128 → bit_or group 0x80 ≡ group + 128
bit_or-top_bit group h = bit_or-shifted 7 group 1 h
