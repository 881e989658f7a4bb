-- ===== src/Common/And.antt =====
-- `&` with a mask of high bits, which is the comparison of what is left after the low bits go.
use Prim.Native.Nat.{
  ℕ, zero, suc, ◌+◌, ◌-◌, ◌*◌, ◌/◌, ◌%◌, ◌^◌, ◌≤◌, ◌<◌, min, bit_and, bit_and-bitwise,
}
use mathlib.Core.Path.{◌≡◌, ap, ◌∙◌}
use native.Mathlib.Nat.{pow-suc, add-suc, div-div-eq-div-mul}
use native.Mathlib.Omega.{arith}
use phira_mp_plus.Common.Bits.{digits_fuel}

bit_and-zero_left : (b : ℕ) → bit_and 0 b ≡ 0
bit_and-zero_left b = bit_and-bitwise 0 b

-- The lowest bit apart.
bit_and_halves : (a b : ℕ) → bit_and a b ≡ bit_and (a / 2) (b / 2) * 2 + min (a % 2) (b % 2)
bit_and_halves zero b = omega (arith, bit_and-zero_left b, bit_and-zero_left (b / 2))
bit_and_halves (suc a) b =
    let half = suc a / 2 in
    omega (
      arith,
      bit_and-bitwise (suc a) b,
      bit_and-bitwise half (b / 2),
      digits_fuel (λ y. zero) min a half half (b / 2) (omega arith) (omega arith),
    )

pub pow_pos : (k : ℕ) → 1 ≤ 2 ^ k
pow_pos zero = omega arith
pow_pos (suc k) = omega (arith, pow-suc 2 k, pow_pos k)

half_ones : (k : ℕ) → (2 ^ suc k - 1) / 2 ≡ 2 ^ k - 1
half_ones k = omega (arith, pow-suc 2 k)

-- All bits of the width.
bit_and-ones : (k a : ℕ) → a < 2 ^ k → bit_and a (2 ^ k - 1) ≡ a
bit_and-ones zero zero h = bit_and-zero_left 0
bit_and-ones zero (suc a) h = absurd (omega arith)
bit_and-ones (suc k) a h = omega (
  arith,
  pow-suc 2 k,
  pow_pos k,
  bit_and_halves a (2 ^ suc k - 1),
  ap (bit_and (a / 2)) (half_ones k),
  bit_and-ones k (a / 2) (omega (arith, pow-suc 2 k)),
)

half_mask : (m s : ℕ) → m * 2 ^ suc s / 2 ≡ m * 2 ^ s
half_mask m s = omega (arith, ap (λ (t : ℕ). m * t) (pow-suc 2 s))

even_mask : (m s : ℕ) → m * 2 ^ suc s % 2 ≡ 0
even_mask m s = omega (arith, ap (λ (t : ℕ). m * t) (pow-suc 2 s))

-- The low bits go: a mask of `k` ones above `s` zeros, on a number of `k + s` bits.
pub bit_and-high :
    (k s a : ℕ) → a < 2 ^ (k + s) → bit_and a ((2 ^ k - 1) * 2 ^ s) ≡ a / 2 ^ s * 2 ^ s
bit_and-high k zero a h =
    let width : k + 0 ≡ k = omega arith in
    let unit : (2 ^ k - 1) * 2 ^ 0 ≡ 2 ^ k - 1 = omega arith in
    rw unit (omega (arith, bit_and-ones k a (rw width at h)))
bit_and-high k (suc s) a h =
    let m = 2 ^ k - 1 in
    let below : a < 2 ^ suc (k + s) = rw (add-suc k s) at h in
    let quotient : a / 2 / 2 ^ s ≡ a / 2 ^ suc s =
      div-div-eq-div-mul a 2 (2 ^ s) ∙ ap (λ (t : ℕ). a / t) (omega (arith, pow-suc 2 s)) in
    omega (
      arith,
      bit_and_halves a (m * 2 ^ suc s),
      ap (bit_and (a / 2)) (half_mask m s),
      even_mask m s,
      bit_and-high k s (a / 2) (omega (arith, pow-suc 2 (k + s))),
      ap (λ (t : ℕ). t * 2 ^ s) quotient,
      ap (λ (t : ℕ). a / 2 ^ suc s * t) (pow-suc 2 s),
    )
