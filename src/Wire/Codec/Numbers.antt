-- ===== src/Wire/Codec/Numbers.antt =====
-- The implementations of `BinaryData` for numbers and `bool` are lawful on the values of their type.
use native.Mathlib.Nat.{pow-suc}
use phira_mp_plus.Common.{
  ℕ, zero, suc, ◌/◌, ◌^◌, ◌<◌, ◌≡◌, refl, sym, List, [], ◌++◌, ok, Bool, true, false, ℤ, pos,
  negsuc, length, arith, append-nil,
}
use phira_mp_plus.Wire.Reader.{take_bytes, Reads, Reads-map, take_bytes-Reads}
use phira_mp_plus.Wire.Codec.{
  Lawful, to_le_bytes, from_le_bytes, unit_data, u8_data, le_data, to_bits, of_bits, i8_data,
  le_signed_data, i32_data, bool_data,
}

abbrev pub IsAny : {A : Type 0} → A → Type 0
IsAny a = Unit {0}

abbrev pub IsByte : ℕ → Type 0
IsByte b = b < 256

abbrev pub IsSigned : ℕ → ℤ → Type 0
IsSigned m (pos n) = n < m / 2
IsSigned m (negsuc n) = n < m / 2

abbrev pub IsI8 : ℤ → Type 0
IsI8 = IsSigned (2 ^ 8)

abbrev pub IsI32 : ℤ → Type 0
IsI32 = IsSigned (2 ^ 32)

abbrev pub IsU16 : ℕ → Type 0
IsU16 v = v < 2 ^ 16

abbrev pub IsU32 : ℕ → Type 0
IsU32 v = v < 2 ^ 32

pub length-to_le_bytes : (k v : ℕ) → length (to_le_bytes k v) ≡ k
unfolding to_le_bytes
length-to_le_bytes zero v = refl
length-to_le_bytes (suc k) v = omega (arith, length-to_le_bytes k (v / 256))

pub from_le_bytes-to_le_bytes : (k v : ℕ) → v < 256 ^ k → from_le_bytes (to_le_bytes k v) ≡ v
unfolding to_le_bytes from_le_bytes
from_le_bytes-to_le_bytes zero v h = omega arith
from_le_bytes-to_le_bytes (suc k) v h =
    omega
      (arith, pow-suc 256 k, from_le_bytes-to_le_bytes k (v / 256) (omega (arith, pow-suc 256 k)))

read-le : (k v : ℕ) → v < 256 ^ k → Reads (le_data k).read (to_le_bytes k v) v
read-le k v h =
    Reads-map (take_bytes k) from_le_bytes (to_le_bytes k v)
      (take_bytes-Reads k (to_le_bytes k v) (length-to_le_bytes k v))
      (from_le_bytes-to_le_bytes k v h)

pub le_data-Lawful : (k : ℕ) → Lawful (le_data k) (λ v. v < 256 ^ k)
le_data-Lawful k = record { appends = λ v out. refl; reads = read-le k }

pub unit_data-Lawful : Lawful unit_data IsAny
unit_data-Lawful = record { appends = λ a out. sym (append-nil out); reads = λ a h rest. refl }

pub u8_data-Lawful : Lawful u8_data IsAny
u8_data-Lawful = record { appends = λ v out. refl; reads = λ v h rest. refl }

pub of_bits-to_bits : (m : ℕ) (z : ℤ) → IsSigned m z → of_bits m (to_bits m z) ≡ z
unfolding of_bits to_bits
of_bits-to_bits m (pos n) h = ground arith
of_bits-to_bits m (negsuc n) h = ground arith

to_bits-lt : (m : ℕ) (z : ℤ) → IsSigned m z → to_bits m z < m
unfolding to_bits
to_bits-lt m (pos n) h = omega arith
to_bits-lt m (negsuc n) h = omega arith

pub i8_data-Lawful : Lawful i8_data IsI8
i8_data-Lawful = record {
  appends = λ v out. refl;
  reads = λ v h rest. rw (of_bits-to_bits (2 ^ 8) v h);
}

read-le_signed :
    (k : ℕ) (v : ℤ)
    → IsSigned (256 ^ k) v
    → Reads (le_signed_data k).read (to_le_bytes k (to_bits (256 ^ k) v)) v
read-le_signed k v h =
    let bits = to_bits (256 ^ k) v in
    Reads-map (take_bytes k) (λ bs. of_bits (256 ^ k) (from_le_bytes bs)) (to_le_bytes k bits)
      (take_bytes-Reads k (to_le_bytes k bits) (length-to_le_bytes k bits))
      (rw (from_le_bytes-to_le_bytes k bits (to_bits-lt (256 ^ k) v h))
        (of_bits-to_bits (256 ^ k) v h))

pub le_signed_data-Lawful : (k : ℕ) → Lawful (le_signed_data k) (IsSigned (256 ^ k))
le_signed_data-Lawful k = record { appends = λ v out. refl; reads = read-le_signed k }

pub i32_data-Lawful : Lawful i32_data IsI32
i32_data-Lawful = le_signed_data-Lawful 4

read_bool :
    (b : Bool) (rest : List ℕ) → bool_data.read (bool_data.write b [] ++ rest) ≡ ok (b, rest)
read_bool true rest = refl
read_bool false rest = refl

pub bool_data-Lawful : Lawful bool_data IsAny
bool_data-Lawful = record { appends = λ v out. refl; reads = λ v h rest. read_bool v rest }
