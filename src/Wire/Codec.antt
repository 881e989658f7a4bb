-- ===== src/Wire/Codec.antt =====
-- phira-mp/phira-mp-common/src/bin.rs: the trait `BinaryData`, its implementations for integers,
-- floats, `bool` and `()`, and what makes an implementation lawful.
pub mod Numbers
use phira_mp_plus.Common.{
  ℕ, zero, suc, ◌+◌, ◌-◌, ◌*◌, ◌/◌, ◌%◌, ◌^◌, ◌<◌, ◌≡◌, List, [], ◌∷◌, ◌++◌, Bool, true, false, ok,
  ltb, ◌==◌, if◌then◌else◌, ℤ, pos, negsuc,
}
use phira_mp_plus.Wire.Reader.{Reader, ◌>>=◌, pure, byte, take_bytes, Reads}
use phira_mp_plus.Wire.Uleb.{read_uleb, write_uleb}

-- A writer appends to the vector of `BinaryWriter`. Only `serde_json::Number` can fail to be
-- written, and no command holds one.
pub record BinaryData (A : Type 0) : Type 0 where
  pub read : Reader A
  pub write : A → List ℕ → List ℕ

-- The writer only appends; a written value that is `IsOk` is read back, whatever follows it.
pub record Lawful {A : Type 0} (c : BinaryData A) (IsOk : A → Type 0) : Type 0 where
  pub appends : (a : A) (out : List ℕ) → c.write a out ≡ out ++ c.write a []
  pub reads : (a : A) → IsOk a → Reads c.read (c.write a []) a

pub Lawful-weaken :
    {A : Type 0} {c : BinaryData A} {P Q : A → Type 0}
    → Lawful c P
    → ((a : A) → Q a → P a)
    → Lawful c Q
Lawful-weaken l h = record { appends = l.appends; reads = λ a q. l.reads a (h a q) }

-- `to_le_bytes` and `LE::read_*` at `k` bytes.
unfoldable pub to_le_bytes : ℕ → ℕ → List ℕ
to_le_bytes zero v = []
to_le_bytes (suc k) v = v % 256 ∷ to_le_bytes k (v / 256)

unfoldable pub from_le_bytes : List ℕ → ℕ
from_le_bytes [] = 0
from_le_bytes (b ∷ bs) = b + 256 * from_le_bytes bs

abbrev pub unit_data : BinaryData (Unit {0})
unit_data = record { read = pure tt; write = λ a out. out }

abbrev pub u8_data : BinaryData ℕ
u8_data = record { read = byte; write = λ v out. out ++ (v ∷ []) }

-- `u16`, `u32`, `u64` at 2, 4 and 8 bytes. An `f32` is its bit pattern, as `f16` is.
abbrev pub le_data : ℕ → BinaryData ℕ
le_data k = record {
  read = (do bs ← take_bytes k; pure (from_le_bytes bs));
  write = λ v out. out ++ to_le_bytes k v;
}

abbrev pub u16_data : BinaryData ℕ
u16_data = le_data 2

abbrev pub u32_data : BinaryData ℕ
u32_data = le_data 4

abbrev pub u64_data : BinaryData ℕ
u64_data = le_data 8

abbrev pub f32_data : BinaryData ℕ
f32_data = le_data 4

-- Two's complement over the modulus `m`.
unfoldable pub to_bits : ℕ → ℤ → ℕ
to_bits m (pos n) = n
to_bits m (negsuc n) = m - suc n

unfoldable pub of_bits : ℕ → ℕ → ℤ
of_bits m b = if ltb b (m / 2) then pos b else negsuc (m - suc b)

abbrev pub i8_data : BinaryData ℤ
i8_data = record {
  read = (do b ← byte; pure (of_bits (2 ^ 8) b));
  write = λ v out. out ++ (to_bits (2 ^ 8) v ∷ []);
}

-- `LE::read_i32` and `LE::read_i64`, with `to_le_bytes` of a signed integer.
abbrev pub le_signed_data : ℕ → BinaryData ℤ
le_signed_data k = record {
  read = (do bs ← take_bytes k; pure (of_bits (256 ^ k) (from_le_bytes bs)));
  write = λ v out. out ++ to_le_bytes k (to_bits (256 ^ k) v);
}

abbrev pub i32_data : BinaryData ℤ
i32_data = le_signed_data 4

abbrev pub i64_data : BinaryData ℤ
i64_data = le_signed_data 8

abbrev as_u8 : Bool → ℕ
as_u8 true = 1
as_u8 false = 0

abbrev pub bool_data : BinaryData Bool
bool_data = record {
  read = (do b ← byte; pure (b == 1));
  write = λ v out. u8_data.write (as_u8 v) out;
}
