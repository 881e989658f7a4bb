-- ===== src/Wire/Uleb.antt =====
-- phira-mp/phira-mp-common/src/bin.rs: `BinaryReader::uleb` and `BinaryWriter::uleb`, an unsigned
-- 64-bit integer in groups of seven bits, lowest group first.
pub mod RoundTrip
use mathlib.Core.Logic.{dite}
use mathlib.Core.WellFounded.{Acc}
use native.Mathlib.Decide.{dec_lt}
use phira_mp_plus.Common.{
  ℕ, ◌+◌, ◌*◌, ◌/◌, ◌%◌, ◌^◌, ◌<◌, List, [], ◌∷◌, ◌++◌, ok, err, ◌==◌, if◌then◌else◌, bit_or, arith,
}
use phira_mp_plus.Common.Order.{lt_wf}
use phira_mp_plus.Wire.Reader.{Reader, unexpected_eof}

abbrev pub IsU64 : ℕ → Type 0
IsU64 v = v < 2 ^ 64

-- `x << shift` on a `u64` of a release build: the shift is taken modulo 64, high bits are lost.
abbrev pub shl64 : ℕ → ℕ → ℕ
shl64 x shift = x * 2 ^ (shift % 64) % 2 ^ 64

-- The loop of `BinaryReader::uleb`, from `result` and `shift`.
unfoldable pub read_uleb_from : ℕ → ℕ → Reader ℕ
read_uleb_from result shift [] = err unexpected_eof
read_uleb_from result shift (b ∷ rest) =
    let result' = bit_or result (shl64 (b % 128) shift) in
    let more = read_uleb_from result' (shift + 7) rest in
    if b / 128 % 2 == 0 then ok (result', rest) else more

unfoldable pub read_uleb : Reader ℕ
read_uleb = read_uleb_from 0 0

pub less_after_shift : (v : ℕ) → 0 < v / 128 → v / 128 < v
less_after_shift v h = omega arith

-- The loop of `BinaryWriter::uleb`: it goes on while `v >> 7` is not 0.
pub write_uleb_from : (v : ℕ) → Acc ◌<◌ v → List ℕ → List ℕ
write_uleb_from v (Acc.intro _ below) out =
    dite (dec_lt 0 (v / 128))
      (λ more.
        write_uleb_from (v / 128) (below _ (less_after_shift v more))
          (out ++ (bit_or (v % 128) 0x80 ∷ [])))
      (λ _. out ++ (v % 128 ∷ []))

pub write_uleb : ℕ → List ℕ → List ℕ
write_uleb v out = write_uleb_from v (lt_wf.apply v) out
