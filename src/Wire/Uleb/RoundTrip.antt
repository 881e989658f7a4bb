-- ===== src/Wire/Uleb/RoundTrip.antt =====
-- What `write_uleb` writes, and that `read_uleb` reads it back.
use native.Mathlib.Nat.{div-add-mod}
use native.Mathlib.Numerals.{towards_suc}
use mathlib.Core.WellFounded.{Acc}
use phira_mp_plus.Common.{
  ℕ, zero, suc, ◌+◌, ◌*◌, ◌/◌, ◌%◌, ◌^◌, ◌≤◌, ◌<◌, ◌≡◌, ap, List, [], ◌∷◌, ◌++◌, ok, ltb,
  if◌then◌else◌, bit_or, arith, append_assoc, length,
}
use phira_mp_plus.Common.Bits.{bit_or-shifted, bit_or-top_bit}
use phira_mp_plus.Wire.Reader.{Reads}
use phira_mp_plus.Wire.Uleb.{IsU64, shl64, read_uleb_from, read_uleb, write_uleb_from, write_uleb}

-- The groups of seven bits of `v`, lowest first, for `v` below 128 ^ (k + 1).
unfoldable pub groups : ℕ → ℕ → List ℕ
groups zero v = v ∷ []
groups (suc k) v =
    let higher = groups k (v / 128) in if ltb v 128 then v ∷ [] else (v % 128 + 128) ∷ higher

pub length-groups : (k v : ℕ) → (1 ≤ length (groups k v)) × (length (groups k v) ≤ k + 1)
unfolding groups
length-groups zero v = omega arith
length-groups (suc k) v = ground (arith, length-groups k (v / 128))

write_uleb_from-groups :
    (k v : ℕ) (w : Acc ◌<◌ v) (out : List ℕ)
    → v < 128 ^ suc k
    → write_uleb_from v w out ≡ out ++ groups k v
unfolding write_uleb_from groups
write_uleb_from-groups zero v (Acc.intro _ below) out h = ground arith
write_uleb_from-groups (suc k) v (Acc.intro _ below) out h =
    let top : List ℕ = (v % 128 + 128) ∷ [] in
    grind (
      arith,
      bit_or-top_bit (v % 128),
      λ (w : Acc ◌<◌ (v / 128)). write_uleb_from-groups k (v / 128) w (out ++ top) (omega arith),
      append_assoc out top (groups k (v / 128)),
    )

write_uleb_from-append :
    (v : ℕ) (w : Acc ◌<◌ v) (out : List ℕ) → write_uleb_from v w out ≡ out ++ write_uleb_from v w []
unfolding write_uleb_from
write_uleb_from-append v (Acc.intro _ below) out =
    let top : List ℕ = bit_or (v % 128) 0x80 ∷ [] in
    grind (
      arith,
      λ (p : v / 128 < v). write_uleb_from-append (v / 128) (below (v / 128) p) (out ++ top),
      λ (p : v / 128 < v). write_uleb_from-append (v / 128) (below (v / 128) p) top,
      λ (p : v / 128 < v). append_assoc out top (write_uleb_from (v / 128) (below (v / 128) p) []),
    )

-- The writer only appends.
pub write_uleb-append : (v : ℕ) (out : List ℕ) → write_uleb v out ≡ out ++ write_uleb v []
unfolding write_uleb
write_uleb-append v out = write_uleb_from-append v _ out

-- The writer keeps what is written, and appends the groups of a `u64`.
pub write_uleb-groups : (v : ℕ) (out : List ℕ) → IsU64 v → write_uleb v out ≡ out ++ groups 9 v
unfolding write_uleb
write_uleb-groups v out h = write_uleb_from-groups 9 v _ out (omega arith)

-- A group under the reader's `|=`, when the number fits 64 bits.
or_group :
    (low group shift : ℕ)
    → shift < 64
    → low < 2 ^ shift
    → group * 2 ^ shift < 2 ^ 64
    → bit_or low (shl64 group shift) ≡ low + group * 2 ^ shift
or_group low group shift hs hl fits = ground (arith, bit_or-shifted shift low group)

seven_higher : (bit : ℕ) → 128 * 2 ^ bit ≡ 2 ^ (bit + 7)
seven_higher bit = simp towards_suc (omega arith)

-- A number from the bit `bit` on is its higher groups, seven bits up, and its lowest one.
pub split_low_group : (bit x : ℕ) → x / 128 * 2 ^ (bit + 7) + x % 128 * 2 ^ bit ≡ x * 2 ^ bit
split_low_group bit x =
    let higher : x / 128 * (128 * 2 ^ bit) ≡ x / 128 * 2 ^ (bit + 7) =
      ap (λ (t : ℕ). x / 128 * t) (seven_higher bit) in
    let whole = ap (λ (t : ℕ). t * 2 ^ bit) (div-add-mod x 128) in omega (arith, higher, whole)

-- One round of the reader: on the last group, and on a group with the top bit set.
last_group :
    (low w shift : ℕ) (rest : List ℕ)
    → w < 128
    → shift < 64
    → low < 2 ^ shift
    → IsU64 (low + w * 2 ^ shift)
    → read_uleb_from low shift (w ∷ rest) ≡ ok (low + w * 2 ^ shift, rest)
unfolding read_uleb_from
last_group low w shift rest hw hs hl fits = ground (arith, or_group low w shift)

inner_group :
    (low g shift : ℕ) (rest : List ℕ)
    → g < 128
    → shift < 64
    → low < 2 ^ shift
    → IsU64 (low + g * 2 ^ shift)
    → read_uleb_from low shift ((g + 128) ∷ rest)
      ≡ read_uleb_from (low + g * 2 ^ shift) (shift + 7) rest
unfolding read_uleb_from
inner_group low g shift rest hg hs hl fits = ground (arith, or_group low g shift)

pub group_bound :
    (low g shift : ℕ) → g < 128 → low < 2 ^ shift → low + g * 2 ^ shift < 2 ^ (shift + 7)
group_bound low g shift hg hl = rw (← seven_higher shift) (grind arith)

-- `w` is what is still to come, and counts from bit `shift` on.
read_uleb_from-groups :
    (k w low shift : ℕ) (rest : List ℕ)
    → w < 128 ^ suc k
    → shift + 7 * k < 64
    → low < 2 ^ shift
    → IsU64 (low + w * 2 ^ shift)
    → read_uleb_from low shift (groups k w ++ rest) ≡ ok (low + w * 2 ^ shift, rest)
unfolding groups
read_uleb_from-groups zero w low shift rest hw hk hl fits =
    ground (arith, last_group low w shift rest)
read_uleb_from-groups (suc k) w low shift rest hw hk hl fits = ground (
  arith,
  last_group low w shift rest,
  inner_group low (w % 128) shift (groups k (w / 128) ++ rest),
  split_low_group shift w,
  group_bound low (w % 128) shift (omega arith),
  read_uleb_from-groups k (w / 128) (low + w % 128 * 2 ^ shift) (shift + 7) rest (omega arith),
)

pub read_uleb-groups :
    (v : ℕ) (rest : List ℕ) → IsU64 v → read_uleb (groups 9 v ++ rest) ≡ ok (v, rest)
unfolding read_uleb
read_uleb-groups v rest h = ground (arith, read_uleb_from-groups 9 v 0 0 rest)

-- The reader gives back any `u64` that the writer wrote, and leaves what follows it.
pub read_uleb-write_uleb : (v : ℕ) → IsU64 v → Reads read_uleb (write_uleb v []) v
read_uleb-write_uleb v h rest = rw (write_uleb-groups v [] h) (read_uleb-groups v rest h)
