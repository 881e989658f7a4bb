-- ===== src/Net/Proxy/Cidr/Masks.antt =====
-- What the masks of phira-mp-plus-server/src/server/proxy_protocol.rs compare.
use Prim.Native.Nat.{bit_and}
use native.Mathlib.Nat.{mul-div_cancel}
use phira_mp_plus.Common.{
  ℕ, zero, suc, ◌+◌, ◌-◌, ◌*◌, ◌/◌, ◌%◌, ◌^◌, ◌<◌, ◌≤◌, ◌≡◌, refl, sym, ap, ◌∙◌, Bool, true, false,
  ◌&&◌, some, ltb, ◌==◌, ==_iff, arith, Bool-cases, inl, inr,
}
use phira_mp_plus.Common.And.{bit_and-high, pow_pos}
use phira_mp_plus.Wire.Text.{Text}
use phira_mp_plus.Net.Proxy.{IpAddr, v4, v6}
use phira_mp_plus.Net.Proxy.Cidr.{
  CidrParsers, split_once, mask, same_network, ip_matches_single_cidr,
}

-- The mask of one shift, as ones above zeros.
abbrev is_high_mask : ℕ → ℕ → Bool
is_high_mask width shift =
    ((2 ^ width - 1) * 2 ^ shift % 2 ^ width) == ((2 ^ (width - shift) - 1) * 2 ^ shift)

are_high_masks : ℕ → ℕ → Bool
are_high_masks width zero = true
are_high_masks width (suc n) = is_high_mask width n && are_high_masks width n

are_high_masks-at :
    (width n shift : ℕ)
    → are_high_masks width n ≡ true
    → shift < n
    → is_high_mask width shift ≡ true
unfolding are_high_masks
are_high_masks-at width zero shift h lt = absurd (omega arith)
are_high_masks-at width (suc n) shift h lt = elim (Bool-cases (ltb shift n)) [
  | inl below ↦ are_high_masks-at width n shift (ground arith) (ground arith)
  | inr top ↦ let last : shift ≡ n = ground arith in rw last (ground arith)
]

-- The masks of both families, one by one.
high_masks_v4 : are_high_masks 32 32 ≡ true
unfolding are_high_masks
high_masks_v4 = refl

high_masks_v6 : are_high_masks 128 128 ≡ true
unfolding are_high_masks
high_masks_v6 = refl

mask-high :
    (width prefix : ℕ)
    → are_high_masks width width ≡ true
    → mask width prefix ≡ (2 ^ (width - (width - prefix)) - 1) * 2 ^ (width - prefix)
unfolding mask
mask-high width prefix h = elim (Bool-cases (ltb (width - prefix) width)) [
  | inl inside ↦
      rw inside ((==_iff _ _).0 (are_high_masks-at width width (width - prefix) h (ground arith)))
  | inr whole ↦
      let none_left : width - (width - prefix) ≡ 0 = ground arith in
      rw (whole, none_left) (zero_times (2 ^ (width - prefix)))
]
  where
    zero_times : (n : ℕ) → 0 ≡ (2 ^ 0 - 1) * n
    zero_times n = omega arith

iff→eq : (p q : Bool) → (p ≡ true → q ≡ true) → (q ≡ true → p ≡ true) → p ≡ q
iff→eq true q f g = ground (arith, f refl)
iff→eq false q f g = ground arith

times-inj : (c x y : ℕ) → 1 ≤ c → x * c ≡ y * c → x ≡ y
times-inj c x y h e = sym (mul-div_cancel x h) ∙ ap (λ (t : ℕ). t / c) e ∙ mul-div_cancel y h

times-== : (c x y : ℕ) → 1 ≤ c → (x * c == y * c) ≡ (x == y)
times-== c x y h =
    iff→eq (x * c == y * c) (x == y)
      (λ e. (==_iff x y).1 (times-inj c x y h ((==_iff (x * c) (y * c)).0 e)))
      (λ e. (==_iff (x * c) (y * c)).1 (ap (λ (t : ℕ). t * c) ((==_iff x y).0 e)))

same_masked :
    (width prefix a b : ℕ)
    → are_high_masks width width ≡ true
    → a < 2 ^ width
    → b < 2 ^ width
    → (bit_and a (mask width prefix) == bit_and b (mask width prefix))
      ≡ (a / 2 ^ (width - prefix) == b / 2 ^ (width - prefix))
same_masked width prefix a b h ha hb =
    let s = width - prefix in
    let k = width - s in
    let whole : k + s ≡ width = omega arith in
    rw
      (mask-high width prefix h, bit_and-high k s a (rw whole ha), bit_and-high k s b (rw whole hb))
      (times-== (2 ^ s) (a / 2 ^ s) (b / 2 ^ s) (pow_pos s))

-- Both are of one family, and agree in their first `prefix` bits.
abbrev pub IsAddress : IpAddr → Type 0
IsAddress (v4 n) = n < 2 ^ 32
IsAddress (v6 n) = n < 2 ^ 128

abbrev pub agrees_in : ℕ → IpAddr → IpAddr → Bool
agrees_in prefix (v4 a) (v4 b) = a / 2 ^ (32 - prefix) == b / 2 ^ (32 - prefix)
agrees_in prefix (v6 a) (v6 b) = a / 2 ^ (128 - prefix) == b / 2 ^ (128 - prefix)
agrees_in prefix _ _ = false

same_network-agrees_in :
    (prefix : ℕ) (ip net : IpAddr)
    → IsAddress ip
    → IsAddress net
    → same_network ip net prefix ≡ agrees_in prefix ip net
unfolding same_network
same_network-agrees_in prefix (v4 a) (v4 b) ha hb = same_masked 32 prefix a b high_masks_v4 ha hb
same_network-agrees_in prefix (v6 a) (v6 b) ha hb = same_masked 128 prefix a b high_masks_v6 ha hb
same_network-agrees_in prefix (v4 a) (v6 b) ha hb = refl
same_network-agrees_in prefix (v6 a) (v4 b) ha hb = refl

-- An address matches a CIDR that parses exactly if it is of the network's family and their first
-- `prefix` bits agree; a longer prefix than the family has bits counts as all of them.
pub ip_matches_single_cidr-agrees_in :
    (q : CidrParsers) (ip net : IpAddr) (prefix : ℕ) (cidr net_str pre_str : Text)
    → split_once b'/' cidr ≡ some (net_str, pre_str)
    → q.parse_u8 pre_str ≡ some prefix
    → q.parse_ip (q.trim net_str) ≡ some net
    → IsAddress ip
    → IsAddress net
    → ip_matches_single_cidr q ip cidr ≡ agrees_in prefix ip net
unfolding ip_matches_single_cidr
ip_matches_single_cidr-agrees_in q ip net prefix cidr net_str pre_str split parsed found hi hn =
    ground (arith, split, parsed, found, same_network-agrees_in prefix ip net hi hn)
