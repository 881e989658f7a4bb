-- ===== src/Wire/Text/Laws.antt =====
-- `from_utf8_lossy` is the inverse of `as_bytes`, and never makes more characters than it reads
-- bytes.
use phira_mp_plus.Common.{
  ℕ, zero, suc, ◌+◌, ◌*◌, ◌%◌, ◌≤◌, ◌≡◌, refl, ap, ◌∙◌, List, [], ◌∷◌, ◌++◌, arith, length, All,
  length-append, append_assoc, sym, replicate,
}
use phira_mp_plus.Wire.Text.{
  Text, IsScalar, encode_char, as_bytes, replacement, Decoder, ready, inside, first_byte, next_byte,
  decode_from, from_utf8_lossy,
}

decode_from-encode_char :
    (c : ℕ) (rest : List ℕ)
    → IsScalar c
    → decode_from ready (encode_char c ++ rest) ≡ c ∷ decode_from ready rest
unfolding decode_from encode_char
decode_from-encode_char c rest h = ground arith

-- Text comes back from its UTF-8 bytes.
pub from_utf8_lossy-as_bytes : (cs : Text) → All IsScalar cs → from_utf8_lossy (as_bytes cs) ≡ cs
unfolding from_utf8_lossy as_bytes
from_utf8_lossy-as_bytes [] h = refl
from_utf8_lossy-as_bytes (c ∷ cs) h =
    decode_from-encode_char c (as_bytes cs) h.0 ∙ ap (◌∷◌ c) (from_utf8_lossy-as_bytes cs h.1)

-- A character that is begun owes one at most.
abbrev pending : Decoder → ℕ
pending ready = 0
pending (inside n value lo hi) = 1

first_byte-pending : (b : ℕ) → length (first_byte b).0 + pending (first_byte b).1 ≡ 1
unfolding first_byte
first_byte-pending b = ground arith

next_byte-pending :
    (d : Decoder) (b : ℕ) → length (next_byte d b).0 + pending (next_byte d b).1 ≤ pending d + 1
unfolding next_byte
next_byte-pending ready b = ground arith
next_byte-pending (inside n value lo hi) b = ground arith

length-decode_from : (d : Decoder) (bs : List ℕ) → length (decode_from d bs) ≤ length bs + pending d
unfolding decode_from
length-decode_from ready [] = omega arith
length-decode_from (inside n value lo hi) [] = omega arith
length-decode_from d (b ∷ bs) = omega (
  arith,
  length-append (next_byte d b).0 (decode_from (next_byte d b).1 bs),
  next_byte-pending d b,
  length-decode_from (next_byte d b).1 bs,
)

pub length-from_utf8_lossy : (bs : List ℕ) → length (from_utf8_lossy bs) ≤ length bs
unfolding from_utf8_lossy
length-from_utf8_lossy bs = omega (arith, length-decode_from ready bs)

length-encode_char : (c : ℕ) → length (encode_char c) ≤ 4
unfolding encode_char
length-encode_char c = ground arith

as_bytes-append : (cs ds : Text) → as_bytes (cs ++ ds) ≡ as_bytes cs ++ as_bytes ds
unfolding as_bytes
as_bytes-append [] ds = refl
as_bytes-append (c ∷ cs) ds =
    ap (◌++◌ (encode_char c)) (as_bytes-append cs ds)
    ∙ sym (append_assoc (encode_char c) (as_bytes cs) (as_bytes ds))

first_byte-size : (b : ℕ) → length (as_bytes (first_byte b).0) + 3 * pending (first_byte b).1 ≤ 3
unfolding first_byte as_bytes encode_char
first_byte-size b = ground arith

replacement_size : length (encode_char replacement) ≡ 3
unfolding encode_char
replacement_size = refl

next_byte-size :
    (d : Decoder) (b : ℕ)
    → length (as_bytes (next_byte d b).0) + 3 * pending (next_byte d b).1 ≤ 3 * pending d + 3
unfolding next_byte as_bytes
next_byte-size ready b = first_byte-size b
next_byte-size (inside n value lo hi) b = ground (
  arith,
  first_byte-size b,
  length-encode_char (value * 64 + b % 64),
  length-append (encode_char replacement) (as_bytes (first_byte b).0),
  length-append (encode_char (value * 64 + b % 64)) [],
  replacement_size,
)

size-decode_from :
    (d : Decoder) (bs : List ℕ)
    → length (as_bytes (decode_from d bs)) ≤ 3 * length bs + 3 * pending d
unfolding decode_from
size-decode_from ready [] = unfold as_bytes in omega arith
size-decode_from (inside n value lo hi) [] = unfold as_bytes encode_char in omega arith
size-decode_from d (b ∷ bs) =
    let (out, d') = next_byte d b in
    rw (as_bytes-append out (decode_from d' bs)) (
      omega (
        arith,
        length-append (as_bytes out) (as_bytes (decode_from d' bs)),
        next_byte-size d b,
        size-decode_from d' bs,
      ))

-- A byte makes three bytes of text at most: those of U+FFFD.
pub size-from_utf8_lossy : (bs : List ℕ) → length (as_bytes (from_utf8_lossy bs)) ≤ 3 * length bs
unfolding from_utf8_lossy
size-from_utf8_lossy bs = omega (arith, size-decode_from ready bs)

-- Bytes that stand in no character, each for itself.
pub from_utf8_lossy-replicate :
    (k : ℕ) → from_utf8_lossy (replicate k 0xff) ≡ replicate k replacement
unfolding from_utf8_lossy
from_utf8_lossy-replicate zero = refl
from_utf8_lossy-replicate (suc k) = ap (◌∷◌ replacement) (from_utf8_lossy-replicate k)

pub size-replicate : (k : ℕ) → length (as_bytes (replicate k replacement)) ≡ 3 * k
unfolding as_bytes encode_char
size-replicate zero = refl
size-replicate (suc k) = omega (arith, size-replicate k)
