-- ===== src/Wire/Text.antt =====
-- What phira-mp/phira-mp-common/src/bin.rs and command.rs use of Rust's `String`: its UTF-8 bytes,
-- and `String::from_utf8_lossy`, which puts U+FFFD for each maximal ill-formed part.
pub mod Laws
use phira_mp_plus.Common.{
  ℕ, ◌+◌, ◌-◌, ◌*◌, ◌/◌, ◌%◌, ◌≤◌, ◌<◌, ◌⊎◌, List, [], ◌∷◌, ◌++◌, Bool, true, false, ◌&&◌, ltb, leb,
  ◌==◌, if◌then◌else◌, ◌≡◌, ◌↔◌, refl, Eq, arith,
}

-- The characters of a `String`, as code points.
abbrev pub Text : Type 0
Text = List ℕ

abbrev pub beq_text : Text → Text → Bool
beq_text [] [] = true
beq_text (a ∷ s) (b ∷ t) = a == b && beq_text s t
beq_text _ _ = false

pub beq_text_iff : (s t : Text) → (beq_text s t ≡ true) ↔ (s ≡ t)
beq_text_iff [] [] = ((λ h. refl), (λ h. refl))
beq_text_iff [] (b ∷ t) = ((λ h. cc), (λ h. cc))
beq_text_iff (a ∷ s) [] = ((λ h. cc), (λ h. cc))
beq_text_iff (a ∷ s) (b ∷ t) = ground (arith, beq_text_iff s t)

instance abbrev pub text_eq : Eq Text
text_eq = record { beq = beq_text; beq_iff = beq_text_iff }

-- What a `char` can be: no surrogate, at most U+10FFFF.
abbrev pub IsScalar : ℕ → Type 0
IsScalar c = (c < 0xd800) ⊎ ((0xe000 ≤ c) × (c < 0x11_0000))

unfoldable pub encode_char : ℕ → List ℕ
encode_char c =
    if ltb c 0x80
    then c ∷ []
    else if ltb c 0x800
    then (0xc0 + c / 64) ∷ (0x80 + c % 64) ∷ []
    else if ltb c 0x1_0000
    then (0xe0 + c / 4096) ∷ (0x80 + c / 64 % 64) ∷ (0x80 + c % 64) ∷ []
    else (0xf0 + c / 262144) ∷ (0x80 + c / 4096 % 64) ∷ (0x80 + c / 64 % 64) ∷ (0x80 + c % 64) ∷ []

-- `String::as_bytes`
unfoldable pub as_bytes : Text → List ℕ
as_bytes [] = []
as_bytes (c ∷ cs) = encode_char c ++ as_bytes cs

abbrev pub replacement : ℕ
replacement = 0xfffd

-- Inside a character: the bytes still to come, the value so far, and the range of the next byte.
pub data Decoder : Type 0 where
  ready : Decoder
  inside : ℕ → ℕ → ℕ → ℕ → Decoder

-- A byte where a character begins: the characters that it ends, and what comes next.
unfoldable pub first_byte : ℕ → List ℕ × Decoder
first_byte b =
    if ltb b 0x80
    then (b ∷ [], ready)
    else if leb 0xc2 b && leb b 0xdf
    then ([], inside 1 (b - 0xc0) 0x80 0xbf)
    else if leb 0xe0 b && leb b 0xef
    then (
      [],
      inside 2 (b - 0xe0) (if b == 0xe0 then 0xa0 else 0x80) (if b == 0xed then 0x9f else 0xbf),
    )
    else if leb 0xf0 b && leb b 0xf4
    then (
      [],
      inside 3 (b - 0xf0) (if b == 0xf0 then 0x90 else 0x80) (if b == 0xf4 then 0x8f else 0xbf),
    )
    else (replacement ∷ [], ready)

-- A byte that does not continue the character ends it ill-formed, and is read again as a first byte.
unfoldable pub next_byte : Decoder → ℕ → List ℕ × Decoder
unfolding first_byte
next_byte ready b = first_byte b
next_byte (inside n value lo hi) b =
    if leb lo b && leb b hi
    then (if n == 1
        then ((value * 64 + b % 64) ∷ [], ready)
        else ([], inside (n - 1) (value * 64 + b % 64) 0x80 0xbf))
    else (replacement ∷ (first_byte b).0, (first_byte b).1)

unfoldable pub at_end : Decoder → List ℕ
at_end ready = []
at_end (inside n value lo hi) = replacement ∷ []

unfoldable pub decode_from : Decoder → List ℕ → Text
unfolding next_byte at_end
decode_from d [] = at_end d
decode_from d (b ∷ bs) = (next_byte d b).0 ++ decode_from (next_byte d b).1 bs

-- `String::from_utf8_lossy`
unfoldable pub from_utf8_lossy : List ℕ → Text
unfolding decode_from
from_utf8_lossy bs = decode_from ready bs
