-- ===== src/Wire/Reader.antt =====
-- phira-mp/phira-mp-common/src/bin.rs: `BinaryReader`, the reads of bytes and slices, and the
-- errors of every decoder.

use phira_mp_plus.Common.{
  ℕ, ◌≡◌, ap, ◌∙◌, List, [], ◌∷◌, ◌++◌, append_assoc, Result, ok, err, leb, if◌then◌else◌, length,
  take, drop, length-append, take-append, drop-append, arith, Result-cases, inl, inr,
}

-- The messages of `anyhow!` and `bail!` in the decoders.
pub data WireError : Type 0 where
  unexpected_eof : WireError
  string_too_long : WireError
  invalid_room_id : WireError
  invalid_enum : ℕ → WireError
  invalid_length : WireError
  packet_too_large : WireError

-- A `&mut BinaryReader` is the slice that is not read yet; `Reader.Cursor` relates it to the slice
-- with a position.
abbrev pub Reader : Type 0 → Type 0
Reader A = List ℕ → Result WireError (A × List ℕ)

infixl 5 ◌>>=◌ ◌>>◌
abbrev pub ◌>>=◌ : {A B : Type 0} → Reader A → (A → Reader B) → Reader B
◌>>=◌ m f bs = elim (m bs) [ ok (a, rest) ↦ f a rest | err e ↦ err e ]

abbrev pub ◌>>◌ : {B : Type 0} → Reader (Unit {0}) → Reader B → Reader B
m >> k = m >>= λ _. k

abbrev pub pure : {A : Type 0} → A → Reader A
pure a bs = ok (a, bs)

abbrev pub fail : {A : Type 0} → WireError → Reader A
fail e bs = err e

-- A check on what was read, under `?`.
abbrev pub lift : {A : Type 0} → Result WireError A → Reader A
lift r bs = elim r [ ok a ↦ ok (a, bs) | err e ↦ err e ]

-- `BinaryReader::byte`
abbrev pub byte : Reader ℕ
byte [] = err unexpected_eof
byte (b ∷ rest) = ok (b, rest)

-- `BinaryReader::take`
unfoldable pub take_bytes : ℕ → Reader (List ℕ)
take_bytes n bs = if leb n (length bs) then ok (take n bs, drop n bs) else err unexpected_eof

pub >>=-ok :
    {A B : Type 0} (m : Reader A) (f : A → Reader B) {bs rest : List ℕ} {a : A}
    → m bs ≡ ok (a, rest)
    → (m >>= f) bs ≡ f a rest
>>=-ok m f e = rw (e, ◌>>=◌)

pub >>=-inv :
    {A B : Type 0} (m : Reader A) (f : A → Reader B) (bs : List ℕ) {r : B × List ℕ}
    → (m >>= f) bs ≡ ok r
    → (a : A) × (rest : List ℕ) × (m bs ≡ ok (a, rest)) × (f a rest ≡ ok r)
>>=-inv m f bs h = elim (Result-cases (m bs)) [
  | inl ((a, rest), e) ↦ (a, rest, e, rw (e, ◌>>=◌) at h)
  | inr (x, e) ↦ cc (rw (e, ◌>>=◌) at h)
]

-- The reader takes exactly `xs` off the front of the input and gives `a`.
abbrev pub Reads : {A : Type 0} → Reader A → List ℕ → A → Type 0
Reads m xs a = (rest : List ℕ) → m (xs ++ rest) ≡ ok (a, rest)

pub Reads-bind :
    {A B : Type 0} (m : Reader A) (f : A → Reader B) (xs ys : List ℕ) {a : A} {b : B}
    → Reads m xs a
    → Reads (f a) ys b
    → Reads (m >>= f) (xs ++ ys) b
Reads-bind m f xs ys hm hf rest = rw append_assoc (>>=-ok m f (hm (ys ++ rest)) ∙ hf rest)

pub Reads-map :
    {A B : Type 0} (m : Reader A) (f : A → B) (xs : List ℕ) {a : A} {b : B}
    → Reads m xs a
    → f a ≡ b
    → Reads (m >>= λ x. pure (f x)) xs b
Reads-map m f xs hm e rest = >>=-ok m (λ x. pure (f x)) (hm rest) ∙ ap (λ y. ok (y, rest)) e

-- A slice that starts with `xs` gives `xs` to a read of its length.
pub take_bytes-Reads : (n : ℕ) (xs : List ℕ) → length xs ≡ n → Reads (take_bytes n) xs xs
unfolding take_bytes
take_bytes-Reads n xs h rest =
    ground (arith, h, length-append xs rest, take-append xs rest, drop-append xs rest)
