-- ===== src/Wire/Cursor.antt =====
-- phira-mp/phira-mp-common/src/bin.rs: `BinaryReader` as the source has it, a slice with a position,
-- and its two primitive reads. They agree with the reads of Wire/Reader on the unread slice.
use phira_mp_plus.Common.{
  ℕ, zero, suc, ◌+◌, ◌-◌, ◌%◌, ◌^◌, ◌≤◌, ◌<◌, ◌≡◌, refl, List, [], ◌∷◌, none, some, Result, ok, err,
  leb, ◌&&◌, if◌then◌else◌, length, take, drop, get_elem?, length-drop, drop-drop, arith, inl, inr,
  Option-cases,
}
use native.Mathlib.Numerals.{add-one}
use phira_mp_plus.Wire.Reader.{WireError, unexpected_eof, byte, take_bytes}

pub record Cursor : Type 0 where
  pub slice : List ℕ
  pub pos : ℕ

-- `self.0.get(self.1)`, and `self.1 += 1` when there is a byte.
pub cursor_byte : Cursor → Result WireError (ℕ × Cursor)
cursor_byte c = elim (get_elem? c.slice c.pos) [
  | some b ↦ ok (b, record c { pos = c.pos + 1 })
  | none ↦ err unexpected_eof
]

-- `self.0.get(self.1..(self.1 + n))`: the sum is a `usize` and wraps; a range that ends before it
-- begins, or past the slice, is none.
pub cursor_take : ℕ → Cursor → Result WireError (List ℕ × Cursor)
cursor_take n c =
    let end = (c.pos + n) % 2 ^ 64 in
    if leb c.pos end && leb end (length c.slice)
    then ok (take (end - c.pos) (drop c.pos c.slice), record c { pos = end })
    else err unexpected_eof

-- The position is inside the slice, and a slice has at most `isize::MAX` bytes.
pub record IsInRange (c : Cursor) : Type 0 where
  pub inside : c.pos ≤ length c.slice
  pub addressable : length c.slice < 2 ^ 63

-- What is still to be read.
abbrev pub unread : Cursor → List ℕ
unread c = drop c.pos c.slice

abbrev pub unread_result :
    {A : Type 0} → Result WireError (A × Cursor) → Result WireError (A × List ℕ)
unread_result (ok (a, c)) = ok (a, unread c)
unread_result (err e) = err e

abbrev pub StaysInRange : {A : Type 0} → Result WireError (A × Cursor) → Type 0
StaysInRange (ok (a, c)) = IsInRange c
StaysInRange (err e) = Unit {0}

byte_at :
    (bs : List ℕ) (n : ℕ)
    → byte (drop n bs)
      ≡ (elim (get_elem? bs n) [ some b ↦ ok (b, drop (suc n) bs) | none ↦ err unexpected_eof ])
byte_at [] zero = refl
byte_at [] (suc n) = refl
byte_at (b ∷ bs) zero = refl
byte_at (b ∷ bs) (suc n) = byte_at bs n

get_elem?-lt : (bs : List ℕ) (n b : ℕ) → get_elem? bs n ≡ some b → n < length bs
get_elem?-lt [] n b h = cc
get_elem?-lt (x ∷ bs) zero b h = omega arith
get_elem?-lt (x ∷ bs) (suc n) b h = omega (arith, get_elem?-lt bs n b h)

-- Reading a byte at the position is reading the head of the unread slice, and the position stays in
-- range.
cursor_byte-unread :
    (c : Cursor)
    → IsInRange c
    → (unread_result (cursor_byte c) ≡ byte (unread c)) × StaysInRange (cursor_byte c)
unfolding cursor_byte
cursor_byte-unread c h = elim (Option-cases (get_elem? c.slice c.pos)) [
  | inl e ↦ ground (arith, byte_at c.slice c.pos, e)
  | inr (b, e) ↦
      ground (arith, byte_at c.slice c.pos, get_elem?-lt c.slice c.pos b e, add-one c.pos)
]

-- Reading `n` bytes at the position, for any `usize` `n`, is reading them off the unread slice: the
-- end of the range never wraps into the slice. The position stays in range.
cursor_take-unread :
    (n : ℕ) (c : Cursor)
    → IsInRange c
    → n < 2 ^ 64
    → (unread_result (cursor_take n c) ≡ take_bytes n (unread c)) × StaysInRange (cursor_take n c)
unfolding cursor_take take_bytes
cursor_take-unread n c h hn = ground (arith, length-drop c.pos c.slice, drop-drop n c.pos c.slice)
