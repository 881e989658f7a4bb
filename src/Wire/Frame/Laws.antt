-- ===== src/Wire/Frame/Laws.antt =====
-- A frame that the send task writes is the frame that the receive task reads.
use mathlib.Core.WellFounded.{Acc}
use phira_mp_plus.Common.{
  ℕ, zero, suc, ◌+◌, ◌*◌, ◌/◌, ◌%◌, ◌^◌, ◌≤◌, ◌<◌, ◌≡◌, refl, ap, ◌∙◌, List, [], ◌∷◌, ◌++◌,
  append-nil, append_assoc, ok, err, ltb, if◌then◌else◌, bit_or, arith, length, length-append,
  false, lt→ltb,
}
use phira_mp_plus.Common.Bits.{bit_or-shifted, bit_or-top_bit}
use phira_mp_plus.Wire.Reader.{
  Reader, Reads, Reads-bind, >>=-ok, take_bytes, take_bytes-Reads, packet_too_large, fail,
  invalid_length,
}
use phira_mp_plus.Wire.Uleb.RoundTrip.{groups, length-groups, split_low_group, group_bound}
use phira_mp_plus.Wire.Codec.{BinaryData, Lawful}
use phira_mp_plus.Wire.Frame.{
  encode_packet, decode_packet, length_prefix_from, length_prefix, frame, max_packet,
  read_length_from, read_frame,
}

length_prefix_from-groups :
    (k x : ℕ) (w : Acc ◌<◌ x) → x < 128 ^ suc k → length_prefix_from x w ≡ groups k x
unfolding length_prefix_from groups
length_prefix_from-groups zero x (Acc.intro _ below) h = ground arith
length_prefix_from-groups (suc k) x (Acc.intro _ below) h = grind (
  arith,
  bit_or-top_bit (x % 128),
  λ (w : Acc ◌<◌ (x / 128)). length_prefix_from-groups k (x / 128) w (omega arith),
)

or_low :
    (low group pos : ℕ)
    → low < 2 ^ pos
    → group * 2 ^ pos < 2 ^ 32
    → bit_or low (group * 2 ^ pos % 2 ^ 32) ≡ low + group * 2 ^ pos
or_low low group pos hl fits = ground (arith, bit_or-shifted pos low group)

last_length :
    (low w pos : ℕ) (rest : List ℕ)
    → w < 128
    → low < 2 ^ pos
    → low + w * 2 ^ pos < 2 ^ 32
    → read_length_from low pos (w ∷ rest) ≡ ok (low + w * 2 ^ pos, rest)
unfolding read_length_from
last_length low w pos rest hw hl fits = ground (arith, or_low low w pos)

inner_length :
    (low g pos : ℕ) (rest : List ℕ)
    → g < 128
    → low < 2 ^ pos
    → pos + 7 ≤ 32
    → low + g * 2 ^ pos < 2 ^ 32
    → read_length_from low pos ((g + 128) ∷ rest)
      ≡ read_length_from (low + g * 2 ^ pos) (pos + 7) rest
unfolding read_length_from
inner_length low g pos rest hg hl hp fits = ground (arith, or_low low g pos)

read_length_from-groups :
    (k w low pos : ℕ) (rest : List ℕ)
    → w < 128 ^ suc k
    → pos + 7 * k ≤ 32
    → low < 2 ^ pos
    → low + w * 2 ^ pos < 2 ^ 32
    → read_length_from low pos (groups k w ++ rest) ≡ ok (low + w * 2 ^ pos, rest)
unfolding groups
read_length_from-groups zero w low pos rest hw hp hl fits =
    ground (arith, last_length low w pos rest)
read_length_from-groups (suc k) w low pos rest hw hp hl fits = ground (
  arith,
  last_length low w pos rest,
  inner_length low (w % 128) pos (groups k (w / 128) ++ rest),
  split_low_group pos w,
  group_bound low (w % 128) pos (omega arith),
  read_length_from-groups k (w / 128) (low + w % 128 * 2 ^ pos) (pos + 7) rest (omega arith),
)

whole_length : (n : ℕ) → n < 2 ^ 32 → n % 2 ^ 32 ≡ n
whole_length n h = omega arith

not_too_large : (n : ℕ) → n ≤ max_packet → ltb max_packet (n % 2 ^ 32) ≡ false
not_too_large n h = ground arith

too_large :
    (n : ℕ)
    → max_packet < n
    → n < 2 ^ 32
    → (if ltb max_packet (n % 2 ^ 32) then fail packet_too_large else take_bytes (n % 2 ^ 32))
      ≡ fail packet_too_large
too_large n h h32 = rw (lt→ltb max_packet (n % 2 ^ 32) (omega arith))

length_prefix-Reads : (x : ℕ) → x < 2 ^ 32 → Reads (read_length_from 0 0) (length_prefix x) x
unfolding length_prefix
length_prefix-Reads x h rest =
    rw (length_prefix_from-groups 4 x _ (omega arith))
      (ground (arith, read_length_from-groups 4 x 0 0 rest (omega arith)))

-- `len_buf` has five bytes, and the loop of the send task never fills more.
length_prefix_fits : (x : ℕ) → x < 2 ^ 32 → length (length_prefix x) ≤ 5
unfolding length_prefix
length_prefix_fits x h =
    rw (length_prefix_from-groups 4 x _ (omega arith)) (omega (arith, length-groups 4 x))

pub frame_pos : (buffer : List ℕ) → 1 ≤ length (frame buffer)
unfolding frame length_prefix
frame_pos buffer =
    let n = length buffer % 2 ^ 32 in
    rw (length_prefix_from-groups 4 n _ (omega arith))
      (omega (arith, length-append (groups 4 n) buffer, length-groups 4 n))

-- A payload of at most 2 MiB travels in one frame, whatever follows it.
pub read_frame-frame :
    (buffer : List ℕ) → length buffer ≤ max_packet → Reads read_frame (frame buffer) buffer
unfolding frame read_frame
read_frame-frame buffer h =
    let n = length buffer in
    Reads-bind (read_length_from 0 0) _ (length_prefix (n % 2 ^ 32)) buffer
      (length_prefix-Reads (n % 2 ^ 32) (omega arith))
      (rw (not_too_large n h, whole_length n (omega (arith, h))) (take_bytes-Reads n buffer refl))

-- A payload of more than 2 MiB is sent all the same, and the receiver refuses it.
read_frame_too_large :
    (buffer rest : List ℕ)
    → max_packet < length buffer
    → length buffer < 2 ^ 32
    → read_frame (frame buffer ++ rest) ≡ err packet_too_large
unfolding frame read_frame
read_frame_too_large buffer rest h h32 =
    let n = length buffer in
    rw append_assoc (
      >>=-ok (read_length_from 0 0) _
        (length_prefix-Reads (n % 2 ^ 32) (omega arith) (buffer ++ rest))
      ∙ ap (λ (r : Reader (List ℕ)). r (buffer ++ rest)) (too_large n h h32))

-- Four bytes with the top bit set, and a fifth that has it too, are no length.
pub read_frame_long_length :
    (a b c d e : ℕ) (rest : List ℕ)
    → a < 128
    → b < 128
    → c < 128
    → d < 128
    → e < 128
    → read_frame ((a + 128) ∷ (b + 128) ∷ (c + 128) ∷ (d + 128) ∷ (e + 128) ∷ rest)
      ≡ err invalid_length
unfolding read_frame read_length_from
read_frame_long_length a b c d e rest ha hb hc hd he = ground arith

-- A command comes back from its packet.
pub decode_packet-encode_packet :
    {A : Type 0} (c : BinaryData A) (P : A → Type 0)
    → Lawful c P
    → (a : A) → P a
    → decode_packet c (encode_packet c a []) ≡ ok a
unfolding decode_packet encode_packet
decode_packet-encode_packet c P l a h = rw (rw append-nil at (l.reads a h []), decode_packet)
