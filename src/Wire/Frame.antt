-- ===== src/Wire/Frame.antt =====
-- phira-mp/phira-mp-common/src/lib.rs: `encode_packet`, `decode_packet`, and the framing of packets
-- in the send and receive tasks of `Stream::new`.
pub mod Laws
pub mod Stream
use mathlib.Core.Logic.{dite}
use mathlib.Core.WellFounded.{Acc}
use native.Mathlib.Decide.{dec_lt}
use phira_mp_plus.Common.{
  ℕ, zero, suc, ◌+◌, ◌*◌, ◌/◌, ◌%◌, ◌^◌, ◌<◌, List, [], ◌∷◌, ◌++◌, Result, ok, err, ltb, ◌==◌,
  if◌then◌else◌, bit_or, length,
}
use phira_mp_plus.Common.Order.{lt_wf}
use phira_mp_plus.Wire.Reader.{
  WireError, Reader, ◌>>=◌, pure, fail, take_bytes, unexpected_eof, invalid_length,
  packet_too_large,
}
use phira_mp_plus.Wire.Uleb.{less_after_shift}
use phira_mp_plus.Wire.Codec.{BinaryData}

module _ {A : Type 0} (c : BinaryData A) where
  unfoldable pub encode_packet : A → List ℕ → List ℕ
  encode_packet payload vec = c.write payload vec

  -- What the reader leaves is ignored.
  pub decode_packet : List ℕ → Result WireError A
  decode_packet bs = elim (c.read bs) [ ok (a, rest) ↦ ok a | err e ↦ err e ]

-- The loop of the send task over `x`, which fills `len_buf[..n]`.
unfoldable pub length_prefix_from : (x : ℕ) → Acc ◌<◌ x → List ℕ
length_prefix_from x (Acc.intro _ below) =
    dite (dec_lt 0 (x / 128))
      (λ more.
        bit_or (x % 128) 0x80 ∷ length_prefix_from (x / 128) (below _ (less_after_shift x more)))
      (λ _. x % 128 ∷ [])

unfoldable pub length_prefix : ℕ → List ℕ
length_prefix x = length_prefix_from x (lt_wf.apply x)

-- What the send task writes for a payload whose bytes are `buffer`: `buffer.len() as u32`, then the
-- bytes.
unfoldable pub frame : List ℕ → List ℕ
frame buffer = length_prefix (length buffer % 2 ^ 32) ++ buffer

abbrev pub max_packet : ℕ
max_packet = 2 * 1024 * 1024

-- The inner loop of the receive task, from `len` and `pos`. The shift is below 32 whenever it is
-- made, and loses the bits above it.
unfoldable pub read_length_from : ℕ → ℕ → Reader ℕ
read_length_from len pos [] = err unexpected_eof
read_length_from len pos (b ∷ rest) =
    let len' = bit_or len (b % 128 * 2 ^ pos % 2 ^ 32) in
    let more = read_length_from len' (pos + 7) rest in
    if b / 128 % 2 == 0
    then ok (len', rest)
    else if ltb 32 (pos + 7)
    then err invalid_length
    else more

-- One packet off the socket's bytes: its length, the limit, and `read_exact`.
unfoldable pub read_frame : Reader (List ℕ)
read_frame = do
  len ← read_length_from 0 0
  if ltb max_packet len then fail packet_too_large else take_bytes len

-- The receive task: it dispatches each payload in turn, and stops at the first error. Each round
-- takes a byte at least, so one round more than there are bytes is enough.
module _ {A : Type 0} (c : BinaryData A) where
  unfoldable pub receive_from : ℕ → List ℕ → List A × WireError
  receive_from zero bs = ([], unexpected_eof)
  receive_from (suc fuel) bs = elim (read_frame bs) [
    | err e ↦ ([], e)
    | ok (buffer, rest) ↦ (elim (decode_packet c buffer) [
      | err e ↦ ([], e)
      | ok a ↦ (let later = receive_from fuel rest in (a ∷ later.0, later.1))
    ])
  ]

  unfoldable pub receive : List ℕ → List A × WireError
  receive bs = receive_from (suc (length bs)) bs

  -- What the send task has written after the payloads.
  unfoldable pub send_all : List A → List ℕ
  send_all [] = []
  send_all (a ∷ xs) = frame (encode_packet c a []) ++ send_all xs
