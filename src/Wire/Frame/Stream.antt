-- ===== src/Wire/Frame/Stream.antt =====
-- A whole connection in one direction: what the send task writes, the receive task dispatches.
use phira_mp_plus.Common.{
  ℕ, zero, suc, ◌≤◌, ◌<◌, ◌≡◌, refl, List, [], ◌∷◌, err, All, arith, length, length-append,
}
use phira_mp_plus.Wire.Reader.{unexpected_eof}
use phira_mp_plus.Wire.Codec.{BinaryData, Lawful}
use phira_mp_plus.Wire.Frame.{
  encode_packet, frame, max_packet, read_frame, read_length_from, receive_from, receive, send_all,
}
use phira_mp_plus.Wire.Frame.Laws.{read_frame-frame, decode_packet-encode_packet, frame_pos}

read_frame-nil : read_frame [] ≡ err unexpected_eof
unfolding read_frame read_length_from
read_frame-nil = refl

module _ {A : Type 0} {c : BinaryData A} {P : A → Type 0} (l : Lawful c P) where
  -- A payload that the protocol can carry.
  abbrev pub Fits : A → Type 0
  Fits a = P a × (length (encode_packet c a []) ≤ max_packet)

  receive_from-send_all :
      (xs : List A) (fuel : ℕ)
      → All Fits xs
      → length xs < fuel
      → receive_from c fuel (send_all c xs) ≡ (xs, unexpected_eof)
  unfolding receive_from send_all
  receive_from-send_all xs zero h n = absurd (omega arith)
  receive_from-send_all [] (suc fuel) h n = rw (read_frame-nil, receive_from)
  receive_from-send_all (a ∷ xs) (suc fuel) h n = rw (
    read_frame-frame (encode_packet c a []) h.0.1 (send_all c xs),
    decode_packet-encode_packet c P l a h.0.0,
    receive_from-send_all xs fuel h.1 (omega arith),
    receive_from,
  )

  length-send_all : (xs : List A) → length xs ≤ length (send_all c xs)
  unfolding send_all
  length-send_all [] = omega arith
  length-send_all (a ∷ xs) = omega (
    arith,
    length-append (frame (encode_packet c a [])) (send_all c xs),
    frame_pos (encode_packet c a []),
    length-send_all xs,
  )

  -- The payloads arrive all, in order, and unchanged; then the receiver waits for more.
  pub receive-send_all :
      (xs : List A) → All Fits xs → receive c (send_all c xs) ≡ (xs, unexpected_eof)
  unfolding receive
  receive-send_all xs h = receive_from-send_all xs _ h (omega (arith, length-send_all xs))
