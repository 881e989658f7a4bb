-- ===== src/Wire/RoomId/Laws.antt =====
-- What the decoders of `Varchar<N>` and `RoomId` accept.
use phira_mp_plus.Common.{
  ℕ, ◌*◌, ◌≤◌, ◌<◌, ◌≡◌, ◌≢◌, refl, ◌∙◌, List, [], ◌∷◌, ◌++◌, true, false, Result, ok, err, length,
  All, arith, ltb, if◌then◌else◌, take, length-take, replicate, length-replicate,
}
use phira_mp_plus.Wire.Reader.{
  Reads, Reads-bind, Reads-map, take_bytes, take_bytes-Reads, string_too_long, fail, pure, ◌>>=◌,
  >>=-ok, >>=-inv, lift, WireError,
}
use phira_mp_plus.Wire.Uleb.{IsU64, read_uleb, write_uleb}
use phira_mp_plus.Wire.Uleb.RoundTrip.{read_uleb-write_uleb}
use phira_mp_plus.Wire.Codec.{Lawful}
use phira_mp_plus.Wire.Text.{Text, IsScalar, encode_char, as_bytes, from_utf8_lossy, replacement}
use phira_mp_plus.Wire.Text.Laws.{
  from_utf8_lossy-as_bytes, length-from_utf8_lossy, size-from_utf8_lossy, from_utf8_lossy-replicate,
  size-replicate,
}
use phira_mp_plus.Wire.Containers.Laws.{string_data-Lawful}
use phira_mp_plus.Wire.RoomId.{
  varchar_try_from, read_varchar, varchar_data, all_room_chars, validate, room_id_try_from,
  read_room_id, room_id_data, IsRoomId,
}

ltb-false : (a b : ℕ) → b ≤ a → ltb a b ≡ false
ltb-false a b h = ground arith

-- A `Varchar<N>` that was made from a `String`.
abbrev pub IsVarchar : ℕ → Text → Type 0
IsVarchar n s = All IsScalar s × (length (as_bytes s) ≤ n)

varchar-Reads :
    (n : ℕ) (s : Text)
    → IsU64 n
    → IsVarchar n s
    → Reads (read_varchar n) (write_uleb (length (as_bytes s)) [] ++ as_bytes s) s
unfolding read_varchar
varchar-Reads n s hn h =
    Reads-bind read_uleb _ (write_uleb (length (as_bytes s)) []) (as_bytes s)
      (read_uleb-write_uleb (length (as_bytes s)) (omega arith))
      (λ rest. rw (ltb-false n (length (as_bytes s)) h.1) (
        Reads-map (take_bytes (length (as_bytes s))) from_utf8_lossy (as_bytes s)
          (take_bytes-Reads _ (as_bytes s) refl) (from_utf8_lossy-as_bytes s h.0) rest))

-- Characters of a room id are bytes of their own.
plain_as_bytes : (id : Text) → all_room_chars id ≡ true → (as_bytes id ≡ id) × All IsScalar id
unfolding all_room_chars as_bytes encode_char
plain_as_bytes [] h = (refl, tt)
plain_as_bytes (c ∷ id) h = ground (arith, plain_as_bytes id)

pub room_id_try_from-ok : (s id : Text) → room_id_try_from s ≡ ok id → (id ≡ s) × IsRoomId id
unfolding room_id_try_from
room_id_try_from-ok s id h = ground arith

pub varchar_data-Lawful : (n : ℕ) → IsU64 n → Lawful (varchar_data n) (IsVarchar n)
unfolding varchar_data
varchar_data-Lawful n hn = record {
  appends = string_data-Lawful.appends;
  reads = λ s h. varchar-Reads n s hn h;
}

-- The decoder after the length, and with it.
varchar_tail :
    (n len : ℕ) (bs rest : List ℕ) (s : Text)
    → (if ltb n len
          then fail string_too_long
          else (take_bytes len >>= λ ys. pure (from_utf8_lossy ys)))
        bs
      ≡ ok (s, rest)
    → (length s ≤ n) × (length (as_bytes s) ≤ 3 * n)
unfolding take_bytes
varchar_tail n len bs rest s h = ground (
  arith,
  length-take len bs,
  length-from_utf8_lossy (take len bs),
  size-from_utf8_lossy (take len bs),
)

-- A decoded `Varchar<N>` has at most N characters and at most 3 N bytes.
read_varchar_bounds :
    (n : ℕ) (bs rest : List ℕ) (s : Text)
    → read_varchar n bs ≡ ok (s, rest)
    → (length s ≤ n) × (length (as_bytes s) ≤ 3 * n)
unfolding read_varchar
read_varchar_bounds n bs rest s h =
    let (len, bs', _, tail) = >>=-inv read_uleb _ bs h in varchar_tail n len bs' rest s tail

-- The decoder of `Varchar<N>` does not keep the bound of `try_from`: k ≤ N bytes that are no UTF-8
-- make a value of 3 k bytes.
read_varchar_overrun :
    (n k : ℕ)
    → IsU64 n
    → k ≤ n
    → n < 3 * k
    → (s : Text) × Reads (read_varchar n) (write_uleb k [] ++ replicate k 0xff) s
      × (varchar_try_from n s ≡ err string_too_long)
unfolding read_varchar varchar_try_from
read_varchar_overrun n k hn hk h3 = (
  replicate k replacement,
  Reads-bind read_uleb _ (write_uleb k []) (replicate k 0xff) (read_uleb-write_uleb k (omega arith))
      (λ rest. rw (ltb-false n k hk) (
        Reads-map (take_bytes k) from_utf8_lossy (replicate k 0xff)
          (take_bytes-Reads k (replicate k 0xff) (length-replicate k 0xff))
          (from_utf8_lossy-replicate k) rest)),
  ground (arith, size-replicate k),
)

validate-ok : (s id : Text) → validate s ≡ ok id → (id ≡ s) × (id ≢ []) × (all_room_chars id ≡ true)
unfolding validate
validate-ok s id h = ground arith

pub IsRoomId-validate : (id : Text) → IsRoomId id → validate id ≡ ok id
unfolding validate
IsRoomId-validate id h = ground arith

lift-ok :
    {A : Type 0} (r : Result WireError A) (bs rest : List ℕ) (a : A)
    → lift r bs ≡ ok (a, rest)
    → r ≡ ok a
lift-ok (ok x) bs rest a h = ground arith
lift-ok (err x) bs rest a h = cc

-- A room id that any decoder lets through is not empty, has only allowed characters, and has at
-- most 20 bytes.
pub read_room_id-IsRoomId :
    (bs rest : List ℕ) (id : Text) → read_room_id bs ≡ ok (id, rest) → IsRoomId id
unfolding read_room_id
read_room_id-IsRoomId bs rest id h =
    let (s, bs', e, checked) = >>=-inv (read_varchar 20) _ bs h in
    let (same, named, plain) = validate-ok s id (lift-ok (validate s) bs' rest id checked) in
    record {
      named = named;
      plain = plain;
      short = rw ((plain_as_bytes id plain).0, same) (read_varchar_bounds 20 bs bs' s e).0;
    }

room_id-Reads :
    (id : Text)
    → IsRoomId id
    → Reads read_room_id (write_uleb (length (as_bytes id)) [] ++ as_bytes id) id
unfolding read_room_id
room_id-Reads id h rest =
    >>=-ok (read_varchar 20) _
      (varchar-Reads 20 id (omega arith) ((plain_as_bytes id h.plain).1, h.short) rest)
    ∙ rw (IsRoomId-validate id h)

pub room_id_data-Lawful : Lawful room_id_data IsRoomId
unfolding room_id_data varchar_data
room_id_data-Lawful = record { appends = string_data-Lawful.appends; reads = room_id-Reads }
