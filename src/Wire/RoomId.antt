-- ===== src/Wire/RoomId.antt =====
-- phira-mp/phira-mp-common/src/command.rs: `Varchar<N>` and `RoomId`.
pub mod Laws
use phira_mp_plus.Common.{
  ℕ, ◌≤◌, ◌<◌, ◌≡◌, ◌≢◌, List, [], ◌∷◌, Bool, true, false, not, ◌&&◌, ◌||◌, Result, ok, err, leb,
  ltb, ◌==◌, if◌then◌else◌, length, All,
}
use phira_mp_plus.Wire.Reader.{
  WireError, Reader, ◌>>=◌, pure, fail, lift, take_bytes, string_too_long, invalid_room_id,
}
use phira_mp_plus.Wire.Uleb.{read_uleb}
use phira_mp_plus.Wire.Codec.{BinaryData}
use phira_mp_plus.Wire.Text.{Text, as_bytes, from_utf8_lossy}
use phira_mp_plus.Wire.Containers.{string_data}

-- `Varchar::<N>::try_from(String)`
unfoldable pub varchar_try_from : ℕ → Text → Result WireError Text
varchar_try_from n value = if ltb n (length (as_bytes value)) then err string_too_long else ok value

unfoldable pub read_varchar : ℕ → Reader Text
read_varchar n = do
  len ← read_uleb
  if ltb n len then fail string_too_long else (do bs ← take_bytes len; pure (from_utf8_lossy bs))

pub varchar_data : ℕ → BinaryData Text
varchar_data n = record { read = read_varchar n; write = string_data.write }

-- `it == '-' || it == '_' || it.is_ascii_alphanumeric()`
unfoldable pub is_room_char : ℕ → Bool
is_room_char c =
    c == b'-'
    || c == b'_'
    || (leb b'0' c && leb c b'9')
    || (leb b'A' c && leb c b'Z')
    || (leb b'a' c && leb c b'z')

unfoldable pub all_room_chars : Text → Bool
unfolding is_room_char
all_room_chars [] = true
all_room_chars (c ∷ cs) = is_room_char c && all_room_chars cs

abbrev is_empty : Text → Bool
is_empty [] = true
is_empty (c ∷ cs) = false

-- `RoomId::validate`
unfoldable pub validate : Text → Result WireError Text
unfolding all_room_chars
validate id = if is_empty id || not (all_room_chars id) then err invalid_room_id else ok id

-- `RoomId::try_from(String)`
unfoldable pub room_id_try_from : Text → Result WireError Text
unfolding validate varchar_try_from
room_id_try_from value = elim (varchar_try_from 20 value) [ ok id ↦ validate id | err e ↦ err e ]

unfoldable pub read_room_id : Reader Text
unfolding validate read_varchar
read_room_id = do id ← read_varchar 20; lift (validate id)

pub room_id_data : BinaryData Text
unfolding varchar_data
room_id_data = record { read = read_room_id; write = (varchar_data 20).write }

-- What a `RoomId` is meant to be.
pub record IsRoomId (id : Text) : Type 0 where
  pub named : id ≢ []
  pub plain : all_room_chars id ≡ true
  pub short : length (as_bytes id) ≤ 20
