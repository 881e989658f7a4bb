-- ===== src/Tests/Access.antt =====
-- The theorems on phira-mp-plus-server/src/ban.rs and extensions.rs, at a concrete store. A list is written as
-- rows of numbers, in place of JSON.
use mathlib.Core.List.{map}
use phira_mp_plus.Common.{
  if◌then◌else◌, ℕ, zero, suc, ℤ, pos, negsuc, List, [], ◌∷◌, ◌++◌, Bool, true, false, ◌||◌, ◌&&◌,
  none, some, ◌≡◌, refl, ltb, leb, ◌==◌,
}
use phira_mp_plus.Common.Maps.{get, put}
use phira_mp_plus.Wire.Text.{beq_text, Text, text_eq}
use phira_mp_plus.Net.Proxy.{v4, v6}
use phira_mp_plus.Access.Store.{
  ExtensionDataStore, new, room_key, register_room_field, register_user_field, set_room_extra,
  get_room_extra, remove_fields_by_plugin, keys_of_plugin,
}
use phira_mp_plus.Access.Store.Plugins.{remove_fields_by_plugin-leftover, has_text}
use phira_mp_plus.Access.Reason.{Chars, normalize_reason}
use phira_mp_plus.Access.Reason.Laws.{AreChars, IsNormal, normalize_reason-IsNormal, has_control}
use phira_mp_plus.Access.Bans.{
  repair_all, Json, register_fields, ban_reason, repair_reasons, ban_status_key, ban_reason_key,
  banned_status,
}
use phira_mp_plus.Access.Bans.Users.{repair_reasons-ban_reason}
use phira_mp_plus.Access.Addresses.{IpBanEntry}
use phira_mp_plus.Access.Rooms.{RoomBanEntry}
use phira_mp_plus.Access.Runs.{
  Call, bans_user, unbans_user, bans_ip, bans_from_room, lists, unlists, Libraries, Registry,
}

-- Two numbers, a time and a text.
abbrev Row : Type 0
Row = ℕ × ℕ × ℕ × Text

abbrev write_text : Text → Text → Text
write_text [] rest = 0 ∷ rest
write_text (c ∷ cs) rest = suc c ∷ write_text cs rest

abbrev write_rows : List Row → Text
write_rows [] = []
write_rows ((a, b, at, reason) ∷ rows) = a ∷ b ∷ at ∷ write_text reason (write_rows rows)

-- What has been read of a row.
data Partial : Type 0 where
  at_start : Partial
  after_one : ℕ → Partial
  after_two : ℕ → ℕ → Partial
  in_text : ℕ → ℕ → ℕ → Text → Partial

abbrev read_rows : Partial → Text → List Row
read_rows p [] = []
read_rows at_start (a ∷ cs) = read_rows (after_one a) cs
read_rows (after_one a) (b ∷ cs) = read_rows (after_two a b) cs
read_rows (after_two a b) (at ∷ cs) = read_rows (in_text a b at []) cs
read_rows (in_text a b at reason) (zero ∷ cs) = (a, b, at, reason) ∷ read_rows at_start cs
read_rows (in_text a b at reason) (suc c ∷ cs) = read_rows (in_text a b at (reason ++ c ∷ [])) cs

module _ {A : Type 0} (row_of : A → Row) (of_row : Row → A) where
  abbrev read_all : Text → List A
  read_all [] = []
  read_all (zero ∷ cs) = map of_row (read_rows at_start cs)
  read_all (suc c ∷ cs) = []

  abbrev rows_json : Json (List A)
  rows_json = record {
    to_string = λ xs. some (0 ∷ write_rows (map row_of xs));
    from_str = λ t. some (read_all t);
  }

abbrev ip_row : IpBanEntry → Row
ip_row e = elim (e.ip) [
  | v4 a ↦ (0, a, e.banned_at, e.reason)
  | v6 a ↦ (1, a, e.banned_at, e.reason)
]

abbrev row_ip : Row → IpBanEntry
row_ip (zero, a, at, reason) = record { ip = v4 a; reason = reason; banned_at = at }
row_ip (suc n, a, at, reason) = record { ip = v6 a; reason = reason; banned_at = at }

abbrev int_row : ℤ → ℕ → Text → Row
int_row (pos n) at reason = (0, n, at, reason)
int_row (negsuc n) at reason = (1, n, at, reason)

abbrev row_int : Row → ℤ
row_int (zero, n, at, reason) = pos n
row_int (suc k, n, at, reason) = negsuc n

abbrev row_ban : Row → RoomBanEntry
row_ban (k, n, at, reason) = record {
  user_id = row_int (k, n, at, reason);
  reason = reason;
  banned_at = at;
}

abbrev ascii : Chars
ascii = record {
  is_control = λ c. ltb c 32 || c == 127;
  is_whitespace = λ c. c == 32 || (leb 9 c && leb c 13);
}

ascii-AreChars : AreChars ascii
unfolding has_control
ascii-AreChars = record {
  space_plain = refl;
  default_plain = refl;
  default_start = refl;
  default_end = refl;
}

abbrev libraries : Libraries
libraries = record {
  chars = ascii;
  ip_json = rows_json ip_row row_ip;
  room_json = rows_json (λ e. int_row (e.user_id) (e.banned_at) (e.reason)) row_ban;
  list_json = rows_json (λ u. int_row u 0 []) row_int;
  parse_ip = λ t. if beq_text t [] then none else some (v4 4);
}

-- The store of a server that has just started.
abbrev started : ExtensionDataStore
started = register_fields ascii [] [] [] [] (b'm' ∷ b'p' ∷ []) new

abbrev nobody : Registry
nobody = record {
  reasons = λ u. none;
  addresses = λ ip. false;
  room_bans = λ room u. false;
  listed = λ room. [];
}

abbrev spam : Text
spam = b'a' ∷ 7 ∷ b'b' ∷ b' ' ∷ []

abbrev calls : List (Bool × Call)
calls =
    (true, bans_user (pos 7) spam)
    ∷ (false, bans_ip 1 (v4 10) spam)
    ∷ (true, lists spam (pos 3))
    ∷ (true, bans_from_room 2 spam (pos 3) [])
    ∷ (false, unlists spam (pos 3))
    ∷ (true, unbans_user (pos 7))
    ∷ []

normalize_reason-IsNormal_example : IsNormal ascii (normalize_reason ascii spam)
normalize_reason-IsNormal_example = normalize_reason-IsNormal ascii spam ascii-AreChars

-- A reason that was written with a control character in it.
abbrev crooked : ExtensionDataStore
crooked = record started {
  user_data = (pos 7, (ban_status_key, banned_status) ∷ (ban_reason_key, spam) ∷ []) ∷ [];
}

repair_reasons-ban_reason_example :
    (ban_reason ascii (pos 7) ((repair_reasons ascii crooked).0) ≡ ban_reason ascii (pos 7) crooked)
    × (repair_reasons ascii ((repair_reasons ascii crooked).0)
        ≡ ((repair_reasons ascii crooked).0, 0))
repair_reasons-ban_reason_example = repair_reasons-ban_reason ascii (pos 7) crooked ascii-AreChars

no_field : get (room_key spam) (started.fields) ≡ none
unfolding register_fields repair_reasons repair_all register_user_field register_room_field get put
no_field = refl

no_user_field : has_text spam (keys_of_plugin (b'p' ∷ []) (started.fields)) ≡ false
unfolding register_fields repair_reasons repair_all register_user_field register_room_field get put
    has_text keys_of_plugin
no_user_field = refl

remove_fields_by_plugin-leftover_example :
    let registered = register_room_field spam [] (b'p' ∷ []) [] started in
    let removed =
      remove_fields_by_plugin (b'p' ∷ []) (set_room_extra (b'r' ∷ []) spam spam registered.1).1 in
    (get_room_extra (b'r' ∷ []) spam removed.1 ≡ some spam)
    × (get (room_key spam) (removed.1.fields) ≡ none)
remove_fields_by_plugin-leftover_example =
    remove_fields_by_plugin-leftover (b'p' ∷ []) spam [] [] spam (b'r' ∷ []) started no_field
      no_user_field
