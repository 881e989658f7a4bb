-- ===== src/Access/Runs/Agreement.antt =====
-- phira-mp-plus-server/src/ban.rs: the store of extensions keeps what the ideal registry keeps.
use phira_mp_plus.Common.{ℤ, [], ◌∷◌, some, ◌≡◌}
use phira_mp_plus.Wire.Text.{Text, text_eq}
use phira_mp_plus.Net.Proxy.{IpAddr}
use phira_mp_plus.Access.Store.{ExtensionDataStore}
use phira_mp_plus.Access.Reason.Laws.{AreChars}
use phira_mp_plus.Access.Bans.{IsJson, ban_reason}
use phira_mp_plus.Access.Bans.Users.{IsRegistered}
use phira_mp_plus.Access.Addresses.{is_ip_banned}
use phira_mp_plus.Access.Rooms.{is_room_banned, room_whitelist}
use phira_mp_plus.Access.Rooms.Listed.{AreRegistered}
use phira_mp_plus.Access.Runs.{Libraries, Registry}

-- The documented behaviour of the libraries: what serde_json writes is read back, "[]" as the empty list, and
-- the tests of characters are as the manager needs them.
pub record AreLawful (l : Libraries) : Type 0 where
  pub chars_lawful : AreChars (l.chars)
  pub ip_lawful : IsJson (l.ip_json)
  pub room_lawful : IsJson (l.room_json)
  pub list_lawful : IsJson (l.list_json)
  pub empty_list : l.list_json.from_str (b'[' ∷ b']' ∷ []) ≡ some []

-- Every question to the store is answered as by the registry, and the fields of the bans are registered.
pub record Agrees (l : Libraries) (s : ExtensionDataStore) (r : Registry) : Type 0 where
  pub same_reasons : (u : ℤ) → ban_reason (l.chars) u s ≡ r.reasons u
  pub same_addresses : (ip : IpAddr) → is_ip_banned (l.ip_json) ip s ≡ r.addresses ip
  pub same_room_bans :
      (room : Text) (u : ℤ) → is_room_banned (l.room_json) room u s ≡ r.room_bans room u
  pub same_lists : (room : Text) → room_whitelist (l.list_json) room s ≡ r.listed room
  pub users_registered : IsRegistered s
  pub rooms_registered : AreRegistered s
