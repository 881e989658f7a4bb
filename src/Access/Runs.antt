-- ===== src/Access/Runs.antt =====
-- phira-mp-plus-server/src/ban.rs: the calls that change who may connect and who may enter a room, one after
-- another, and what an ideal registry keeps of them.
pub mod Frames
pub mod Agreement
use phira_mp_plus.Common.{
  ℕ, ℤ, beq_ℤ, List, [], ◌∷◌, ◌++◌, Bool, true, false, not, ◌||◌, ◌&&◌, Option, none, some,
  if◌then◌else◌, retain,
}
use phira_mp_plus.Wire.Text.{Text, beq_text}
use phira_mp_plus.Net.Proxy.{IpAddr}
use phira_mp_plus.Access.Store.{ExtensionDataStore}
use phira_mp_plus.Access.Reason.{Chars, normalize_reason}
use phira_mp_plus.Access.Bans.{Json, ban_user, unban_user, repair_reasons}
use phira_mp_plus.Access.Addresses.{IpBanEntry, beq_ip, ban_ip, unban_ip, ban_user_ips, parses_to}
use phira_mp_plus.Access.Rooms.{
  RoomBanEntry, contains, room_ban_user, room_unban_user, whitelist_add_user, whitelist_remove_user,
  clear_room_whitelist,
}

-- A call of the manager.
pub data Call : Type 0 where
  bans_user : ℤ → Text → Call
  unbans_user : ℤ → Call
  repairs_reasons : Call
  bans_ip : ℕ → IpAddr → Text → Call
  unbans_ip : IpAddr → Call
  bans_user_ips : (ℕ → Bool) → (ℕ → ℕ) → List Text → Text → Call
  bans_from_room : ℕ → Text → ℤ → Text → Call
  unbans_from_room : Text → ℤ → Call
  lists : Text → ℤ → Call
  unlists : Text → ℤ → Call
  opens : Text → Call

-- What the manager needs of the libraries.
pub record Libraries : Type 0 where
  pub chars : Chars
  pub ip_json : Json (List IpBanEntry)
  pub room_json : Json (List RoomBanEntry)
  pub list_json : Json (List ℤ)
  -- `str::parse::<IpAddr>`
  pub parse_ip : Text → Option IpAddr

-- The store after a call; the Boolean says whether the store is saved, but `ban_user_ips` saves it more than
-- once.
unfoldable pub perform : Libraries → Bool → Call → ExtensionDataStore → ExtensionDataStore
perform l p (bans_user u reason) s = (ban_user (l.chars) p u reason s).1
perform l p (unbans_user u) s = (unban_user p u s).1
perform l p repairs_reasons s = (repair_reasons (l.chars) s).0
perform l p (bans_ip now ip reason) s = (ban_ip (l.ip_json) (l.chars) p now ip reason s).1
perform l p (unbans_ip ip) s = (unban_ip (l.ip_json) p ip s).1
perform l p (bans_user_ips persisted clock rows reason) s =
    (ban_user_ips (l.ip_json) (l.chars) (l.parse_ip) persisted clock reason 0 rows s).1
perform l p (bans_from_room now room u reason) s =
    (room_ban_user (l.room_json) (l.chars) p now room u reason s).1
perform l p (unbans_from_room room u) s = (room_unban_user (l.room_json) p room u s).1
perform l p (lists room u) s = (whitelist_add_user (l.list_json) p room u s).1
perform l p (unlists room u) s = (whitelist_remove_user (l.list_json) p room u s).1
perform l p (opens room) s = (clear_room_whitelist (l.list_json) p room s).1

unfoldable pub perform_all :
    Libraries → List (Bool × Call) → ExtensionDataStore → ExtensionDataStore
perform_all l [] s = s
perform_all l ((p, call) ∷ calls) s = perform_all l calls (perform l p call s)

-- The ideal registry: the reason of each banned user, the banned addresses, and for each room the banned users
-- and the list of those whom it lets in.
pub record Registry : Type 0 where
  pub reasons : ℤ → Option Text
  pub addresses : IpAddr → Bool
  pub room_bans : Text → ℤ → Bool
  pub listed : Text → List ℤ

unfoldable pub apply : Chars → (Text → Option IpAddr) → Call → Registry → Registry
apply chars parse (bans_user u reason) r = record r {
  reasons = λ v. if beq_ℤ u v then some (normalize_reason chars reason) else r.reasons v;
}
apply chars parse (unbans_user u) r = record r {
  reasons = λ v. if beq_ℤ u v then none else r.reasons v;
}
apply chars parse repairs_reasons r = r
apply chars parse (bans_ip now ip reason) r = record r {
  addresses = λ other. beq_ip ip other || r.addresses other;
}
apply chars parse (unbans_ip ip) r = record r {
  addresses = λ other. not (beq_ip ip other) && r.addresses other;
}
apply chars parse (bans_user_ips persisted clock rows reason) r = record r {
  addresses = λ other. r.addresses other || parses_to parse other rows;
}
apply chars parse (bans_from_room now room u reason) r = record r {
  room_bans = λ other v. (beq_text room other && beq_ℤ u v) || r.room_bans other v;
}
apply chars parse (unbans_from_room room u) r = record r {
  room_bans = λ other v. not (beq_text room other && beq_ℤ u v) && r.room_bans other v;
}
apply chars parse (lists room u) r = record r {
  listed = λ other.
      if beq_text room other && not (contains u (r.listed room))
      then r.listed room ++ u ∷ []
      else r.listed other;
}
apply chars parse (unlists room u) r = record r {
  listed = λ other.
      if beq_text room other
      then retain (λ id. not (beq_ℤ id u)) (r.listed room)
      else r.listed other;
}
apply chars parse (opens room) r = record r {
  listed = λ other. if beq_text room other then [] else r.listed other;
}

unfoldable pub apply_all : Chars → (Text → Option IpAddr) → List (Bool × Call) → Registry → Registry
apply_all chars parse [] r = r
apply_all chars parse ((p, call) ∷ calls) r = apply_all chars parse calls (apply chars parse call r)
