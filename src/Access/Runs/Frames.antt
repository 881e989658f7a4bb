-- ===== src/Access/Runs/Frames.antt =====
-- phira-mp-plus-server/src/ban.rs: which part of the store a call leaves as it is.
use phira_mp_plus.Common.{
  Option-cases, inl, inr, ◌+◌, ℕ, ℤ, beq_ℤ, List, [], ◌∷◌, ◌++◌, Bool, true, false, not, Option,
  none, some, retain, ◌≡◌, refl, arith,
}
use phira_mp_plus.Common.Maps.{get}
use phira_mp_plus.Common.{Result, ok, err}
use phira_mp_plus.Wire.Text.{Text, beq_text, text_eq}
use phira_mp_plus.Net.Proxy.{IpAddr}
use phira_mp_plus.Access.Store.{
  StoreError, ExtensionDataStore, get_room_extra, set_room_extra, set_global, is_some, room_key,
}
use phira_mp_plus.Access.Reason.{Chars, normalize_reason}
use phira_mp_plus.Access.Bans.{
  repair_reasons, Json, set_ban_record, saved, whitelist_key, blacklist_key,
}
use phira_mp_plus.Access.Addresses.{
  IpBanEntry, beq_ip, ban_ip, unban_ip, ban_user_ips, get_ip_ban_list_raw, set_ip_list,
}
use phira_mp_plus.Access.Rooms.{
  RoomBanEntry, room_ban_user, room_unban_user, room_whitelist, whitelist_add_user,
  whitelist_remove_user, clear_room_whitelist, get_room_ban_list_raw, set_blacklist, set_whitelist,
}
use phira_mp_plus.Access.Rooms.Listed.{AreRegistered, get_room_extra-set_room_extra}

-- Only the values of users may differ.
abbrev pub SameButUsers : (s s' : ExtensionDataStore) → Type 0
SameButUsers s s' =
    (s'.fields ≡ s.fields) × (s'.room_data ≡ s.room_data) × (s'.global_data ≡ s.global_data)

-- Only the values of the server may differ.
abbrev pub SameButGlobals : (s s' : ExtensionDataStore) → Type 0
SameButGlobals s s' =
    (s'.fields ≡ s.fields) × (s'.user_data ≡ s.user_data) × (s'.room_data ≡ s.room_data)

-- Only the values of rooms may differ.
abbrev pub SameButRooms : (s s' : ExtensionDataStore) → Type 0
SameButRooms s s' =
    (s'.fields ≡ s.fields) × (s'.user_data ≡ s.user_data) × (s'.global_data ≡ s.global_data)

pub set_ban_record-SameButUsers :
    (u : ℤ) (status reason : Text) (s : ExtensionDataStore)
    → SameButUsers s ((set_ban_record u status reason s).1)
unfolding set_ban_record
set_ban_record-SameButUsers u status reason s = ground arith

pub repair_reasons-SameButUsers :
    (chars : Chars) (s : ExtensionDataStore) → SameButUsers s ((repair_reasons chars s).0)
unfolding repair_reasons
repair_reasons-SameButUsers chars s = (refl, refl, refl)

set_ip_list-SameButGlobals :
    (json : Json (List IpBanEntry)) (persisted : Bool) (o : Option Text) (s : ExtensionDataStore)
    → SameButGlobals s ((set_ip_list json persisted o s).1)
unfolding set_global
set_ip_list-SameButGlobals json persisted none s = (refl, refl, refl)
set_ip_list-SameButGlobals json persisted (some t) s = (refl, refl, refl)

pub ban_ip-SameButGlobals :
    (json : Json (List IpBanEntry)) (chars : Chars) (persisted : Bool) (now : ℕ) (ip : IpAddr)
    (reason : Text) (s : ExtensionDataStore)
    → SameButGlobals s ((ban_ip json chars persisted now ip reason s).1)
unfolding ban_ip
ban_ip-SameButGlobals json chars persisted now ip reason s =
    let entry : IpBanEntry = record {
      ip = ip;
      reason = normalize_reason chars reason;
      banned_at = now;
    } in
    let written = json.to_string (get_ip_ban_list_raw json s ++ entry ∷ []) in
    ground (arith, set_ip_list-SameButGlobals json persisted written s)

pub unban_ip-SameButGlobals :
    (json : Json (List IpBanEntry)) (persisted : Bool) (ip : IpAddr) (s : ExtensionDataStore)
    → SameButGlobals s ((unban_ip json persisted ip s).1)
unfolding unban_ip
unban_ip-SameButGlobals json persisted ip s =
    let stays = λ (e : IpBanEntry). not (beq_ip (e.ip) ip) in
    let written = json.to_string (retain stays (get_ip_ban_list_raw json s)) in
    ground (arith, set_ip_list-SameButGlobals json persisted written s)

pub ban_user_ips-SameButGlobals :
    (json : Json (List IpBanEntry)) (chars : Chars) (parse : Text → Option IpAddr)
    (persisted : ℕ → Bool) (clock : ℕ → ℕ) (reason : Text) (n : ℕ) (rows : List Text)
    (s : ExtensionDataStore)
    → SameButGlobals s ((ban_user_ips json chars parse persisted clock reason n rows s).1)
unfolding ban_user_ips
ban_user_ips-SameButGlobals json chars parse persisted clock reason n [] s = (refl, refl, refl)
ban_user_ips-SameButGlobals json chars parse persisted clock reason n (row ∷ rows) s =
    elim (Option-cases (parse row)) [
      | inl unread ↦ ground (
        arith,
        unread,
        ban_user_ips-SameButGlobals json chars parse persisted clock reason n rows s,
      )
      | inr (found, read) ↦
          let banned = (ban_ip json chars (persisted n) (clock n) found reason s).1 in
          ground (
            arith,
            read,
            ban_ip-SameButGlobals json chars (persisted n) (clock n) found reason s,
            ban_user_ips-SameButGlobals json chars parse persisted clock reason (n + 1) rows banned,
          )
    ]

set_room_extra-SameButRooms :
    (room key value : Text) (s : ExtensionDataStore)
    → SameButRooms s ((set_room_extra room key value s).1)
unfolding set_room_extra
set_room_extra-SameButRooms room key value s = ground arith

pub saved_store :
    (persisted : Bool) (x : Result StoreError (Unit {0}) × ExtensionDataStore)
    → (saved persisted x).1 ≡ x.1
saved_store persisted (err e, s) = refl
saved_store persisted (ok u, s) = refl

-- A list of rooms may differ, but not what they have under the name of another one.
abbrev pub SameOtherList : (other_key room : Text) (s s' : ExtensionDataStore) → Type 0
SameOtherList other_key room s s' =
    SameButRooms s s' × (get_room_extra room other_key s' ≡ get_room_extra room other_key s)

set_room_extra-SameOtherList :
    (persisted : Bool) (room other key other_key value : Text) (s : ExtensionDataStore)
    → beq_text key other_key ≡ false
    → is_some (get (room_key key) (s.fields)) ≡ true
    → SameOtherList other_key other s ((saved persisted (set_room_extra room key value s)).1)
set_room_extra-SameOtherList persisted room other key other_key value s n h =
    rw (saved_store persisted (set_room_extra room key value s)) (
      set_room_extra-SameButRooms room key value s,
      ground (arith, get_room_extra-set_room_extra room other key other_key value s h, n),
    )

module _ (persisted : Bool) (room other : Text) (s : ExtensionDataStore) (h : AreRegistered s) where
  set_blacklist-SameOtherList :
      (json : Json (List RoomBanEntry)) (o : Option Text)
      → SameOtherList whitelist_key other s ((set_blacklist json persisted room o s).1)
  set_blacklist-SameOtherList json none = ((refl, refl, refl), refl)
  set_blacklist-SameOtherList json (some t) =
      set_room_extra-SameOtherList persisted room other blacklist_key whitelist_key t s refl h.0

  set_whitelist-SameOtherList :
      (json : Json (List ℤ)) (o : Option Text)
      → SameOtherList blacklist_key other s ((set_whitelist json persisted room o s).1)
  set_whitelist-SameOtherList json none = ((refl, refl, refl), refl)
  set_whitelist-SameOtherList json (some t) =
      set_room_extra-SameOtherList persisted room other whitelist_key blacklist_key t s refl h.1

  pub room_ban_user-SameOtherList :
      (json : Json (List RoomBanEntry)) (chars : Chars) (now : ℕ) (u : ℤ) (given : Text)
      → SameOtherList whitelist_key other s
          ((room_ban_user json chars persisted now room u given s).1)
  unfolding room_ban_user
  room_ban_user-SameOtherList json chars now u given = set_blacklist-SameOtherList json _

  pub room_unban_user-SameOtherList :
      (json : Json (List RoomBanEntry)) (u : ℤ)
      → SameOtherList whitelist_key other s ((room_unban_user json persisted room u s).1)
  unfolding room_unban_user
  room_unban_user-SameOtherList json u =
      let stays = λ (e : RoomBanEntry). not (beq_ℤ (e.user_id) u) in
      let written = json.to_string (retain stays (get_room_ban_list_raw json room s)) in
      ground (arith, set_blacklist-SameOtherList json written)

  pub whitelist_add_user-SameOtherList :
      (json : Json (List ℤ)) (u : ℤ)
      → SameOtherList blacklist_key other s ((whitelist_add_user json persisted room u s).1)
  unfolding whitelist_add_user
  whitelist_add_user-SameOtherList json u =
      let written = json.to_string (room_whitelist json room s ++ u ∷ []) in
      ground (arith, set_whitelist-SameOtherList json written)

  pub whitelist_remove_user-SameOtherList :
      (json : Json (List ℤ)) (u : ℤ)
      → SameOtherList blacklist_key other s ((whitelist_remove_user json persisted room u s).1)
  unfolding whitelist_remove_user
  whitelist_remove_user-SameOtherList json u =
      let stays = λ (id : ℤ). not (beq_ℤ id u) in
      let written = json.to_string (retain stays (room_whitelist json room s)) in
      ground (arith, set_whitelist-SameOtherList json written)

  pub clear_room_whitelist-SameOtherList :
      (json : Json (List ℤ))
      → SameOtherList blacklist_key other s ((clear_room_whitelist json persisted room s).1)
  unfolding clear_room_whitelist
  clear_room_whitelist-SameOtherList json =
      set_room_extra-SameOtherList persisted room other whitelist_key blacklist_key
        (b'[' ∷ b']' ∷ []) s refl h.1
