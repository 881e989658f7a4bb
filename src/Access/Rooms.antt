-- ===== src/Access/Rooms.antt =====
-- phira-mp-plus-server/src/ban.rs: the users whom a room bans, and those whom it lets in.
pub mod Listed
use phira_mp_plus.Common.{
  ℕ, ◌+◌, ℤ, beq_ℤ, List, [], ◌∷◌, ◌++◌, Bool, true, false, not, ◌||◌, ◌&&◌, Option, none, some,
  if◌then◌else◌, Result, ok, err, retain, length, ◌==◌, int_eq,
}
use phira_mp_plus.Common.Maps.{get, put}
use phira_mp_plus.Wire.Text.{Text, beq_text, text_eq}
use phira_mp_plus.Net.Proxy.{IpAddr, v4, v6}
use phira_mp_plus.Access.Store.{
  ExtensionDataStore, StoreError, get_room_extra, set_room_extra, get_global, set_global, is_some,
  or_default, register_user_field, register_room_field, not_registered,
}
use phira_mp_plus.Access.Reason.{Chars, default_ban_reason, normalize_reason, is_empty}
use phira_mp_plus.Access.Bans.{
  Json, BanError, already_listed, not_listed, not_serialized, not_persisted, refused_by_store,
  saved, parsed, blacklist_key, whitelist_key,
}

pub record RoomBanEntry : Type 0 where
  pub user_id : ℤ
  pub reason : Text
  pub banned_at : ℕ

-- The default reason of a room's ban.
abbrev pub default_room_reason : Text
default_room_reason = 0x8fdd ∷ 0x89c4 ∷ 0x884c ∷ 0x4e3a ∷ []

unfoldable pub any_user : ℤ → List RoomBanEntry → Bool
any_user user_id [] = false
any_user user_id (e ∷ es) = beq_ℤ (e.user_id) user_id || any_user user_id es

unfoldable pub contains : ℤ → List ℤ → Bool
contains user_id [] = false
contains user_id (u ∷ us) = beq_ℤ u user_id || contains user_id us

module _ (json : Json (List RoomBanEntry)) where
  unfoldable pub get_room_ban_list_raw : Text → ExtensionDataStore → List RoomBanEntry
  get_room_ban_list_raw room_uuid s = parsed json (get_room_extra room_uuid blacklist_key s)

  -- The first entry of the user with a new reason and time.
  unfoldable pub update_entry : ℤ → Text → ℕ → List RoomBanEntry → List RoomBanEntry
  update_entry user_id reason now [] = []
  update_entry user_id reason now (e ∷ es) =
      let rest = update_entry user_id reason now es in
      if beq_ℤ (e.user_id) user_id
      then record e { reason = reason; banned_at = now } ∷ es
      else e ∷ rest

  abbrev pub set_blacklist :
      Bool
      → Text
      → Option Text
      → ExtensionDataStore
      → Result BanError (Unit {0}) × ExtensionDataStore
  set_blacklist persisted room_uuid none s = (err not_serialized, s)
  set_blacklist persisted room_uuid (some t) s =
      saved persisted (set_room_extra room_uuid blacklist_key t s)

  unfoldable pub room_ban_user :
      Chars
      → Bool
      → ℕ
      → Text
      → ℤ
      → Text
      → ExtensionDataStore
      → Result BanError (Unit {0}) × ExtensionDataStore
  room_ban_user chars persisted now room_uuid user_id given s =
      let reason = if is_empty given then default_room_reason else normalize_reason chars given in
      let list = get_room_ban_list_raw room_uuid s in
      let entry : RoomBanEntry = record { user_id = user_id; reason = reason; banned_at = now } in
      set_blacklist persisted room_uuid
        (json.to_string (
          if any_user user_id list
          then update_entry user_id reason now list
          else list ++ entry ∷ []))
        s

  unfoldable pub room_unban_user :
      Bool → Text → ℤ → ExtensionDataStore → Result BanError (Unit {0}) × ExtensionDataStore
  room_unban_user persisted room_uuid user_id s =
      let list = get_room_ban_list_raw room_uuid s in
      let kept = retain (λ (e : RoomBanEntry). not (beq_ℤ (e.user_id) user_id)) list in
      if length kept == length list
      then (err not_listed, s)
      else set_blacklist persisted room_uuid (json.to_string kept) s

  unfoldable pub is_room_banned : Text → ℤ → ExtensionDataStore → Bool
  is_room_banned room_uuid user_id s = any_user user_id (get_room_ban_list_raw room_uuid s)

module _ (json : Json (List ℤ)) where
  unfoldable pub room_whitelist : Text → ExtensionDataStore → List ℤ
  room_whitelist room_uuid s = parsed json (get_room_extra room_uuid whitelist_key s)

  abbrev pub set_whitelist :
      Bool
      → Text
      → Option Text
      → ExtensionDataStore
      → Result BanError (Unit {0}) × ExtensionDataStore
  set_whitelist persisted room_uuid none s = (err not_serialized, s)
  set_whitelist persisted room_uuid (some t) s =
      saved persisted (set_room_extra room_uuid whitelist_key t s)

  unfoldable pub whitelist_add_user :
      Bool → Text → ℤ → ExtensionDataStore → Result BanError (Unit {0}) × ExtensionDataStore
  whitelist_add_user persisted room_uuid user_id s =
      let list = room_whitelist room_uuid s in
      if contains user_id list
      then (err already_listed, s)
      else set_whitelist persisted room_uuid (json.to_string (list ++ user_id ∷ [])) s

  unfoldable pub whitelist_remove_user :
      Bool → Text → ℤ → ExtensionDataStore → Result BanError (Unit {0}) × ExtensionDataStore
  whitelist_remove_user persisted room_uuid user_id s =
      let list = room_whitelist room_uuid s in
      let kept = retain (λ id. not (beq_ℤ id user_id)) list in
      if length kept == length list
      then (err not_listed, s)
      else set_whitelist persisted room_uuid (json.to_string kept) s

  unfoldable pub clear_room_whitelist :
      Bool → Text → ExtensionDataStore → Result BanError (Unit {0}) × ExtensionDataStore
  clear_room_whitelist persisted room_uuid s =
      saved persisted (set_room_extra room_uuid whitelist_key (b'[' ∷ b']' ∷ []) s)

  abbrev pub is_nil : List ℤ → Bool
  is_nil [] = true
  is_nil (u ∷ us) = false

  unfoldable pub is_room_whitelisted : Text → ℤ → ExtensionDataStore → Bool
  is_room_whitelisted room_uuid user_id s =
      is_nil (room_whitelist room_uuid s) || contains user_id (room_whitelist room_uuid s)
