-- ===== src/Access/Rooms/Listed.antt =====
-- phira-mp-plus-server/src/ban.rs: the lists of a room after a call.
use phira_mp_plus.Common.{
  ℕ, ℤ, beq_ℤ, beq_ℤ_iff, List, [], ◌∷◌, ◌++◌, Bool, true, not, ◌||◌, ◌&&◌, Option, none, some,
  if◌then◌else◌, retain, length, retain-same, ◌≡◌, refl, arith, ==_iff,
}
use phira_mp_plus.Common.Maps.{get, put, get-put}
use phira_mp_plus.Wire.Text.{Text, text_eq, beq_text, beq_text_iff}
use phira_mp_plus.Access.Store.{
  ExtensionDataStore, get_room_extra, set_room_extra, is_some, room_key, or_default, within_entry,
}
use phira_mp_plus.Access.Reason.{Chars, normalize_reason, is_empty}
use phira_mp_plus.Access.Bans.{Json, IsJson, blacklist_key, whitelist_key}
use phira_mp_plus.Access.Rooms.{
  RoomBanEntry, default_room_reason, any_user, contains, get_room_ban_list_raw, update_entry,
  set_blacklist, room_ban_user, room_unban_user, is_room_banned, room_whitelist, set_whitelist,
  whitelist_add_user, whitelist_remove_user, clear_room_whitelist,
}

-- The two lists of a room are registered.
abbrev pub AreRegistered : ExtensionDataStore → Type 0
AreRegistered s =
    (is_some (get (room_key blacklist_key) (s.fields)) ≡ true)
    × (is_some (get (room_key whitelist_key) (s.fields)) ≡ true)

within_entry-or_default :
    (key : Text) (o : Option (List (Text × Text))) → within_entry key o ≡ get key (or_default o)
unfolding get
within_entry-or_default key none = refl
within_entry-or_default key (some values) = refl

-- The value of a room that has been set under a registered name.
pub get_room_extra-set_room_extra :
    (room other key key' value : Text) (s : ExtensionDataStore)
    → is_some (get (room_key key) (s.fields)) ≡ true
    → get_room_extra other key' ((set_room_extra room key value s).1) ≡ (
        if beq_text room other && beq_text key key'
        then some value
        else get_room_extra other key' s)
unfolding get_room_extra set_room_extra
get_room_extra-set_room_extra room other key key' value s h =
    let values = or_default (get room (s.room_data)) in
    ground (
      arith,
      get-put other room (put key value values) (s.room_data),
      get-put key' key value values,
      within_entry-or_default key' (get room (s.room_data)),
      beq_text_iff room other,
    )

any_user-append :
    (u : ℤ) (xs ys : List RoomBanEntry) → any_user u (xs ++ ys) ≡ (any_user u xs || any_user u ys)
unfolding any_user
any_user-append u [] ys = refl
any_user-append u (x ∷ xs) ys = ground (arith, any_user-append u xs ys)

any_user-retain :
    (other u : ℤ) (xs : List RoomBanEntry)
    → any_user other (retain (λ (e : RoomBanEntry). not (beq_ℤ (e.user_id) u)) xs)
      ≡ (not (beq_ℤ u other) && any_user other xs)
unfolding any_user
any_user-retain other u [] = ground arith
any_user-retain other u (x ∷ xs) = ground (
  arith,
  beq_ℤ_iff (x.user_id) u,
  beq_ℤ_iff (x.user_id) other,
  beq_ℤ_iff u other,
  any_user-retain other u xs,
)

module _ (json : Json (List RoomBanEntry)) where
  any_user-update_entry :
      (other u : ℤ) (reason : Text) (now : ℕ) (xs : List RoomBanEntry)
      → any_user other (update_entry json u reason now xs) ≡ any_user other xs
  unfolding any_user update_entry
  any_user-update_entry other u reason now [] = refl
  any_user-update_entry other u reason now (x ∷ xs) =
      ground (arith, any_user-update_entry other u reason now xs)

  pub set_blacklist-raw :
      (persisted : Bool) (room other : Text) (list : List RoomBanEntry) (s : ExtensionDataStore)
      → IsJson json
      → AreRegistered s
      → get_room_ban_list_raw json other
          ((set_blacklist json persisted room (json.to_string list) s).1)
        ≡ (if beq_text room other then list else get_room_ban_list_raw json other s)
  unfolding get_room_ban_list_raw
  set_blacklist-raw persisted room other list s j h =
      let (t, w, r) = j.written list in
      ground (arith, get_room_extra-set_room_extra room other blacklist_key blacklist_key t s h.0)

  -- A ban from a room holds for that user in that room, and changes no other.
  pub room_ban_user-is_room_banned :
      (chars : Chars) (persisted : Bool) (now : ℕ) (room other : Text) (u v : ℤ) (given : Text)
      (s : ExtensionDataStore)
      → IsJson json
      → AreRegistered s
      → is_room_banned json other v ((room_ban_user json chars persisted now room u given s).1)
        ≡ ((beq_text room other && beq_ℤ u v) || is_room_banned json other v s)
  unfolding room_ban_user is_room_banned any_user
  room_ban_user-is_room_banned chars persisted now room other u v given s j h =
      let list = get_room_ban_list_raw json room s in
      let reason = if is_empty given then default_room_reason else normalize_reason chars given in
      let entry : RoomBanEntry = record { user_id = u; reason = reason; banned_at = now } in
      ground (
        arith,
        any_user-append v list (entry ∷ []),
        any_user-update_entry v u reason now list,
        set_blacklist-raw persisted room other (update_entry json u reason now list) s j h,
        set_blacklist-raw persisted room other (list ++ entry ∷ []) s j h,
        beq_ℤ_iff u v,
        beq_text_iff room other,
      )

  pub room_unban_user-is_room_banned :
      (persisted : Bool) (room other : Text) (u v : ℤ) (s : ExtensionDataStore)
      → IsJson json
      → AreRegistered s
      → is_room_banned json other v ((room_unban_user json persisted room u s).1)
        ≡ (not (beq_text room other && beq_ℤ u v) && is_room_banned json other v s)
  unfolding room_unban_user is_room_banned
  room_unban_user-is_room_banned persisted room other u v s j h =
      let list = get_room_ban_list_raw json room s in
      let stays = λ (e : RoomBanEntry). not (beq_ℤ (e.user_id) u) in
      ground (
        arith,
        any_user-retain v u list,
        retain-same stays list,
        ==_iff (length (retain stays list)) (length list),
        set_blacklist-raw persisted room other (retain stays list) s j h,
        beq_text_iff room other,
      )

module _ (json : Json (List ℤ)) where
  set_whitelist-raw :
      (persisted : Bool) (room other : Text) (list : List ℤ) (s : ExtensionDataStore)
      → IsJson json
      → AreRegistered s
      → room_whitelist json other ((set_whitelist json persisted room (json.to_string list) s).1)
        ≡ (if beq_text room other then list else room_whitelist json other s)
  unfolding room_whitelist
  set_whitelist-raw persisted room other list s j h =
      let (t, w, r) = j.written list in
      ground (arith, get_room_extra-set_room_extra room other whitelist_key whitelist_key t s h.1)

  pub whitelist_add_user-room_whitelist :
      (persisted : Bool) (room other : Text) (u : ℤ) (s : ExtensionDataStore)
      → IsJson json
      → AreRegistered s
      → room_whitelist json other ((whitelist_add_user json persisted room u s).1) ≡ (
          if beq_text room other && not (contains u (room_whitelist json room s))
          then room_whitelist json room s ++ u ∷ []
          else room_whitelist json other s)
  unfolding whitelist_add_user
  whitelist_add_user-room_whitelist persisted room other u s j h =
      ground
        (arith, set_whitelist-raw persisted room other (room_whitelist json room s ++ u ∷ []) s j h)

  pub whitelist_remove_user-room_whitelist :
      (persisted : Bool) (room other : Text) (u : ℤ) (s : ExtensionDataStore)
      → IsJson json
      → AreRegistered s
      → room_whitelist json other ((whitelist_remove_user json persisted room u s).1) ≡ (
          if beq_text room other
          then retain (λ id. not (beq_ℤ id u)) (room_whitelist json room s)
          else room_whitelist json other s)
  unfolding whitelist_remove_user
  whitelist_remove_user-room_whitelist persisted room other u s j h =
      let list = room_whitelist json room s in
      let stays = λ (id : ℤ). not (beq_ℤ id u) in
      ground (
        arith,
        retain-same stays list,
        ==_iff (length (retain stays list)) (length list),
        set_whitelist-raw persisted room other (retain stays list) s j h,
        beq_text_iff room other,
      )

  pub clear_room_whitelist-room_whitelist :
      (persisted : Bool) (room other : Text) (s : ExtensionDataStore)
      → json.from_str (b'[' ∷ b']' ∷ []) ≡ some []
      → AreRegistered s
      → room_whitelist json other ((clear_room_whitelist json persisted room s).1)
        ≡ (if beq_text room other then [] else room_whitelist json other s)
  unfolding clear_room_whitelist room_whitelist
  clear_room_whitelist-room_whitelist persisted room other s e h = ground (
    arith,
    get_room_extra-set_room_extra room other whitelist_key whitelist_key (b'[' ∷ b']' ∷ []) s h.1,
  )
