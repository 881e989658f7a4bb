-- ===== src/Access/Bans.antt =====
-- phira-mp-plus-server/src/ban.rs: `BanManager`, with the bans of users. serde_json is a `Json` for each type that it writes; whether the store is saved is an
-- argument of each call, and the time of a ban is in milliseconds.
pub mod Users
use phira_mp_plus.Common.{
  ℕ, ◌+◌, ℤ, beq_ℤ, List, [], ◌∷◌, ◌++◌, Bool, true, false, not, ◌||◌, ◌&&◌, Option, none, some,
  if◌then◌else◌, Result, ok, err, retain, length, ◌==◌, int_eq, ◌≡◌,
}
use phira_mp_plus.Common.Maps.{get, put}
use phira_mp_plus.Wire.Text.{Text, beq_text, text_eq}
use phira_mp_plus.Net.Proxy.{IpAddr, v4, v6}
use phira_mp_plus.Access.Store.{
  ExtensionDataStore, StoreError, get_room_extra, set_room_extra, get_global, set_global, is_some,
  or_default, register_user_field, register_room_field, not_registered,
}
use phira_mp_plus.Access.Reason.{Chars, default_ban_reason, normalize_reason, is_empty}

-- `serde_json::to_string` and `serde_json::from_str`; `none` stands for an error.
pub record Json (A : Type 0) : Type 0 where
  pub to_string : A → Option Text
  pub from_str : Text → Option A

-- The errors of the calls; the entry is in the list already, or is not in it.
pub data BanError : Type 0 where
  already_listed not_listed not_serialized not_persisted : BanError
  refused_by_store : StoreError → BanError

-- `BAN_STATUS_KEY`, "ban-status"
abbrev pub ban_status_key : Text
ban_status_key = b'b' ∷ b'a' ∷ b'n' ∷ b'-' ∷ b's' ∷ b't' ∷ b'a' ∷ b't' ∷ b'u' ∷ b's' ∷ []

-- `BAN_REASON_KEY`, "ban-reason"
abbrev pub ban_reason_key : Text
ban_reason_key = b'b' ∷ b'a' ∷ b'n' ∷ b'-' ∷ b'r' ∷ b'e' ∷ b'a' ∷ b's' ∷ b'o' ∷ b'n' ∷ []

-- `BANNED_STATUS`, "banned"
abbrev pub banned_status : Text
banned_status = b'b' ∷ b'a' ∷ b'n' ∷ b'n' ∷ b'e' ∷ b'd' ∷ []

abbrev pub blacklist_key : Text
blacklist_key = b'b' ∷ b'l' ∷ b'a' ∷ b'c' ∷ b'k' ∷ b'l' ∷ b'i' ∷ b's' ∷ b't' ∷ []

abbrev pub whitelist_key : Text
whitelist_key = b'w' ∷ b'h' ∷ b'i' ∷ b't' ∷ b'e' ∷ b'l' ∷ b'i' ∷ b's' ∷ b't' ∷ []

-- The documented behaviour of serde_json on a type whose values it can write: what is written is read back.
pub record IsJson {A : Type 0} (json : Json A) : Type 0 where
  pub written : (a : A) → (t : Text) × (json.to_string a ≡ some t) × (json.from_str t ≡ some a)

-- The end of a call: the answer of the store, and then of `persist`.
abbrev pub saved :
    Bool
    → Result StoreError (Unit {0}) × ExtensionDataStore
    → Result BanError (Unit {0}) × ExtensionDataStore
saved persisted (err e, s) = (err (refused_by_store e), s)
saved persisted (ok u, s) = (if persisted then ok tt else err not_persisted, s)

-- What `and_then(from_str)` and `unwrap_or_default` make of a stored text.
abbrev pub parsed : {A : Type 0} → Json (List A) → Option Text → List A
parsed json none = []
parsed json (some t) = elim (json.from_str t) [ none ↦ [] | some list ↦ list ]

unfoldable pub set_ban_record :
    ℤ
    → (status reason : Text) → ExtensionDataStore
    → Result StoreError (Unit {0}) × ExtensionDataStore
set_ban_record user_id status reason s =
    if not (is_some (get ban_status_key (s.fields)))
    then (err (not_registered ban_status_key), s)
    else if not (is_some (get ban_reason_key (s.fields)))
    then (err (not_registered ban_reason_key), s)
    else (
      ok tt,
      record s {
        user_data =
            put user_id
              (put ban_status_key status
                (put ban_reason_key reason (or_default (get user_id (s.user_data)))))
              (s.user_data);
      },
    )

-- The value of a key, or the empty text.
abbrev pub unwrap_or_default : Option Text → Text
unwrap_or_default none = []
unwrap_or_default (some t) = t

-- The test for `BANNED_STATUS`.
abbrev pub is_banned_status : Option Text → Bool
is_banned_status none = false
is_banned_status (some t) = beq_text t banned_status

module _ (chars : Chars) where
  unfoldable pub ban_user :
      Bool → ℤ → Text → ExtensionDataStore → Result BanError (Unit {0}) × ExtensionDataStore
  ban_user persisted user_id reason s =
      saved persisted (set_ban_record user_id banned_status (normalize_reason chars reason) s)

  unfoldable pub reason_of : Option (List (Text × Text)) → Option Text
  reason_of none = none
  reason_of (some values) =
      if is_banned_status (get ban_status_key values)
      then some (normalize_reason chars (unwrap_or_default (get ban_reason_key values)))
      else none

  unfoldable pub ban_reason : ℤ → ExtensionDataStore → Option Text
  ban_reason user_id s = reason_of (get user_id (s.user_data))

  unfoldable pub is_banned : ℤ → ExtensionDataStore → Bool
  is_banned user_id s = is_some (ban_reason user_id s)

  unfoldable pub get_ban_reason : ℤ → ExtensionDataStore → Text
  get_ban_reason user_id s = elim (ban_reason user_id s) [ none ↦ default_ban_reason | some t ↦ t ]

  -- The body of the loop of `repair_reasons`, with whether it repairs.
  unfoldable pub repair_values : List (Text × Text) → List (Text × Text) × Bool
  repair_values values =
      let reason = normalize_reason chars (unwrap_or_default (get ban_reason_key values)) in
      if not (is_banned_status (get ban_status_key values))
      then (values, false)
      else elim (get ban_reason_key values) [
        | none ↦ (put ban_reason_key reason values, true)
        | some t ↦
            if beq_text t reason then (values, false) else (put ban_reason_key reason values, true)
      ]

  unfoldable pub repair_all : List (ℤ × List (Text × Text)) → List (ℤ × List (Text × Text)) × ℕ
  repair_all [] = ([], 0)
  repair_all ((u, values) ∷ m) =
      let one = repair_values values in
      let rest = repair_all m in ((u, one.0) ∷ rest.0, if one.1 then 1 + rest.1 else rest.1)

  -- `repair_reasons`: the store, and how many reasons are repaired.
  unfoldable pub repair_reasons : ExtensionDataStore → ExtensionDataStore × ℕ
  repair_reasons s =
      let repaired = repair_all (s.user_data) in (record s { user_data = repaired.0 }, repaired.1)

-- `register_fields`, whose descriptions and plugin are arguments; whether a field is there already is not asked.
unfoldable pub register_fields :
    (chars : Chars) (user_description reason_description blacklist_description : Text)
    (whitelist_description by : Text)
    → ExtensionDataStore
    → ExtensionDataStore
register_fields chars d1 d2 d3 d4 by s0 =
    let s1 = (register_user_field ban_status_key [] by d1 s0).1 in
    let s2 = (register_user_field ban_reason_key [] by d2 s1).1 in
    let s3 = (register_room_field blacklist_key (b'[' ∷ b']' ∷ []) by d3 s2).1 in
    let s4 = (register_room_field whitelist_key (b'[' ∷ b']' ∷ []) by d4 s3).1 in
    (repair_reasons chars s4).0

unfoldable pub unban_user :
    Bool → ℤ → ExtensionDataStore → Result BanError (Unit {0}) × ExtensionDataStore
unban_user persisted user_id s = saved persisted (set_ban_record user_id [] [] s)
