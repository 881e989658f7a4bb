-- ===== src/Access/Addresses.antt =====
-- phira-mp-plus-server/src/ban.rs: the bans of addresses. Whether a call saves the store is an argument of it,
-- and times are in milliseconds.
pub mod Listed
use phira_mp_plus.Common.{
  ℕ, ◌+◌, ℤ, beq_ℤ, List, [], ◌∷◌, ◌++◌, Bool, true, false, not, ◌||◌, ◌&&◌, Option, none, some,
  if◌then◌else◌, Result, ok, err, retain, length, ◌==◌, int_eq,
}
use phira_mp_plus.Common.Maps.{get, put}
use phira_mp_plus.Wire.Text.{Text, beq_text, text_eq}
use phira_mp_plus.Net.Proxy.{IpAddr, v4, v6}
use phira_mp_plus.Access.Store.{
  ExtensionDataStore, StoreError, get_room_extra, set_room_extra, get_global, set_global, is_some,
  or_default, register_user_field, register_room_field, not_registered,
}
use phira_mp_plus.Access.Reason.{Chars, default_ban_reason, normalize_reason, is_empty}
use phira_mp_plus.Access.Bans.{
  Json, BanError, already_listed, not_listed, not_serialized, not_persisted, refused_by_store,
  saved, parsed, blacklist_key, whitelist_key,
}

pub record IpBanEntry : Type 0 where
  pub ip : IpAddr
  pub reason : Text
  pub banned_at : ℕ

-- `IP_BAN_KEY`, "ip-ban-list"
abbrev pub ip_ban_key : Text
ip_ban_key = b'i' ∷ b'p' ∷ b'-' ∷ b'b' ∷ b'a' ∷ b'n' ∷ b'-' ∷ b'l' ∷ b'i' ∷ b's' ∷ b't' ∷ []

-- `IpAddr`'s equality.
abbrev pub beq_ip : IpAddr → IpAddr → Bool
beq_ip (v4 a) (v4 b) = a == b
beq_ip (v6 a) (v6 b) = a == b
beq_ip _ _ = false

unfoldable pub any_ip : IpAddr → List IpBanEntry → Bool
any_ip ip [] = false
any_ip ip (e ∷ es) = beq_ip (e.ip) ip || any_ip ip es

module _ (json : Json (List IpBanEntry)) where
  unfoldable pub get_ip_ban_list_raw : ExtensionDataStore → List IpBanEntry
  get_ip_ban_list_raw s = parsed json (get_global ip_ban_key s)

  -- `set_global` of the list, if it can be written.
  abbrev pub set_ip_list :
      Bool → Option Text → ExtensionDataStore → Result BanError (Unit {0}) × ExtensionDataStore
  set_ip_list persisted none s = (err not_serialized, s)
  set_ip_list persisted (some t) s = saved persisted (set_global ip_ban_key t s)

  unfoldable pub ban_ip :
      Chars
      → Bool
      → ℕ
      → IpAddr
      → Text
      → ExtensionDataStore
      → Result BanError (Unit {0}) × ExtensionDataStore
  ban_ip chars persisted now ip reason s =
      let list = get_ip_ban_list_raw s in
      let entry : IpBanEntry = record {
        ip = ip;
        reason = normalize_reason chars reason;
        banned_at = now;
      } in
      if any_ip ip list
      then (err already_listed, s)
      else set_ip_list persisted (json.to_string (list ++ entry ∷ [])) s

  unfoldable pub unban_ip :
      Bool → IpAddr → ExtensionDataStore → Result BanError (Unit {0}) × ExtensionDataStore
  unban_ip persisted ip s =
      let list = get_ip_ban_list_raw s in
      let kept = retain (λ (e : IpBanEntry). not (beq_ip (e.ip) ip)) list in
      if length kept == length list
      then (err not_listed, s)
      else set_ip_list persisted (json.to_string kept) s

  unfoldable pub is_ip_banned : IpAddr → ExtensionDataStore → Bool
  is_ip_banned ip s = any_ip ip (get_ip_ban_list_raw s)

  abbrev pub is_ok : {A : Type 0} → Result BanError A → Bool
  is_ok (ok a) = true
  is_ok (err e) = false

  -- The loop of `ban_user_ips`: how many of the addresses are banned; `n` numbers the calls.
  unfoldable pub ban_user_ips :
      Chars
      → (Text → Option IpAddr)
      → (ℕ → Bool)
      → (ℕ → ℕ)
      → Text
      → ℕ
      → List Text
      → ExtensionDataStore
      → ℕ × ExtensionDataStore
  ban_user_ips chars parse persisted clock reason n [] s = (0, s)
  ban_user_ips chars parse persisted clock reason n (row ∷ rows) s = elim (parse row) [
    | none ↦ ban_user_ips chars parse persisted clock reason n rows s
    | some ip ↦
        let banned = ban_ip chars (persisted n) (clock n) ip reason s in
        let rest = ban_user_ips chars parse persisted clock reason (n + 1) rows banned.1 in
        (if is_ok banned.0 then 1 + rest.0 else rest.0, rest.1)
  ]

-- Whether one of the rows is the address.
abbrev pub parses_to : (Text → Option IpAddr) → IpAddr → List Text → Bool
parses_to parse ip [] = false
parses_to parse ip (row ∷ rows) =
    elim (parse row) [ none ↦ false | some found ↦ beq_ip found ip ] || parses_to parse ip rows
