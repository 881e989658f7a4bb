-- ===== src/Access/Addresses/Listed.antt =====
-- phira-mp-plus-server/src/ban.rs: the list of banned addresses after a call.
use phira_mp_plus.Common.{
  Option, Option-cases, inl, inr, ◌+◌, ℕ, List, [], ◌∷◌, ◌++◌, Bool, true, not, ◌||◌, ◌&&◌, retain,
  length, retain-same, ◌≡◌, ◌↔◌, refl, arith, ==_iff,
}
use phira_mp_plus.Common.Maps.{get-put}
use phira_mp_plus.Wire.Text.{Text, text_eq}
use phira_mp_plus.Net.Proxy.{IpAddr}
use phira_mp_plus.Access.Store.{ExtensionDataStore, get_global, set_global}
use phira_mp_plus.Access.Reason.{Chars, normalize_reason}
use phira_mp_plus.Access.Bans.{Json, IsJson}
use phira_mp_plus.Access.Addresses.{
  IpBanEntry, beq_ip, any_ip, get_ip_ban_list_raw, set_ip_list, ban_ip, unban_ip, ban_user_ips,
  parses_to, is_ip_banned, ip_ban_key,
}

beq_ip_iff : (a b : IpAddr) → (beq_ip a b ≡ true) ↔ (a ≡ b)
beq_ip_iff a b = ground arith

any_ip-append :
    (ip : IpAddr) (xs ys : List IpBanEntry) → any_ip ip (xs ++ ys) ≡ (any_ip ip xs || any_ip ip ys)
unfolding any_ip
any_ip-append ip [] ys = refl
any_ip-append ip (x ∷ xs) ys = ground (arith, any_ip-append ip xs ys)

any_ip-retain :
    (other ip : IpAddr) (xs : List IpBanEntry)
    → any_ip other (retain (λ (e : IpBanEntry). not (beq_ip (e.ip) ip)) xs)
      ≡ (not (beq_ip ip other) && any_ip other xs)
unfolding any_ip
any_ip-retain other ip [] = ground arith
any_ip-retain other ip (x ∷ xs) = ground (
  arith,
  beq_ip_iff (x.ip) ip,
  beq_ip_iff (x.ip) other,
  beq_ip_iff ip other,
  any_ip-retain other ip xs,
)

module _ (json : Json (List IpBanEntry)) where
  set_ip_list-raw :
      (persisted : Bool) (list : List IpBanEntry) (s : ExtensionDataStore)
      → IsJson json
      → get_ip_ban_list_raw json ((set_ip_list json persisted (json.to_string list) s).1) ≡ list
  unfolding get_ip_ban_list_raw set_global get_global
  set_ip_list-raw persisted list s j =
      let (t, w, r) = j.written list in
      ground (arith, get-put ip_ban_key ip_ban_key t (s.global_data))

  -- Whoever bans an address bans that one and no other.
  pub ban_ip-is_ip_banned :
      (chars : Chars) (persisted : Bool) (now : ℕ) (ip other : IpAddr) (reason : Text)
      (s : ExtensionDataStore)
      → IsJson json
      → is_ip_banned json other ((ban_ip json chars persisted now ip reason s).1)
        ≡ (beq_ip ip other || is_ip_banned json other s)
  unfolding ban_ip is_ip_banned any_ip
  ban_ip-is_ip_banned chars persisted now ip other reason s j =
      let list = get_ip_ban_list_raw json s in
      let entry : IpBanEntry = record {
        ip = ip;
        reason = normalize_reason chars reason;
        banned_at = now;
      } in
      ground (
        arith,
        any_ip-append other list (entry ∷ []),
        set_ip_list-raw persisted (list ++ entry ∷ []) s j,
        beq_ip_iff ip other,
      )

  pub unban_ip-is_ip_banned :
      (persisted : Bool) (ip other : IpAddr) (s : ExtensionDataStore)
      → IsJson json
      → is_ip_banned json other ((unban_ip json persisted ip s).1)
        ≡ (not (beq_ip ip other) && is_ip_banned json other s)
  unfolding unban_ip is_ip_banned
  unban_ip-is_ip_banned persisted ip other s j =
      let list = get_ip_ban_list_raw json s in
      let kept = retain (λ (e : IpBanEntry). not (beq_ip (e.ip) ip)) list in
      ground (
        arith,
        any_ip-retain other ip list,
        retain-same (λ (e : IpBanEntry). not (beq_ip (e.ip) ip)) list,
        ==_iff (length kept) (length list),
        set_ip_list-raw persisted kept s j,
      )

  -- Whoever bans the addresses of a user bans, besides those that were banned before, exactly those that
  -- parse, whether or not the store can be saved.
  pub ban_user_ips-is_ip_banned :
      (chars : Chars) (parse : Text → Option IpAddr) (persisted : ℕ → Bool) (clock : ℕ → ℕ)
      (reason : Text) (n : ℕ) (rows : List Text) (ip : IpAddr) (s : ExtensionDataStore)
      → IsJson json
      → is_ip_banned json ip ((ban_user_ips json chars parse persisted clock reason n rows s).1)
        ≡ (is_ip_banned json ip s || parses_to parse ip rows)
  unfolding ban_user_ips
  ban_user_ips-is_ip_banned chars parse persisted clock reason n [] ip s j = ground arith
  ban_user_ips-is_ip_banned chars parse persisted clock reason n (row ∷ rows) ip s j =
      elim (Option-cases (parse row)) [
        | inl unread ↦ ground (
          arith,
          unread,
          ban_user_ips-is_ip_banned chars parse persisted clock reason n rows ip s j,
        )
        | inr (found, read) ↦
            let banned = (ban_ip json chars (persisted n) (clock n) found reason s).1 in
            ground (
              arith,
              read,
              ban_ip-is_ip_banned chars (persisted n) (clock n) found ip reason s j,
              ban_user_ips-is_ip_banned chars parse persisted clock reason (n + 1) rows ip banned j,
            )
      ]
