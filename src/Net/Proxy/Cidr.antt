-- ===== src/Net/Proxy/Cidr.antt =====
-- phira-mp-plus-server/src/server/proxy_protocol.rs: the list of trusted networks.
pub mod Masks
use Prim.Native.Nat.{bit_and}
use phira_mp_plus.Common.{
  ℕ, ◌-◌, ◌*◌, ◌%◌, ◌^◌, List, [], ◌∷◌, Bool, true, false, ◌||◌, Option, none, some, Result, ok,
  err, ltb, ◌==◌, if◌then◌else◌,
}
use phira_mp_plus.Wire.Text.{Text}
use phira_mp_plus.Net.Proxy.{IpAddr, v4, v6}

-- What it asks of the standard library: `str::trim` and `parse`.
pub record CidrParsers : Type 0 where
  pub trim : Text → Text
  pub parse_u8 : Text → Option ℕ
  pub parse_ip : Text → Option IpAddr

-- `str::split_once`
abbrev with_head : ℕ → Option (Text × Text) → Option (Text × Text)
with_head c none = none
with_head c (some (before, after)) = some (c ∷ before, after)

unfoldable pub split_once : ℕ → Text → Option (Text × Text)
split_once mark [] = none
split_once mark (c ∷ cs) =
    let rest = split_once mark cs in if c == mark then some ([], cs) else with_head c rest

-- `str::split`
abbrev onto_part : ℕ → List Text → List Text
onto_part c [] = (c ∷ []) ∷ []
onto_part c (part ∷ parts) = (c ∷ part) ∷ parts

unfoldable pub split_at : ℕ → Text → List Text
split_at mark [] = [] ∷ []
split_at mark (c ∷ cs) =
    let rest = split_at mark cs in if c == mark then [] ∷ rest else onto_part c rest

-- `MAX.checked_shl(width - prefix).unwrap_or(0)`
unfoldable pub mask : ℕ → ℕ → ℕ
mask width prefix =
    let shift = width - prefix in
    if ltb shift width then (2 ^ width - 1) * 2 ^ shift % 2 ^ width else 0

-- The comparison of the masked addresses.
unfoldable pub same_network : IpAddr → IpAddr → ℕ → Bool
same_network (v4 ip) (v4 net) prefix = bit_and ip (mask 32 prefix) == bit_and net (mask 32 prefix)
same_network (v6 ip) (v6 net) prefix = bit_and ip (mask 128 prefix) == bit_and net (mask 128 prefix)
same_network _ _ prefix = false

abbrev pub is_blank : Text → Bool
is_blank [] = true
is_blank (c ∷ cs) = false

module _ (q : CidrParsers) where
  abbrev matches_parsed : IpAddr → Option ℕ → Option IpAddr → Bool
  matches_parsed ip none network = false
  matches_parsed ip (some prefix) none = false
  matches_parsed ip (some prefix) (some network) = same_network ip network prefix

  -- `ip_matches_single_cidr`
  unfoldable pub ip_matches_single_cidr : IpAddr → Text → Bool
  ip_matches_single_cidr ip cidr = elim (split_once b'/' cidr) [
    | none ↦ false
    | some (net_str, pre_str) ↦ matches_parsed ip (q.parse_u8 pre_str) (q.parse_ip (q.trim net_str))
  ]

  unfoldable pub any_part : IpAddr → List Text → Bool
  any_part ip [] = false
  any_part ip (part ∷ parts) =
      let rest = any_part ip parts in
      (if is_blank (q.trim part) then false else ip_matches_single_cidr ip (q.trim part)) || rest

  -- `ip_matches_any_cidr`
  unfoldable pub ip_matches_any_cidr : IpAddr → Text → Bool
  ip_matches_any_cidr ip cidr_list = any_part ip (split_at b',' cidr_list)
