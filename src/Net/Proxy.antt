-- ===== src/Net/Proxy.antt =====
-- phira-mp-plus-server/src/server/proxy_protocol.rs: the headers of the PROXY protocol in bytes.
pub mod Stream
pub mod Cidr
pub mod Laws
pub mod Bounds
use phira_mp_plus.Common.{
  ℕ, ◌+◌, ◌-◌, ◌*◌, ◌/◌, ◌%◌, List, [], ◌∷◌, ◌++◌, Bool, true, false, not, ◌&&◌, ◌||◌, Option, none,
  some, Result, ok, err, length, take, drop, ltb, ◌==◌, if◌then◌else◌, get_elem?,
}
use phira_mp_plus.Wire.Text.{Text, beq_text}

-- `IpAddr`, by the numbers that `u32::from` and `u128::from` give.
pub data IpAddr : Type 0 where
  v4 v6 : ℕ → IpAddr

pub record SocketAddr : Type 0 where
  pub ip : IpAddr
  pub port : ℕ

-- `ProxyHeader`
pub data ProxyHeader : Type 0 where
  tcp4 tcp6 : SocketAddr → SocketAddr → ProxyHeader
  unix : Text → Text → ProxyHeader
  unknown : ProxyHeader

-- The messages of the parsers.
pub data ParseError : Type 0 where
  no_signature not_utf8 truncated_line unknown_transport wrong_fields : ParseError
  invalid_address invalid_port bad_version bad_command truncated_addresses : ParseError

-- What the parsers ask of the standard library: `str::from_utf8`, `split_whitespace` and `parse`.
pub record TextParsers : Type 0 where
  pub from_utf8 : List ℕ → Option Text
  pub split_whitespace : Text → List Text
  pub parse_ipv4 : Text → Option ℕ
  pub parse_ipv6 : Text → Option ℕ
  pub parse_u16 : Text → Option ℕ

-- `proxy_source_addr`
unfoldable pub proxy_source_addr : ProxyHeader → Option SocketAddr
proxy_source_addr (tcp4 src dst) = some src
proxy_source_addr (tcp6 src dst) = some src
proxy_source_addr _ = none

-- `PROXY_V2_SIG`, and the prefix of version 1.
abbrev pub proxy_v2_sig : List ℕ
proxy_v2_sig =
    0x0d ∷ 0x0a ∷ 0x0d ∷ 0x0a ∷ 0x00 ∷ 0x0d ∷ 0x0a ∷ 0x51 ∷ 0x55 ∷ 0x49 ∷ 0x54 ∷ 0x0a ∷ []

abbrev pub v1_prefix : List ℕ
v1_prefix = b'P' ∷ b'R' ∷ b'O' ∷ b'X' ∷ b'Y' ∷ b' ' ∷ []

-- `data.starts_with(prefix)`
unfoldable pub starts_with : List ℕ → List ℕ → Bool
starts_with bytes [] = true
starts_with [] (p ∷ ps) = false
starts_with (b ∷ bs) (p ∷ ps) = b == p && starts_with bs ps

-- `from_be_bytes`
abbrev pub be_from : ℕ → List ℕ → ℕ
be_from acc [] = acc
be_from acc (b ∷ bs) = be_from (acc * 256 + b) bs

abbrev pub be : List ℕ → ℕ
be bs = be_from 0 bs

-- `data[from..from + n]`
abbrev pub slice : ℕ → ℕ → List ℕ → List ℕ
slice from n bytes = take n (drop from bytes)

abbrev tcp4_addresses : List ℕ → ProxyHeader
tcp4_addresses addr =
    tcp4 (record { ip = v4 (be (slice 0 4 addr)); port = be (slice 8 2 addr) })
      (record { ip = v4 (be (slice 4 4 addr)); port = be (slice 10 2 addr) })

abbrev tcp6_addresses : List ℕ → ProxyHeader
tcp6_addresses addr =
    tcp6 (record { ip = v6 (be (slice 0 16 addr)); port = be (slice 32 2 addr) })
      (record { ip = v6 (be (slice 16 16 addr)); port = be (slice 34 2 addr) })

-- The address part, by its family.
unfoldable pub addresses : ℕ → List ℕ → Result ParseError ProxyHeader
addresses fam addr =
    if fam == 0x11
    then (if ltb (length addr) 12 then err truncated_addresses else ok (tcp4_addresses addr))
    else if fam == 0x21
    then (if ltb (length addr) 36 then err truncated_addresses else ok (tcp6_addresses addr))
    else ok unknown

abbrev sized : ℕ → Result ParseError ProxyHeader → Result ParseError (Option (ProxyHeader × ℕ))
sized total (ok h) = ok (some (h, total))
sized total (err e) = err e

-- `parse_v2_body`; `none` asks for more bytes. The nibbles of a byte are its quotient and rest by 16.
unfoldable pub parse_v2_body : List ℕ → Result ParseError (Option (ProxyHeader × ℕ))
parse_v2_body bytes =
    let ver_cmd = be (slice 12 1 bytes) in
    let total = 16 + be (slice 14 2 bytes) in
    if ltb (length bytes) 16
    then ok none
    else if ltb (length bytes) total
    then ok none
    else if not (ver_cmd / 16 == 2)
    then err bad_version
    else if not (ver_cmd % 16 == 0) && not (ver_cmd % 16 == 1)
    then err bad_command
    else if ver_cmd % 16 == 0
    then ok (some (unknown, total))
    else sized total (addresses (be (slice 13 1 bytes)) (slice 16 (total - 16) bytes))

-- `data.windows(2).position(|w| w == b"\r\n")`, plus 2.
abbrev next_end : ℕ → Option ℕ → Option ℕ
next_end here none = none
next_end here (some n) = some (here + n)

unfoldable pub line_end : List ℕ → Option ℕ
line_end [] = none
line_end (a ∷ []) = none
line_end (a ∷ b ∷ bs) =
    let rest = line_end (b ∷ bs) in if a == 0x0d && b == 0x0a then some 2 else next_end 1 rest

module _ (p : TextParsers) where
  -- Both addresses are parsed before both ports.
  abbrev endpoints :
      (ℕ → IpAddr)
      → (SocketAddr → SocketAddr → ProxyHeader)
      → Option ℕ
      → Option ℕ
      → Option ℕ
      → Option ℕ
      → Result ParseError ProxyHeader
  endpoints family header (some src) (some dst) (some src_port) (some dst_port) = ok (
      header (record { ip = family src; port = src_port })
        (record { ip = family dst; port = dst_port }))
  endpoints family header (some src) (some dst) _ _ = err invalid_port
  endpoints family header _ _ _ _ = err invalid_address

  abbrev fields :
      (ℕ → IpAddr)
      → (SocketAddr → SocketAddr → ProxyHeader)
      → (Text → Option ℕ)
      → List Text
      → Result ParseError ProxyHeader
  fields family header parse (src ∷ dst ∷ src_port ∷ dst_port ∷ []) =
      endpoints family header (parse src) (parse dst) (p.parse_u16 src_port) (p.parse_u16 dst_port)
  fields family header parse _ = err wrong_fields

  unfoldable pub transport : List Text → Result ParseError ProxyHeader
  transport (prefix ∷ kind ∷ rest) =
      if beq_text kind (b'T' ∷ b'C' ∷ b'P' ∷ b'4' ∷ [])
      then fields v4 tcp4 (p.parse_ipv4) rest
      else if beq_text kind (b'T' ∷ b'C' ∷ b'P' ∷ b'6' ∷ [])
      then fields v6 tcp6 (p.parse_ipv6) rest
      else if beq_text kind (b'U' ∷ b'N' ∷ b'K' ∷ b'N' ∷ b'O' ∷ b'W' ∷ b'N' ∷ [])
      then ok unknown
      else err unknown_transport
  transport _ = err truncated_line

  abbrev parse_line : Option Text → Result ParseError ProxyHeader
  parse_line none = err not_utf8
  parse_line (some line) = transport (p.split_whitespace line)

  -- `parse_v1_header`
  unfoldable pub parse_v1_header : List ℕ → Result ParseError (Option (ProxyHeader × ℕ))
  parse_v1_header bytes = elim (line_end bytes) [
    | none ↦ ok none
    | some end ↦ sized end (parse_line (p.from_utf8 (take (end - 2) bytes)))
  ]

  -- `parse_proxy_header`
  unfoldable pub parse_proxy_header : List ℕ → Result ParseError (Option (ProxyHeader × ℕ))
  parse_proxy_header bytes =
      if starts_with bytes v1_prefix
      then parse_v1_header bytes
      else if starts_with bytes proxy_v2_sig
      then parse_v2_body bytes
      else if ltb (length bytes) 12 && ltb 0 (length bytes) && starts_with proxy_v2_sig bytes
      then ok none
      else err no_signature
