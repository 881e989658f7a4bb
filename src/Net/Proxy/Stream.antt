-- ===== src/Net/Proxy/Stream.antt =====
-- phira-mp-plus-server/src/server/proxy_protocol.rs: the header at the start of a connection. A stream
-- is the bytes that arrive before the deadline; `stall` is the error that a read gives when there are no
-- more, that of a timeout or of a connection that has ended.
use phira_mp_plus.Common.{
  ℕ, ◌+◌, ◌-◌, List, [], ◌∷◌, ◌++◌, Bool, not, ◌&&◌, ◌||◌, Option, none, some, Result, ok, err,
  length, take, drop, leb, ltb, ◌==◌, min, if◌then◌else◌,
}
use phira_mp_plus.Net.Proxy.{
  SocketAddr, ProxyHeader, ParseError, TextParsers, proxy_source_addr, proxy_v2_sig, v1_prefix,
  starts_with, be, slice, parse_v1_header, parse_v2_body,
}

-- `ProxyError`
pub data ProxyError : Type 0 where
  timeout io invalid_signature eof incomplete : ProxyError
  header_too_large : ℕ → ProxyError
  parse_error : ParseError → ProxyError

-- A result, and what is left in the stream.
abbrev pub Read : Type 0 → Type 0
Read A = Result ProxyError A × List ℕ

abbrev pub finished : Result ParseError (Option (ProxyHeader × ℕ)) → Result ProxyError ProxyHeader
finished (ok (some (h, consumed))) = ok h
finished (ok none) = err incomplete
finished (err e) = err (parse_error e)

-- `line[line.len() - 2..] == [b'\r', b'\n']`
unfoldable pub ends_with_crlf : List ℕ → Bool
ends_with_crlf line =
    leb 2 (length line) && starts_with (drop (length line - 2) line) (0x0d ∷ 0x0a ∷ [])

-- `V1_MAX_LINE`
abbrev pub v1_max_line : ℕ
v1_max_line = 108

-- `read_v1_body`, with the line so far.
unfoldable pub read_v1_from : TextParsers → ProxyError → ℕ → List ℕ → List ℕ → Read ProxyHeader
read_v1_from p stall limit line [] =
    if leb limit (length line) then (err (header_too_large (length line)), []) else (err stall, [])
read_v1_from p stall limit line (b ∷ bs) =
    let more = read_v1_from p stall limit (line ++ b ∷ []) bs in
    if leb limit (length line)
    then (err (header_too_large (length line)), b ∷ bs)
    else if ends_with_crlf (line ++ b ∷ [])
    then (finished (parse_v1_header p (line ++ b ∷ [])), bs)
    else more

unfoldable pub read_v1_body : TextParsers → ProxyError → ℕ → List ℕ → Read ProxyHeader
read_v1_body p stall max_header_len = read_v1_from p stall (min max_header_len v1_max_line) []

-- `read_v2_body`
unfoldable pub read_v2_body : ProxyError → ℕ → List ℕ → Read ProxyHeader
read_v2_body stall max_header_len input =
    let addr_len = be (slice 14 2 input) in
    let total = 16 + addr_len in
    if ltb (length input) 16
    then (err stall, [])
    else if not (starts_with input proxy_v2_sig)
    then (err invalid_signature, drop 16 input)
    else if ltb max_header_len total
    then (err (header_too_large total), drop 16 input)
    else if ltb (length input) total
    then (err stall, [])
    else (finished (parse_v2_body (take total input)), drop total input)

-- What one `peek` gives: at most 12 bytes from the start of the stream, or an error.
pub data Peek : Type 0 where
  peeked : ℕ → Peek
  peek_timeout peek_failed : Peek

abbrev sourced : Read ProxyHeader → Read (Option SocketAddr)
sourced (ok h, rest) = (ok (proxy_source_addr h), rest)
sourced (err e, rest) = (err e, rest)

-- The loop of `maybe_read_proxy_header`: how many bytes each peek sees, until the deadline.
unfoldable pub detect : TextParsers → ProxyError → ℕ → List Peek → List ℕ → Read (Option SocketAddr)
detect p stall max_header_len [] input = (err timeout, input)
detect p stall max_header_len (peek_timeout ∷ peeks) input = (err timeout, input)
detect p stall max_header_len (peek_failed ∷ peeks) input = (err io, input)
detect p stall max_header_len (peeked n ∷ peeks) input =
    let seen = take (min n 12) input in
    let again = detect p stall max_header_len peeks input in
    if length seen == 0
    then (err eof, input)
    else if starts_with seen v1_prefix
    then sourced (read_v1_body p stall max_header_len input)
    else if starts_with seen proxy_v2_sig
    then sourced (read_v2_body stall max_header_len input)
    else if starts_with v1_prefix seen || starts_with proxy_v2_sig seen
    then again
    else (ok none, input)

-- `maybe_read_proxy_header`, where `trusted` is the answer of the CIDR list.
unfoldable pub maybe_read_proxy_header :
    TextParsers → Bool → ProxyError → ℕ → List Peek → List ℕ → Read (Option SocketAddr)
maybe_read_proxy_header p trusted stall max_header_len peeks input =
    if trusted then detect p stall max_header_len peeks input else (ok none, input)
