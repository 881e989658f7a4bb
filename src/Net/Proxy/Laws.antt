-- ===== src/Net/Proxy/Laws.antt =====
-- What phira-mp-plus-server/src/server/proxy_protocol.rs reads from a stream.
use native.Mathlib.Nat.{pow-suc}
use phira_mp_plus.Common.{
  ℕ, zero, suc, ◌+◌, ◌*◌, ◌/◌, ◌%◌, ◌^◌, ◌<◌, ◌≤◌, ◌≡◌, refl, ◌∙◌, List, [], ◌∷◌, ◌++◌, true, some,
  ok, length, take, drop, min, arith, All, length-take,
}
use phira_mp_plus.Net.Proxy.{
  IpAddr, v4, v6, SocketAddr, tcp4, tcp6, TextParsers, proxy_source_addr, proxy_v2_sig, starts_with,
  be_from, be, addresses, parse_v2_body,
}
use phira_mp_plus.Net.Proxy.Stream.{
  ProxyError, read_v2_body, Peek, peeked, detect, maybe_read_proxy_header,
}

-- A number in network order.
abbrev pub be_bytes : ℕ → ℕ → List ℕ
be_bytes zero v = []
be_bytes (suc k) v = be_bytes k (v / 256) ++ v % 256 ∷ []

-- The header that a proxy sends for a TCP connection, by the specification of version 2.
abbrev pub v2_header : ℕ → ℕ → ℕ → SocketAddr → SocketAddr → (SocketAddr → ℕ) → List ℕ
v2_header fam width size src dst number =
    proxy_v2_sig
    ++ (0x21 ∷ fam ∷ be_bytes 2 size)
    ++ (be_bytes width (number src) ++ be_bytes width (number dst))
    ++ (be_bytes 2 (src.port) ++ be_bytes 2 (dst.port))

abbrev pub ip_number : SocketAddr → ℕ
ip_number a = elim a.ip [ v4 n ↦ n | v6 n ↦ n ]

abbrev socket : (ℕ → IpAddr) → ℕ → ℕ → SocketAddr
socket family ip port = record { ip = family ip; port = port }

be_from-append :
    (acc : ℕ) (xs : List ℕ) (b : ℕ) → be_from acc (xs ++ b ∷ []) ≡ be_from acc xs * 256 + b
be_from-append acc [] b = refl
be_from-append acc (x ∷ xs) b = be_from-append (acc * 256 + x) xs b

pub be-be_bytes : (k v : ℕ) → v < 256 ^ k → be (be_bytes k v) ≡ v
be-be_bytes zero v h = omega arith
be-be_bytes (suc k) v h = omega (
  arith,
  pow-suc 256 k,
  be_from-append 0 (be_bytes k (v / 256)) (v % 256),
  be-be_bytes k (v / 256) (omega (arith, pow-suc 256 k)),
)

tcp4_parse :
    (src src_port dst dst_port : ℕ) (rest : List ℕ)
    → src < 2 ^ 32
    → dst < 2 ^ 32
    → src_port < 2 ^ 16
    → dst_port < 2 ^ 16
    → parse_v2_body
        (v2_header 0x11 4 12 (socket v4 src src_port) (socket v4 dst dst_port) ip_number ++ rest)
      ≡ ok (some (tcp4 (socket v4 src src_port) (socket v4 dst dst_port), 28))
unfolding parse_v2_body addresses
tcp4_parse src src_port dst dst_port rest hs hd ps pd = ground (
  arith,
  be-be_bytes 4 src hs,
  be-be_bytes 4 dst hd,
  be-be_bytes 2 src_port ps,
  be-be_bytes 2 dst_port pd,
)

tcp6_parse :
    (src src_port dst dst_port : ℕ) (rest : List ℕ)
    → src < 2 ^ 128
    → dst < 2 ^ 128
    → src_port < 2 ^ 16
    → dst_port < 2 ^ 16
    → parse_v2_body
        (v2_header 0x21 16 36 (socket v6 src src_port) (socket v6 dst dst_port) ip_number ++ rest)
      ≡ ok (some (tcp6 (socket v6 src src_port) (socket v6 dst dst_port), 52))
unfolding parse_v2_body addresses
tcp6_parse src src_port dst dst_port rest hs hd ps pd = ground (
  arith,
  be-be_bytes 16 src hs,
  be-be_bytes 16 dst hd,
  be-be_bytes 2 src_port ps,
  be-be_bytes 2 dst_port pd,
)

-- Peeks that see a part of the signature, and then one that sees all of it.
abbrev pub peeks_then : List ℕ → List Peek → List Peek
peeks_then [] later = peeked 12 ∷ later
peeks_then (n ∷ ns) later = peeked n ∷ peeks_then ns later

abbrev pub IsPart : ℕ → Type 0
IsPart n = (0 < n) × (n < 12)

starts_with-take :
    (n : ℕ) (xs ys : List ℕ) → n ≤ length xs → starts_with xs (take n (xs ++ ys)) ≡ true
unfolding starts_with
starts_with-take zero xs ys h = refl
starts_with-take (suc n) [] ys h = absurd (omega arith)
starts_with-take (suc n) (x ∷ xs) ys h = ground (arith, starts_with-take n xs ys (omega arith))

pub starts_with-length : (xs ys : List ℕ) → starts_with xs ys ≡ true → length ys ≤ length xs
unfolding starts_with
starts_with-length xs [] h = omega arith
starts_with-length [] (y ∷ ys) h = cc h
starts_with-length (x ∷ xs) (y ∷ ys) h = ground (arith, starts_with-length xs ys)

-- While a peek sees a part of the signature, the loop goes on.
detect-part :
    (p : TextParsers) (stall : ProxyError) (m n : ℕ) (peeks : List Peek) (rest : List ℕ)
    → IsPart n
    → detect p stall m (peeked n ∷ peeks) (proxy_v2_sig ++ rest)
      ≡ detect p stall m peeks (proxy_v2_sig ++ rest)
unfolding detect starts_with
detect-part p stall m zero peeks rest h = absurd (omega arith)
detect-part p stall m (suc k) peeks rest h =
    let few : min (suc k) 12 ≡ suc k = omega arith in
    let seen = take (suc k) (proxy_v2_sig ++ rest) in
    rw few (
      ground (
        arith,
        starts_with-length seen proxy_v2_sig,
        length-take (suc k) (proxy_v2_sig ++ rest),
        starts_with-take (suc k) proxy_v2_sig rest (omega arith),
      ))

detect-v2 :
    (p : TextParsers) (stall : ProxyError) (m : ℕ) (ns : List ℕ) (peeks : List Peek) (rest : List ℕ)
    → All IsPart ns
    → detect p stall m (peeks_then ns peeks) (proxy_v2_sig ++ rest)
      ≡ detect p stall m (peeked 12 ∷ peeks) (proxy_v2_sig ++ rest)
detect-v2 p stall m [] peeks rest h = refl
detect-v2 p stall m (n ∷ ns) peeks rest h =
    detect-part p stall m n (peeks_then ns peeks) rest h.0 ∙ detect-v2 p stall m ns peeks rest h.1

-- The whole header is read off the stream.
read_v2_body-tcp4 :
    (stall : ProxyError) (m src src_port dst dst_port : ℕ) (rest : List ℕ)
    → 28 ≤ m
    → src < 2 ^ 32
    → dst < 2 ^ 32
    → src_port < 2 ^ 16
    → dst_port < 2 ^ 16
    → read_v2_body stall m
        (v2_header 0x11 4 12 (socket v4 src src_port) (socket v4 dst dst_port) ip_number ++ rest)
      ≡ (ok (tcp4 (socket v4 src src_port) (socket v4 dst dst_port)), rest)
unfolding read_v2_body starts_with
read_v2_body-tcp4 stall m src src_port dst dst_port rest hm hs hd ps pd =
    ground (arith, tcp4_parse src src_port dst dst_port [] hs hd ps pd)

read_v2_body-tcp6 :
    (stall : ProxyError) (m src src_port dst dst_port : ℕ) (rest : List ℕ)
    → 52 ≤ m
    → src < 2 ^ 128
    → dst < 2 ^ 128
    → src_port < 2 ^ 16
    → dst_port < 2 ^ 16
    → read_v2_body stall m
        (v2_header 0x21 16 36 (socket v6 src src_port) (socket v6 dst dst_port) ip_number ++ rest)
      ≡ (ok (tcp6 (socket v6 src src_port) (socket v6 dst dst_port)), rest)
unfolding read_v2_body starts_with
read_v2_body-tcp6 stall m src src_port dst dst_port rest hm hs hd ps pd =
    ground (arith, tcp6_parse src src_port dst dst_port [] hs hd ps pd)

-- The two ends of a connection, of one family.
pub data Endpoints : Type 0 where
  both_v4 both_v6 : ℕ → ℕ → ℕ → ℕ → Endpoints

abbrev pub encode_v2 : Endpoints → List ℕ
encode_v2 (both_v4 src src_port dst dst_port) =
    v2_header 0x11 4 12 (socket v4 src src_port) (socket v4 dst dst_port) ip_number
encode_v2 (both_v6 src src_port dst dst_port) =
    v2_header 0x21 16 36 (socket v6 src src_port) (socket v6 dst dst_port) ip_number

abbrev pub source : Endpoints → SocketAddr
source (both_v4 src src_port dst dst_port) = socket v4 src src_port
source (both_v6 src src_port dst dst_port) = socket v6 src src_port

abbrev pub AreAddresses : Endpoints → Type 0
AreAddresses (both_v4 src src_port dst dst_port) =
    (src < 2 ^ 32) × (dst < 2 ^ 32) × (src_port < 2 ^ 16) × (dst_port < 2 ^ 16)
AreAddresses (both_v6 src src_port dst dst_port) =
    (src < 2 ^ 128) × (dst < 2 ^ 128) × (src_port < 2 ^ 16) × (dst_port < 2 ^ 16)

-- The header of version 2 for a TCP connection, from a trusted proxy and of at most the allowed length,
-- gives the client's address, however many peeks it takes to see it, and exactly what follows the
-- header stays in the stream.
pub maybe_read_proxy_header-encode_v2 :
    (p : TextParsers) (stall : ProxyError) (m : ℕ) (ns : List ℕ) (later : List Peek)
    (ends : Endpoints) (rest : List ℕ)
    → AreAddresses ends
    → length (encode_v2 ends) ≤ m
    → All IsPart ns
    → maybe_read_proxy_header p true stall m (peeks_then ns later) (encode_v2 ends ++ rest)
      ≡ (ok (some (source ends)), rest)
unfolding maybe_read_proxy_header detect starts_with proxy_source_addr
maybe_read_proxy_header-encode_v2 p stall m ns later (both_v4 s sp d dp) rest fits hm h =
    detect-v2 p stall m ns later (drop 12 (encode_v2 (both_v4 s sp d dp) ++ rest)) h
    ∙ ground (arith, read_v2_body-tcp4 stall m s sp d dp rest hm fits.0 fits.1 fits.2 fits.3)
maybe_read_proxy_header-encode_v2 p stall m ns later (both_v6 s sp d dp) rest fits hm h =
    detect-v2 p stall m ns later (drop 12 (encode_v2 (both_v6 s sp d dp) ++ rest)) h
    ∙ ground (arith, read_v2_body-tcp6 stall m s sp d dp rest hm fits.0 fits.1 fits.2 fits.3)
