-- ===== src/Net/Proxy/Bounds.antt =====
-- How much of a stream phira-mp-plus-server/src/server/proxy_protocol.rs takes.
use phira_mp_plus.Common.{
  ℕ, zero, suc, ◌+◌, ◌≤◌, ◌≡◌, refl, List, [], ◌∷◌, ◌++◌, Bool, true, false, length, take, min,
  arith, length-append,
}
use phira_mp_plus.Net.Proxy.{TextParsers, proxy_v2_sig, v1_prefix, starts_with}
use phira_mp_plus.Net.Proxy.Stream.{
  ProxyError, read_v1_from, read_v1_body, Peek, peeked, peek_timeout, peek_failed, detect,
  maybe_read_proxy_header, v1_max_line,
}

starts_with-take_inv :
    (n : ℕ) (xs ps : List ℕ) → starts_with (take n xs) ps ≡ true → starts_with xs ps ≡ true
unfolding starts_with
starts_with-take_inv n xs [] h = refl
starts_with-take_inv zero xs (p ∷ ps) h = absurd (cc h)
starts_with-take_inv (suc n) [] (p ∷ ps) h = absurd (cc h)
starts_with-take_inv (suc n) (x ∷ xs) (p ∷ ps) h = ground (arith, starts_with-take_inv n xs ps)

detect-untouched :
    (p : TextParsers) (stall : ProxyError) (m : ℕ) (peeks : List Peek) (input : List ℕ)
    → starts_with input v1_prefix ≡ false
    → starts_with input proxy_v2_sig ≡ false
    → (detect p stall m peeks input).1 ≡ input
unfolding detect
detect-untouched p stall m [] input h k = refl
detect-untouched p stall m (peek_timeout ∷ peeks) input h k = refl
detect-untouched p stall m (peek_failed ∷ peeks) input h k = refl
detect-untouched p stall m (peeked n ∷ peeks) input h k = ground (
  arith,
  starts_with-take_inv (min n 12) input v1_prefix,
  starts_with-take_inv (min n 12) input proxy_v2_sig,
  detect-untouched p stall m peeks input h k,
)

-- From a stream that begins with neither version of the header nothing is taken, whatever the peeks see
-- and however the call ends.
pub maybe_read_proxy_header-untouched :
    (p : TextParsers) (trusted : Bool) (stall : ProxyError) (m : ℕ) (peeks : List Peek)
    (input : List ℕ)
    → starts_with input v1_prefix ≡ false
    → starts_with input proxy_v2_sig ≡ false
    → (maybe_read_proxy_header p trusted stall m peeks input).1 ≡ input
unfolding maybe_read_proxy_header
maybe_read_proxy_header-untouched p true stall m peeks input h k =
    detect-untouched p stall m peeks input h k
maybe_read_proxy_header-untouched p false stall m peeks input h k = refl

read_v1_from-decided :
    (p : TextParsers) (stall other : ProxyError) (limit : ℕ) (line xs rest : List ℕ)
    → limit ≤ length line + length xs
    → read_v1_from p stall limit line (xs ++ rest)
      ≡ ((read_v1_from p other limit line xs).0, (read_v1_from p other limit line xs).1 ++ rest)
unfolding read_v1_from
read_v1_from-decided p stall other limit line [] [] h = ground arith
read_v1_from-decided p stall other limit line [] (b ∷ bs) h = ground arith
read_v1_from-decided p stall other limit line (x ∷ xs) rest h = ground (
  arith,
  length-append line (x ∷ []),
  read_v1_from-decided p stall other limit (line ++ x ∷ []) xs rest,
)

-- The read of a line of version 1 ends within 108 bytes: what comes after them changes nothing, and
-- neither does the error that a longer wait would give.
pub read_v1_body-decided :
    (p : TextParsers) (stall other : ProxyError) (m : ℕ) (xs rest : List ℕ)
    → 108 ≤ length xs
    → read_v1_body p stall m (xs ++ rest)
      ≡ ((read_v1_body p other m xs).0, (read_v1_body p other m xs).1 ++ rest)
unfolding read_v1_body
read_v1_body-decided p stall other m xs rest h =
    read_v1_from-decided p stall other (min m v1_max_line) [] xs rest (omega arith)
