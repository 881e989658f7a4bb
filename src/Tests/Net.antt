-- ===== src/Tests/Net.antt =====
-- The theorems on what guards the listening sockets, at concrete calls.
use phira_mp_plus.Common.{
  ℕ, ◌-◌, ◌++◌, ◌≡◌, refl, List, [], ◌∷◌, true, false, Option, none, some, ok, replicate,
  length-replicate, arith, if◌then◌else◌,
}
use phira_mp_plus.Wire.Text.{Text, beq_text}
use phira_mp_plus.Net.SlidingWindow.{Call, request, tidy, new, window, answers}
use phira_mp_plus.Net.SlidingWindow.History.{expected}
use phira_mp_plus.Net.SlidingWindow.Laws.{answers-expected}
use phira_mp_plus.Net.Proxy.{TextParsers, v4, v1_prefix, proxy_v2_sig, starts_with}
use phira_mp_plus.Net.Proxy.Stream.{timeout, eof, peeked, read_v1_body, maybe_read_proxy_header}
use phira_mp_plus.Net.Proxy.Laws.{
  Endpoints, both_v4, source, encode_v2, peeks_then, maybe_read_proxy_header-encode_v2,
}
use phira_mp_plus.Net.Proxy.Bounds.{maybe_read_proxy_header-untouched, read_v1_body-decided}
use phira_mp_plus.Net.Proxy.Cidr.{CidrParsers, split_once, ip_matches_single_cidr}
use phira_mp_plus.Net.Proxy.Cidr.Masks.{ip_matches_single_cidr-agrees_in}

-- Two requests, a cleanup after ten seconds and more, and a third request.
abbrev calls : List Call
calls =
    request 0 (b'a' ∷ [])
    ∷ request 5 (b'a' ∷ [])
    ∷ tidy 11_000_000_000
    ∷ request 11_000_000_001 (b'a' ∷ [])
    ∷ []

answers-expected_example : answers (new 1 10) calls ≡ expected 1 (window 10) [] calls
answers-expected_example =
    answers-expected 1 10 0 calls (omega arith, (omega arith, (omega arith, (omega arith, tt))))

-- Parsers that know few texts.
abbrev few_parsers : TextParsers
few_parsers = record {
  from_utf8 = λ bytes. some bytes;
  split_whitespace = λ line. line ∷ [];
  parse_ipv4 = λ t. none;
  parse_ipv6 = λ t. none;
  parse_u16 = λ t. none;
}

-- 10.0.0.1:80 to 192.168.1.1:443, first seen in part.
abbrev connection : Endpoints
connection = both_v4 167772161 80 3232235777 443

maybe_read_proxy_header-encode_v2_example :
    maybe_read_proxy_header few_parsers true eof 16384
      (peeks_then (5 ∷ 11 ∷ []) [])
      (encode_v2 connection ++ 7 ∷ 8 ∷ [])
    ≡ (ok (some (source connection)), 7 ∷ 8 ∷ [])
maybe_read_proxy_header-encode_v2_example =
    maybe_read_proxy_header-encode_v2 few_parsers eof 16384 (5 ∷ 11 ∷ []) [] connection (7 ∷ 8 ∷ [])
      (omega arith, omega arith, omega arith, omega arith) (omega arith)
      ((omega arith, omega arith), ((omega arith, omega arith), tt))

plain_v1 : starts_with (13 ∷ 10 ∷ 9 ∷ []) v1_prefix ≡ false
unfolding starts_with
plain_v1 = refl

plain_v2 : starts_with (13 ∷ 10 ∷ 9 ∷ []) proxy_v2_sig ≡ false
unfolding starts_with
plain_v2 = refl

maybe_read_proxy_header-untouched_example :
    (maybe_read_proxy_header few_parsers true eof 16384
      (peeked 2 ∷ peeked 3 ∷ [])
      (13 ∷ 10 ∷ 9 ∷ [])).1
    ≡ 13 ∷ 10 ∷ 9 ∷ []
maybe_read_proxy_header-untouched_example =
    maybe_read_proxy_header-untouched few_parsers true eof 16384 (peeked 2 ∷ peeked 3 ∷ [])
      (13 ∷ 10 ∷ 9 ∷ []) plain_v1 plain_v2

read_v1_body-decided_example :
    read_v1_body few_parsers timeout 16384 (replicate 108 b'P' ++ 1 ∷ []) ≡ (
      (read_v1_body few_parsers eof 16384 (replicate 108 b'P')).0,
      (read_v1_body few_parsers eof 16384 (replicate 108 b'P')).1 ++ 1 ∷ [],
    )
read_v1_body-decided_example =
    read_v1_body-decided few_parsers timeout eof 16384 (replicate 108 b'P') (1 ∷ [])
      (omega (arith, length-replicate {A = ℕ} 108 b'P'))

-- "10.0.0.0", and a parser of it and of one digit.
abbrev ten_net : Text
ten_net = b'1' ∷ b'0' ∷ b'.' ∷ b'0' ∷ b'.' ∷ b'0' ∷ b'.' ∷ b'0' ∷ []

abbrev digit : Text → Option ℕ
digit (c ∷ []) = some (c - 48)
digit _ = none

abbrev ten_parsers : CidrParsers
ten_parsers = record {
  trim = λ t. t;
  parse_u8 = digit;
  parse_ip = λ t. if beq_text t ten_net then some (v4 167772160) else none;
}

ten_split : split_once b'/' (ten_net ++ b'/' ∷ b'8' ∷ []) ≡ some (ten_net, b'8' ∷ [])
unfolding split_once
ten_split = refl

ip_matches_single_cidr-agrees_in_example :
    ip_matches_single_cidr ten_parsers (v4 167772161) (ten_net ++ b'/' ∷ b'8' ∷ []) ≡ true
ip_matches_single_cidr-agrees_in_example =
    ip_matches_single_cidr-agrees_in ten_parsers (v4 167772161) (v4 167772160) 8
      (ten_net ++ b'/' ∷ b'8' ∷ []) ten_net (b'8' ∷ []) ten_split refl refl (omega arith)
      (omega arith)
