-- ===== src/Cookie/Domain.antt =====
-- fsthttp/cookie.go: domain names and addresses. `net.ParseIP` on a text without a colon accepts
-- dotted decimal addresses only.
use compute_sdk_go.Common.{
  Option, none, some, ℕ, ◌+◌, ◌-◌, ◌*◌, Bool, true, false, ◌&&◌, ◌||◌, [], ◌∷◌, ltb, ◌==◌,
  if◌then◌else◌, Bytes, is_digit, is_letter, is_empty, length,
}

-- The variables of the loop.
pub record Scan : Type 0 where
  pub last : ℕ
  pub seen_letter : Bool
  pub part_len : ℕ

-- The end of the loop of `isCookieDomainName`.
abbrev pub finish_domain : Scan → Bool
finish_domain s = if s.last == b'-' || ltb 63 s.part_len then false else s.seen_letter

-- One round of the loop; `none` where the source returns false.
unfoldable pub domain_step : Scan → ℕ → Option Scan
domain_step s c =
    if is_letter c
    then some (record { last = c; seen_letter = true; part_len = s.part_len + 1 })
    else if is_digit c
    then some (record s { last = c; part_len = s.part_len + 1 })
    else if c == b'-'
    then if s.last == b'.' then none else some (record s { last = c; part_len = s.part_len + 1 })
    else if c == b'.'
    then if s.last == b'.' || s.last == b'-'
      then none
      else if ltb 63 s.part_len || s.part_len == 0
      then none
      else some (record s { last = c; part_len = 0 })
    else none

unfoldable pub domain_loop : Scan → Bytes → Bool
unfolding domain_step
domain_loop s [] = finish_domain s
domain_loop s (c ∷ cs) = elim (domain_step s c) [ some t ↦ domain_loop t cs | none ↦ false ]

abbrev pub drop_dot : Bytes → Bytes
drop_dot [] = []
drop_dot (c ∷ cs) = if c == b'.' then cs else c ∷ cs

abbrev pub scan_start : Scan
scan_start = record { last = b'.'; seen_letter = false; part_len = 0 }

unfoldable pub is_cookie_domain_name : Bytes → Bool
unfolding domain_loop
is_cookie_domain_name s =
    if is_empty s
    then false
    else if ltb 255 (length s)
    then false
    else domain_loop scan_start (drop_dot s)

-- The variables of the address parser: dots seen, octet, its digits, whether the byte before was a
-- dot or there was none.
pub record Octet : Type 0 where
  pub dots : ℕ
  pub octet : ℕ
  pub octet_len : ℕ
  pub fresh : Bool

-- One round; `at_end` tells that the byte is the last.
unfoldable pub ipv4_step : Octet → ℕ → Bool → Option Octet
ipv4_step s c at_end =
    let next = s.octet * 10 + (c - b'0') in
    if is_digit c
    then if (s.octet_len == 1 && s.octet == 0) || ltb 255 next
      then none
      else some (record s { octet = next; octet_len = s.octet_len + 1; fresh = false })
    else if c == b'.'
    then if s.fresh || at_end || s.dots == 3
      then none
      else some (record { dots = s.dots + 1; octet = 0; octet_len = 0; fresh = true })
    else none

unfoldable pub ipv4_loop : Octet → Bytes → Bool
unfolding ipv4_step
ipv4_loop s [] = s.dots == 3
ipv4_loop s (c ∷ cs) = elim (ipv4_step s c (is_empty cs)) [ some t ↦ ipv4_loop t cs | none ↦ false ]

abbrev pub octet_start : Octet
octet_start = record { dots = 0; octet = 0; octet_len = 0; fresh = true }

unfoldable pub is_ipv4 : Bytes → Bool
unfolding ipv4_loop
is_ipv4 s = ipv4_loop octet_start s

-- `net.ParseIP(v) != nil && !strings.Contains(v, ":")`: no dotted address holds a colon.
unfoldable pub valid_cookie_domain : Bytes → Bool
unfolding is_cookie_domain_name is_ipv4
valid_cookie_domain v = if is_cookie_domain_name v then true else is_ipv4 v
