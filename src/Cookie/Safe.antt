-- ===== src/Cookie/Safe.antt =====
-- What `(*Cookie).String` writes: printable bytes only, whatever the fields hold.
use compute_sdk_go.Common.{
  ℕ, zero, suc, Option-cases, ◌≡◌, refl, Bool, true, ◌||◌, [], ◌∷◌, ◌++◌, Option, none, some, arith,
  Bool-cases, inl, inr, Bytes, is_empty, all, keep, all-append, all-imp, all-keep, keep_of_all,
  ◌==◌, is_digit, is_letter,
}
use mathlib.Core.Bool.{false≢true}
use compute_sdk_go.Common.Int.{ℤ, pos, negsuc, decimal, decimal-all_digits}
use compute_sdk_go.Cookie.{SameSite, Cookie, TimeLib}
use compute_sdk_go.Cookie.Token.{
  is_print_byte, is_token_rune, is_cookie_name_valid, valid_cookie_value_byte,
  valid_cookie_path_byte, is_token_rune-is_print_byte, valid_cookie_value_byte-is_print_byte,
  valid_cookie_path_byte-is_print_byte,
}
use compute_sdk_go.Cookie.Value.{
  sanitize_or_warn, sanitize_cookie_value, sanitize_cookie_path, quoted,
}
use compute_sdk_go.Cookie.Domain.{
  Scan, scan_start, domain_step, domain_loop, ipv4_step, octet_start, drop_dot,
  is_cookie_domain_name, Octet, ipv4_loop, is_ipv4, valid_cookie_domain,
}
use compute_sdk_go.Cookie.Write.{
  path_attr, domain_attr, max_age_attr, http_only_attr, secure_attr, same_site_attr, expires_attr,
  attributes, cookie_string,
}

abbrev pub IsPrintable : Bytes → Type 0
IsPrintable s = all is_print_byte s ≡ true

-- The two passes of `sanitizeOrWarn` amount to one filter.
pub sanitize_or_warn-keep : (valid : ℕ → Bool) (v : Bytes) → sanitize_or_warn valid v ≡ keep valid v
unfolding sanitize_or_warn
sanitize_or_warn-keep valid v = elim (Bool-cases (all valid v)) [
  | inl ok ↦ rw ok (rw (keep_of_all valid v ok))
  | inr bad ↦ rw bad
]

all-sanitize_or_warn : (valid : ℕ → Bool) (v : Bytes) → all valid (sanitize_or_warn valid v) ≡ true
all-sanitize_or_warn valid v = rw (sanitize_or_warn-keep valid v) (all-keep valid v)

quoted-IsPrintable : (v : Bytes) → IsPrintable v → IsPrintable (quoted v)
quoted-IsPrintable v h = all-append is_print_byte v (b'"' ∷ []) h refl

pub sanitize_cookie_value-IsPrintable : (v : Bytes) → IsPrintable (sanitize_cookie_value v)
unfolding sanitize_cookie_value
sanitize_cookie_value-IsPrintable v =
    let w = sanitize_or_warn valid_cookie_value_byte v in
    let h : IsPrintable w =
      all-imp valid_cookie_value_byte is_print_byte valid_cookie_value_byte-is_print_byte w
        (all-sanitize_or_warn valid_cookie_value_byte v) in
    ground (arith, quoted-IsPrintable w h)

pub sanitize_cookie_path-IsPrintable : (v : Bytes) → IsPrintable (sanitize_cookie_path v)
unfolding sanitize_cookie_path
sanitize_cookie_path-IsPrintable v =
    all-imp valid_cookie_path_byte is_print_byte valid_cookie_path_byte-is_print_byte
      (sanitize_or_warn valid_cookie_path_byte v) (all-sanitize_or_warn valid_cookie_path_byte v)

-- The bytes of a domain name or an address.
abbrev pub is_domain_byte : ℕ → Bool
is_domain_byte c = is_letter c || is_digit c || c == b'-' || c == b'.'

domain_step-byte : (s t : Scan) (c : ℕ) → domain_step s c ≡ some t → is_domain_byte c ≡ true
unfolding domain_step
domain_step-byte s t c h = ground arith

domain_loop-all : (xs : Bytes) (s : Scan) → domain_loop s xs ≡ true → all is_domain_byte xs ≡ true
unfolding domain_loop
domain_loop-all [] s h = refl
domain_loop-all (c ∷ cs) s h = elim (Option-cases (domain_step s c)) [
  | inl e ↦ absurd (false≢true (rw (e, domain_loop) at h))
  | inr (t, e) ↦ rw (domain_step-byte s t c e) (domain_loop-all cs t (rw (e, domain_loop) at h))
]

ipv4_step-byte :
    (s t : Octet) (c : ℕ) (at_end : Bool) → ipv4_step s c at_end ≡ some t → is_domain_byte c ≡ true
unfolding ipv4_step
ipv4_step-byte s t c at_end h = ground arith

ipv4_loop-all : (xs : Bytes) (s : Octet) → ipv4_loop s xs ≡ true → all is_domain_byte xs ≡ true
unfolding ipv4_loop
ipv4_loop-all [] s h = refl
ipv4_loop-all (c ∷ cs) s h = elim (Option-cases (ipv4_step s c (is_empty cs))) [
  | inl e ↦ absurd (false≢true (rw (e, ipv4_loop) at h))
  | inr (t, e) ↦
      rw (ipv4_step-byte s t c (is_empty cs) e) (ipv4_loop-all cs t (rw (e, ipv4_loop) at h))
]

drop_dot-all : (p : ℕ → Bool) (xs : Bytes) → all p xs ≡ true → all p (drop_dot xs) ≡ true
drop_dot-all p [] h = refl
drop_dot-all p (c ∷ cs) h = ground arith

-- `drop_dot` takes away at most a dot.
all_of-drop_dot :
    (xs : Bytes) → all is_domain_byte (drop_dot xs) ≡ true → all is_domain_byte xs ≡ true
all_of-drop_dot [] h = refl
all_of-drop_dot (c ∷ cs) h = ground arith

pub valid_cookie_domain-all :
    (d : Bytes) → valid_cookie_domain d ≡ true → all is_domain_byte d ≡ true
unfolding valid_cookie_domain is_cookie_domain_name is_ipv4
valid_cookie_domain-all d h =
    ground (
      arith,
      all_of-drop_dot d,
      domain_loop-all (drop_dot d) scan_start,
      ipv4_loop-all d octet_start,
    )

is_domain_byte-is_print_byte : (c : ℕ) → is_domain_byte c ≡ true → is_print_byte c ≡ true
is_domain_byte-is_print_byte c h = ground arith

is_digit-is_print_byte : (c : ℕ) → is_digit c ≡ true → is_print_byte c ≡ true
is_digit-is_print_byte c h = ground arith

domain_attr-IsPrintable : (d : Bytes) → IsPrintable (domain_attr d)
domain_attr-IsPrintable d = elim (Bool-cases (valid_cookie_domain d)) [
  | inl ok ↦
      let h : IsPrintable (drop_dot d) =
        all-imp is_domain_byte is_print_byte is_domain_byte-is_print_byte (drop_dot d)
          (drop_dot-all is_domain_byte d (valid_cookie_domain-all d ok)) in
      ground arith
  | inr bad ↦ ground arith
]

path_attr-IsPrintable : (p : Bytes) → IsPrintable (path_attr p)
path_attr-IsPrintable p = ground (arith, sanitize_cookie_path-IsPrintable p)

max_age_attr-IsPrintable : (a : ℤ) → IsPrintable (max_age_attr a)
max_age_attr-IsPrintable (pos zero) = refl
max_age_attr-IsPrintable (pos (suc n)) =
    all-imp is_digit is_print_byte is_digit-is_print_byte (decimal (suc n))
      (decimal-all_digits (suc n))
max_age_attr-IsPrintable (negsuc n) = refl

flags-IsPrintable :
    (b c : Bool) (s : SameSite)
    → IsPrintable (http_only_attr b ++ (secure_attr c ++ same_site_attr s))
flags-IsPrintable b c s = ground arith

module _ {T : Type 0} (time : TimeLib T)
    (format_prints : (t : T) → IsPrintable (time.format t)) where
  expires_attr-IsPrintable : (t : T) → IsPrintable (expires_attr time t)
  expires_attr-IsPrintable t = ground (arith, format_prints (time.utc t))

  attributes-IsPrintable : (c : Cookie T) → IsPrintable (attributes time c)
  unfolding attributes
  attributes-IsPrintable c = join (path_attr c.path) _ (path_attr-IsPrintable c.path) (
      join (domain_attr c.domain) _ (domain_attr-IsPrintable c.domain) (
        join (expires_attr time c.expires) _ (expires_attr-IsPrintable c.expires) (
          join (max_age_attr c.max_age) _ (max_age_attr-IsPrintable c.max_age)
            (flags-IsPrintable c.http_only c.secure c.same_site))))
    where
      join : (xs ys : Bytes) → IsPrintable xs → IsPrintable ys → IsPrintable (xs ++ ys)
      join xs ys h k = all-append is_print_byte xs ys h k

  -- Whatever a cookie's fields hold, `String` writes bytes between 0x20 and 0x7e only, so that a
  -- field cannot break the header line. The formatted time is assumed to be printable.
  pub cookie_string-IsPrintable : (c : Option (Cookie T)) → IsPrintable (cookie_string time c)
  unfolding cookie_string is_cookie_name_valid
  cookie_string-IsPrintable none = refl
  cookie_string-IsPrintable (some c) = elim (Bool-cases (is_cookie_name_valid c.name)) [
    | inr bad ↦ rw bad
    | inl ok ↦ rw ok (
        all-append is_print_byte c.name _
          (all-imp is_token_rune is_print_byte is_token_rune-is_print_byte c.name (ground arith))
          (all-append is_print_byte (sanitize_cookie_value c.value) _
            (sanitize_cookie_value-IsPrintable c.value) (attributes-IsPrintable c)))
  ]
