-- ===== src/Cookie/Steps.antt =====
-- fsthttp/cookie.go: each attribute that `String` writes is read back by `readSetCookies`.
use compute_sdk_go.Common.{
  ℕ, zero, suc, ◌<◌, ◌≡◌, refl, sym, ap, ◌∙◌, ◌≢◌, Bool, true, false, List, [], ◌∷◌, ◌++◌, arith,
  inl, inr, Bool-cases, if◌then◌else◌, Bytes, codes, is_space, trim, trim_right, contains, cut, all,
  all-imp, is_digit, some,
}
use compute_sdk_go.Common.Text.{contains_of_all, trim_right_of_solid, is_solid}
use compute_sdk_go.Common.Int.{
  ℤ, pos, negsuc, int_max, decimal, atoi-decimal, decimal-head, decimal-all_digits,
}
use compute_sdk_go.Cookie.{
  Cookie, TimeLib, SameSite, unset, default_mode, lax_mode, strict_mode, none_mode,
}
use compute_sdk_go.Cookie.Token.{to_lower, valid_cookie_value_byte}
use compute_sdk_go.Cookie.Value.{parse_cookie_value}
use compute_sdk_go.Cookie.Write.{valid_cookie_expires}
use compute_sdk_go.Cookie.Read.{set_attr, read_attr, max_age_of, starts_with_zero}
use compute_sdk_go.Cookie.Attrs.{AllParts, pair-IsPart, fold_attrs, read_attr-pair}

-- A text that an attribute may have as its value: bytes that a cookie value may hold, and no space
-- at the end.
pub record IsAttrText (v : Bytes) : Type 0 where
  pub valid_bytes : all valid_cookie_value_byte v ≡ true
  pub end_kept : trim_right v ≡ v

parsed : (v : Bytes) → IsAttrText v → parse_cookie_value v false ≡ some v
unfolding parse_cookie_value
parsed v h = rw (h.valid_bytes) refl

no_semicolon : valid_cookie_value_byte b';' ≡ false
unfolding valid_cookie_value_byte
no_semicolon = refl

clear_of_text : (v : Bytes) → IsAttrText v → contains b';' v ≡ false
clear_of_text v h = contains_of_all valid_cookie_value_byte b';' no_semicolon v (h.valid_bytes)

digit_valid : (c : ℕ) → is_digit c ≡ true → valid_cookie_value_byte c ≡ true
unfolding valid_cookie_value_byte
digit_valid c h = ground arith

digit_solid : (c : ℕ) → is_digit c ≡ true → is_solid c ≡ true
digit_solid c h = ground arith

pub decimal-IsAttrText : (n : ℕ) → IsAttrText (decimal n)
decimal-IsAttrText n = record {
  valid_bytes =
      all-imp is_digit valid_cookie_value_byte digit_valid (decimal n) (decimal-all_digits n);
  end_kept =
      trim_right_of_solid (decimal n)
        (all-imp is_digit is_solid digit_solid (decimal n) (decimal-all_digits n));
}

-- A pair in the list of attributes, or nothing.
abbrev pub pair_if : Bool → Bytes → Bytes → List Bytes
pair_if b key v = if b then (key ++ b'=' ∷ v) ∷ [] else []

abbrev pub not_empty : Bytes → Bool
not_empty [] = false
not_empty (_ ∷ _) = true

pub pair_if-AllParts :
    (b : Bool) (k : ℕ) (ks v : Bytes)
    → is_space k ≡ false
    → contains b';' (k ∷ ks) ≡ false
    → (b ≡ true → IsAttrText v)
    → AllParts (pair_if b (k ∷ ks) v)
pair_if-AllParts true k ks v s c h =
    let t = h refl in (pair-IsPart k ks v s c (clear_of_text v t) (t.end_kept), tt)
pair_if-AllParts false k ks v s c h = tt

module _ {T : Type 0} (time : TimeLib T) where
  pub path_step :
      (p : Bytes) (c : Cookie T)
      → c.path ≡ []
      → IsAttrText p
      → fold_attrs time c (pair_if (not_empty p) (codes "Path") p) ≡ record c { path = p }
  unfolding set_attr to_lower contains
  path_step [] c e h = ap (λ q. record c { path = q }) e
  path_step (x ∷ xs) c e h =
      read_attr-pair time b'P' (codes "ath") (codes "path") (x ∷ xs) c refl refl (parsed (x ∷ xs) h)

  pub domain_step :
      (d : Bytes) (c : Cookie T)
      → c.domain ≡ []
      → IsAttrText d
      → fold_attrs time c (pair_if (not_empty d) (codes "Domain") d) ≡ record c { domain = d }
  unfolding set_attr to_lower contains
  domain_step [] c e h = ap (λ q. record c { domain = q }) e
  domain_step (x ∷ xs) c e h =
      read_attr-pair time b'D' (codes "omain") (codes "domain") (x ∷ xs) c refl refl
        (parsed (x ∷ xs) h)

  -- What the parsers of `time` have to make of a formatted time.
  pub record ReadsBack (t : T) : Type 0 where
    pub text : IsAttrText (time.format (time.utc t))
    pub back : T
    pub parses : time.parse_rfc1123 (time.format (time.utc t)) ≡ some back
    pub same_time : time.utc back ≡ t

  abbrev pub expires_text : T → Bytes
  expires_text t = if valid_cookie_expires time t then time.format (time.utc t) else []

  expires_set :
      (t : T) (c : Cookie T)
      → ReadsBack t
      → read_attr time c (codes "Expires" ++ b'=' ∷ time.format (time.utc t))
        ≡ record c { raw_expires = time.format (time.utc t); expires = t }
  unfolding set_attr to_lower contains
  expires_set t c h =
      read_attr-pair time b'E' (codes "xpires") (codes "expires") (time.format (time.utc t)) c refl
        refl (parsed (time.format (time.utc t)) (h.text))
      ∙ rw (h.parses) (rw (h.same_time) refl)

  pub expires_step :
      (t : T) (c : Cookie T)
      → c.expires ≡ time.zero_time
      → c.raw_expires ≡ []
      → (valid_cookie_expires time t ≡ true → ReadsBack t)
      → (valid_cookie_expires time t ≡ false → t ≡ time.zero_time)
      → fold_attrs time c
          (pair_if (valid_cookie_expires time t) (codes "Expires") (time.format (time.utc t)))
        ≡ record c { raw_expires = expires_text t; expires = t }
  expires_step t c e r h k = elim (Bool-cases (valid_cookie_expires time t)) [
    | inl v ↦ rw v (expires_set t c (h v))
    | inr v ↦ rw v (
        ap (λ q. record c { expires = q }) (e ∙ sym (k v))
        ∙ ap (λ q. record c { raw_expires = q; expires = t }) r)
  ]

  abbrev pub age_list : ℤ → List Bytes
  age_list (pos zero) = []
  age_list (pos (suc n)) = (codes "Max-Age" ++ b'=' ∷ decimal (suc n)) ∷ []
  age_list (negsuc n) = codes "Max-Age=0" ∷ []

  -- An age that `readSetCookies` can give: an `int`, and no negative number but -1.
  abbrev pub AgeFits : ℤ → Type 0
  AgeFits (pos n) = n < int_max
  AgeFits (negsuc n) = n ≡ 0

  max_age_of-decimal : (n : ℕ) → suc n < int_max → max_age_of (decimal (suc n)) ≡ some (pos (suc n))
  unfolding max_age_of
  max_age_of-decimal n h =
      let (x, xs, e, d, z) = decimal-head (suc n) in
      let head : starts_with_zero (decimal (suc n)) ≡ false = rw e (z (omega arith)) in
      rw (atoi-decimal (suc n) h, max_age_of) (rw head (ground arith))

  deleted_age :
      (c : Cookie T) → read_attr time c (codes "Max-Age=0") ≡ record c { max_age = negsuc 0 }
  unfolding set_attr to_lower read_attr parse_cookie_value cut max_age_of
  deleted_age c = refl

  pub age_step :
      (a : ℤ) (c : Cookie T)
      → c.max_age ≡ pos 0
      → AgeFits a
      → fold_attrs time c (age_list a) ≡ record c { max_age = a }
  unfolding set_attr to_lower contains
  age_step (pos zero) c e h = ap (λ q. record c { max_age = q }) e
  age_step (pos (suc n)) c e h =
      read_attr-pair time b'M' (codes "ax-Age") (codes "max-age") (decimal (suc n)) c refl refl
        (parsed (decimal (suc n)) (decimal-IsAttrText (suc n)))
      ∙ rw (max_age_of-decimal n h) refl
  age_step (negsuc zero) c e h = deleted_age c
  age_step (negsuc (suc n)) c e h = absurd (omega arith)

  abbrev pub flag_if : Bool → Bytes → List Bytes
  flag_if b key = if b then key ∷ [] else []

  pub http_only_step :
      (b : Bool) (c : Cookie T)
      → c.http_only ≡ false
      → fold_attrs time c (flag_if b (codes "HttpOnly")) ≡ record c { http_only = b }
  unfolding set_attr to_lower read_attr parse_cookie_value cut
  http_only_step true c e = refl
  http_only_step false c e = ap (λ q. record c { http_only = q }) e

  pub secure_step :
      (b : Bool) (c : Cookie T)
      → c.secure ≡ false
      → fold_attrs time c (flag_if b (codes "Secure")) ≡ record c { secure = b }
  unfolding set_attr to_lower read_attr parse_cookie_value cut
  secure_step true c e = refl
  secure_step false c e = ap (λ q. record c { secure = q }) e

  abbrev pub site_list : SameSite → List Bytes
  site_list unset = []
  site_list default_mode = []
  site_list none_mode = codes "SameSite=None" ∷ []
  site_list lax_mode = codes "SameSite=Lax" ∷ []
  site_list strict_mode = codes "SameSite=Strict" ∷ []

  pub site_step :
      (s : SameSite) (c : Cookie T)
      → c.same_site ≡ unset
      → s ≢ default_mode
      → fold_attrs time c (site_list s) ≡ record c { same_site = s }
  unfolding set_attr to_lower read_attr parse_cookie_value cut
  site_step unset c e h = ap (λ q. record c { same_site = q }) e
  site_step default_mode c e h = absurd (h refl)
  site_step none_mode c e h = refl
  site_step lax_mode c e h = refl
  site_step strict_mode c e h = refl

  -- The texts of every kind are parts of a line.
  pub age_list-AllParts : (a : ℤ) → AllParts (age_list a)
  unfolding contains trim trim_right
  age_list-AllParts (pos zero) = tt
  age_list-AllParts (pos (suc n)) =
      pair_if-AllParts true b'M' (codes "ax-Age") (decimal (suc n)) refl refl
        (λ e. decimal-IsAttrText (suc n))
  age_list-AllParts (negsuc n) =
      (record { clear = refl; whole = refl; ended = refl; solid = refl }, tt)

  pub flag_if-AllParts :
      (b : Bool) → AllParts (flag_if b (codes "HttpOnly")) × AllParts (flag_if b (codes "Secure"))
  unfolding contains trim trim_right
  flag_if-AllParts true = (
    (record { clear = refl; whole = refl; ended = refl; solid = refl }, tt),
    (record { clear = refl; whole = refl; ended = refl; solid = refl }, tt),
  )
  flag_if-AllParts false = (tt, tt)

  pub site_list-AllParts : (s : SameSite) → AllParts (site_list s)
  unfolding contains trim trim_right
  site_list-AllParts none_mode =
      (record { clear = refl; whole = refl; ended = refl; solid = refl }, tt)
  site_list-AllParts lax_mode =
      (record { clear = refl; whole = refl; ended = refl; solid = refl }, tt)
  site_list-AllParts strict_mode =
      (record { clear = refl; whole = refl; ended = refl; solid = refl }, tt)
  site_list-AllParts _ = tt
