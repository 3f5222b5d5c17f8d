-- ===== src/Cookie/Spread.antt =====
-- fsthttp/cookie.go: the attributes that `String` writes, as lists of texts.
use compute_sdk_go.Common.{
  ℕ, zero, suc, ◌≡◌, refl, sym, ap, ◌∙◌, Bool, true, false, [], ◌∷◌, ◌++◌, append-nil, arith, inl,
  inr, Bool-cases, if◌then◌else◌, Bytes, codes, is_empty, all-imp,
}
use compute_sdk_go.Common.Int.{ℤ, pos, negsuc, decimal}
use compute_sdk_go.Cookie.{TimeLib, SameSite, unset, default_mode, lax_mode, strict_mode, none_mode}
use compute_sdk_go.Cookie.Token.{valid_cookie_value_byte, valid_cookie_path_byte}
use compute_sdk_go.Cookie.Value.{sanitize_cookie_path, sanitize_or_warn}
use compute_sdk_go.Cookie.Domain.{valid_cookie_domain, drop_dot}
use compute_sdk_go.Cookie.Write.{
  valid_cookie_expires, path_attr, domain_attr, expires_attr, max_age_attr, http_only_attr,
  secure_attr, same_site_attr,
}
use compute_sdk_go.Cookie.Attrs.{spread}
use compute_sdk_go.Cookie.Steps.{IsAttrText, pair_if, not_empty, age_list, flag_if, site_list}

spread_of_pair :
    (b : Bool) (key v : Bytes)
    → spread (pair_if b key v) ≡ (if b then b';' ∷ b' ' ∷ (key ++ b'=' ∷ v) else [])
spread_of_pair true key v = ap (λ l. b';' ∷ b' ' ∷ l) (append-nil (key ++ b'=' ∷ v))
spread_of_pair false key v = refl

path_of_value : (c : ℕ) → valid_cookie_value_byte c ≡ true → valid_cookie_path_byte c ≡ true
unfolding valid_cookie_value_byte valid_cookie_path_byte
path_of_value c h = ground arith

pub path_spread :
    (p : Bytes) → IsAttrText p → path_attr p ≡ spread (pair_if (not_empty p) (codes "Path") p)
unfolding sanitize_cookie_path sanitize_or_warn
path_spread [] h = refl
path_spread (x ∷ xs) h =
    rw
      (all-imp valid_cookie_value_byte valid_cookie_path_byte path_of_value (x ∷ xs)
        (h.valid_bytes))
      (sym (spread_of_pair true (codes "Path") (x ∷ xs)))

pub domain_spread :
    (d : Bytes)
    → (is_empty d ≡ false → valid_cookie_domain d ≡ true)
    → drop_dot d ≡ d
    → domain_attr d ≡ spread (pair_if (not_empty d) (codes "Domain") d)
domain_spread [] h k = refl
domain_spread (x ∷ xs) h k = rw (h refl) (
    ap (λ l. b';' ∷ b' ' ∷ (codes "Domain" ++ b'=' ∷ l)) k
    ∙ sym (spread_of_pair true (codes "Domain") (x ∷ xs)))

pub age_spread : {T : Type 0} (time : TimeLib T) (a : ℤ) → max_age_attr a ≡ spread (age_list time a)
age_spread time (pos zero) = refl
age_spread time (pos (suc n)) = sym (spread_of_pair true (codes "Max-Age") (decimal (suc n)))
age_spread time (negsuc n) = refl

pub site_spread :
    {T : Type 0} (time : TimeLib T) (s : SameSite) → same_site_attr s ≡ spread (site_list time s)
site_spread time unset = refl
site_spread time default_mode = refl
site_spread time none_mode = refl
site_spread time lax_mode = refl
site_spread time strict_mode = refl

pub flag_spread :
    {T : Type 0} (time : TimeLib T) (b : Bool)
    → (http_only_attr b ≡ spread (flag_if time b (codes "HttpOnly")))
      × (secure_attr b ≡ spread (flag_if time b (codes "Secure")))
flag_spread time true = (refl, refl)
flag_spread time false = (refl, refl)

pub expires_spread :
    {T : Type 0} (time : TimeLib T) (t : T)
    → expires_attr time t
      ≡ spread (pair_if (valid_cookie_expires time t) (codes "Expires") (time.format (time.utc t)))
expires_spread time t = elim (Bool-cases (valid_cookie_expires time t)) [
  | inl e ↦ rw e (sym (spread_of_pair true (codes "Expires") (time.format (time.utc t))))
  | inr e ↦ rw e refl
]
