-- ===== src/Cookie/Write.antt =====
-- fsthttp/cookie.go: `(*Cookie).String`, `(*Cookie).Valid` and `SetCookie`.
use compute_sdk_go.Common.{
  ℕ, zero, suc, Bool, not, List, [], ◌∷◌, ◌++◌, Option, none, some, leb, if◌then◌else◌, Bytes,
  codes, is_empty,
}
use compute_sdk_go.Common.Int.{ℤ, pos, negsuc, decimal}
use compute_sdk_go.Cookie.{
  SameSite, unset, default_mode, lax_mode, strict_mode, none_mode, Cookie, TimeLib,
}
use compute_sdk_go.Cookie.Token.{
  is_cookie_name_valid, valid_cookie_value_byte, valid_cookie_path_byte,
}
use compute_sdk_go.Cookie.Value.{sanitize_cookie_value, sanitize_cookie_path}
use compute_sdk_go.Cookie.Domain.{valid_cookie_domain, drop_dot}

-- The errors of `Valid`; the last two carry the first invalid byte.
pub data Invalid : Type 0 where
  nil_cookie invalid_name invalid_expires invalid_domain : Invalid
  invalid_value invalid_path : ℕ → Invalid

-- The first byte that fails the test.
unfoldable pub first_invalid : (ℕ → Bool) → Bytes → Option ℕ
first_invalid valid [] = none
first_invalid valid (c ∷ cs) = let rest = first_invalid valid cs in if valid c then rest else some c

abbrev pub add_attr : Bytes → Bytes → Bytes
add_attr key value = b';' ∷ b' ' ∷ (key ++ b'=' ∷ value)

abbrev pub add_flag : Bytes → Bytes
add_flag key = b';' ∷ b' ' ∷ key

abbrev pub path_attr : Bytes → Bytes
path_attr path = if is_empty path then [] else add_attr (codes "Path") (sanitize_cookie_path path)

abbrev pub domain_attr : Bytes → Bytes
domain_attr domain =
    if is_empty domain
    then []
    else if valid_cookie_domain domain
    then add_attr (codes "Domain") (drop_dot domain)
    else []

abbrev pub max_age_attr : ℤ → Bytes
max_age_attr (pos zero) = []
max_age_attr (pos (suc n)) = add_attr (codes "Max-Age") (decimal (suc n))
max_age_attr (negsuc n) = add_attr (codes "Max-Age") (codes "0")

abbrev pub http_only_attr : Bool → Bytes
http_only_attr b = if b then add_flag (codes "HttpOnly") else []

abbrev pub secure_attr : Bool → Bytes
secure_attr b = if b then add_flag (codes "Secure") else []

abbrev pub same_site_attr : SameSite → Bytes
same_site_attr unset = []
same_site_attr default_mode = []
same_site_attr none_mode = add_attr (codes "SameSite") (codes "None")
same_site_attr lax_mode = add_attr (codes "SameSite") (codes "Lax")
same_site_attr strict_mode = add_attr (codes "SameSite") (codes "Strict")

module _ {T : Type 0} (time : TimeLib T) where
  unfoldable pub valid_cookie_expires : T → Bool
  valid_cookie_expires t = leb 1601 (time.year t)

  abbrev pub expires_attr : T → Bytes
  expires_attr t =
      if valid_cookie_expires t then add_attr (codes "Expires") (time.format (time.utc t)) else []

  -- What stands behind the name and the value.
  unfoldable pub attributes : Cookie T → Bytes
  attributes c =
      path_attr c.path
      ++ (domain_attr c.domain
          ++ (expires_attr c.expires
              ++ (max_age_attr c.max_age
                  ++ (http_only_attr c.http_only
                      ++ (secure_attr c.secure ++ same_site_attr c.same_site)))))

  -- A nil cookie is `none`.
  unfoldable pub cookie_string : Option (Cookie T) → Bytes
  unfolding attributes
  cookie_string none = []
  cookie_string (some c) =
      if is_cookie_name_valid c.name
      then c.name ++ b'=' ∷ (sanitize_cookie_value c.value ++ attributes c)
      else []

  -- `none` when the cookie is valid.
  unfoldable pub valid : Option (Cookie T) → Option Invalid
  valid none = some nil_cookie
  valid (some c) =
      if not (is_cookie_name_valid c.name)
      then some invalid_name
      else if not (valid_cookie_expires c.expires)
      then some invalid_expires
      else elim (first_invalid valid_cookie_value_byte c.value) [
        | some b ↦ some (invalid_value b)
        | none ↦ elim (first_invalid valid_cookie_path_byte c.path) [
          | some b ↦ some (invalid_path b)
          | none ↦
              if is_empty c.domain
              then none
              else if valid_cookie_domain c.domain
              then none
              else some invalid_domain
        ]
      ]

  -- The values of `Set-Cookie` after the call.
  unfoldable pub set_cookie : List Bytes → Option (Cookie T) → List Bytes
  unfolding cookie_string
  set_cookie h c = let v = cookie_string c in if is_empty v then h else h ++ v ∷ []
