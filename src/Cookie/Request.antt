-- ===== src/Cookie/Request.antt =====
-- fsthttp/request.go: `AddCookie`, `Cookies` and `Cookie`, on the values of the `Cookie` field.
use compute_sdk_go.Common.{List, [], ◌∷◌, ◌++◌, Option, none, some, if◌then◌else◌, Bytes, is_empty}
use compute_sdk_go.Cookie.{Cookie, TimeLib}
use compute_sdk_go.Cookie.Value.{sanitize_cookie_name, sanitize_cookie_value}
use compute_sdk_go.Cookie.Read.{read_cookies}

-- `Header.Get`: the first value, or the empty text.
abbrev pub first_value : List Bytes → Bytes
first_value [] = []
first_value (v ∷ _) = v

-- `name=value`, both sanitized.
unfoldable pub pair_text : Bytes → Bytes → Bytes
pair_text name value = sanitize_cookie_name name ++ b'=' ∷ sanitize_cookie_value value

module _ {T : Type 0} where
  -- The field's values after the call; `Header.Set` leaves one.
  unfoldable pub add_cookie : List Bytes → Cookie T → List Bytes
  unfolding pair_text
  add_cookie h c =
      let s = pair_text c.name c.value in
      let old = first_value h in (if is_empty old then s else old ++ b';' ∷ b' ' ∷ s) ∷ []

  -- A run of calls.
  abbrev pub add_cookies : List Bytes → List (Cookie T) → List Bytes
  add_cookies h [] = h
  add_cookies h (c ∷ cs) = add_cookies (add_cookie h c) cs

module _ {T : Type 0} (time : TimeLib T) where
  unfoldable pub cookies : List Bytes → List (Cookie T)
  cookies h = read_cookies time h []

  -- `none` is `ErrNoCookie`.
  unfoldable pub cookie : List Bytes → Bytes → Option (Cookie T)
  cookie h name = elim (read_cookies time h name) [ [] ↦ none | c ∷ _ ↦ some c ]
