-- ===== src/Cookie/Valid.antt =====
-- fsthttp/cookie.go: the cookies that `Valid` accepts.
use compute_sdk_go.Common.{
  ℕ, ◌≡◌, ◌↔◌, Bool, true, [], ◌∷◌, none, some, arith, if◌then◌else◌, Bytes, is_empty, all,
}
use compute_sdk_go.Cookie.{Cookie, TimeLib}
use compute_sdk_go.Cookie.Token.{
  is_cookie_name_valid, valid_cookie_value_byte, valid_cookie_path_byte,
}
use compute_sdk_go.Cookie.Domain.{valid_cookie_domain}
use compute_sdk_go.Cookie.Write.{first_invalid, valid_cookie_expires, valid}

first_invalid-none : (p : ℕ → Bool) (xs : Bytes) → (first_invalid p xs ≡ none) ↔ (all p xs ≡ true)
unfolding first_invalid
first_invalid-none p [] = ground arith
first_invalid-none p (x ∷ xs) = ground (arith, first_invalid-none p xs)

module _ {T : Type 0} (time : TimeLib T) (c : Cookie T) where
  -- `Valid` accepts a cookie just where each of its fields can be written as it is: the name, a time
  -- from the year 1601 on, the bytes of the value and of the path, and the domain, unless it is
  -- empty.
  pub valid_lem : (valid time (some c) ≡ none) ↔ (
      (is_cookie_name_valid c.name ≡ true)
      × (valid_cookie_expires time c.expires ≡ true)
      × (all valid_cookie_value_byte c.value ≡ true)
      × (all valid_cookie_path_byte c.path ≡ true)
      × ((if is_empty c.domain then true else valid_cookie_domain c.domain) ≡ true))
  unfolding valid
  valid_lem = ground (
    arith,
    first_invalid-none valid_cookie_value_byte c.value,
    first_invalid-none valid_cookie_path_byte c.path,
  )
