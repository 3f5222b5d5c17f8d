-- ===== src/Cookie/Pairs.antt =====
-- What `AddCookie` writes for one cookie is a part that `readCookies` reads back.
use compute_sdk_go.Common.{
  ℕ, ◌≡◌, refl, ap, ◌∙◌, true, false, ◌||◌, [], ◌∷◌, ◌++◌, some, arith, Bytes, all, ◌==◌, cut,
  trim_right, contains, is_empty, is_space, all-keep,
}
use compute_sdk_go.Common.Text.{
  contains-append, contains_of_all, cut-append, trim_right-append, is_solid, trim_right_of_solid,
}
use compute_sdk_go.Cookie.{TimeLib}
use compute_sdk_go.Cookie.Token.{valid_cookie_value_byte, is_token_rune, is_cookie_name_valid}
use compute_sdk_go.Cookie.Value.{quoted, sanitize_cookie_name, sanitize_cookie_value}
use compute_sdk_go.Cookie.Quoting.{
  kept_value, quote_if, sanitize_cookie_value_lem, parse_cookie_value-sanitize_cookie_value,
  contains-sanitize_cookie_value,
}
use compute_sdk_go.Cookie.Read.{blank, name_and_value, read_pair, read_part}
use compute_sdk_go.Cookie.Request.{pair_text}

abbrev pub HasValidName : Bytes → Type 0
HasValidName n = is_cookie_name_valid n ≡ true

name-all : (n : Bytes) → HasValidName n → all is_token_rune n ≡ true
unfolding is_cookie_name_valid
name-all n h = ground arith

dash_of_token : (c : ℕ) → is_token_rune c ≡ true → (c == b'\n' || c == b'\r') ≡ false
unfolding is_token_rune
dash_of_token c h = ground arith

sanitize_of_tokens : (n : Bytes) → all is_token_rune n ≡ true → sanitize_cookie_name n ≡ n
unfolding sanitize_cookie_name
sanitize_of_tokens [] h = refl
sanitize_of_tokens (c ∷ cs) h =
    rw (sanitize_of_tokens cs (ground arith)) (rw (dash_of_token c (ground arith)))

-- A valid name is written as it is.
pub sanitize_cookie_name_of_valid : (n : Bytes) → HasValidName n → sanitize_cookie_name n ≡ n
sanitize_cookie_name_of_valid n h = sanitize_of_tokens n (name-all n h)

semicolon_no_token : is_token_rune b';' ≡ false
unfolding is_token_rune
semicolon_no_token = refl

equals_no_token : is_token_rune b'=' ≡ false
unfolding is_token_rune
equals_no_token = refl

token_solid : (c : ℕ) → is_token_rune c ≡ true → is_space c ≡ false
unfolding is_token_rune
token_solid c h = ground arith

solid_of_valid :
    (w : Bytes)
    → all valid_cookie_value_byte w ≡ true
    → contains b' ' w ≡ false
    → all is_solid w ≡ true
unfolding valid_cookie_value_byte contains
solid_of_valid [] h k = refl
solid_of_valid (c ∷ cs) h k = ground (arith, solid_of_valid cs)

trim_right-quoted : (w : Bytes) → trim_right (quoted w) ≡ quoted w
trim_right-quoted w = trim_right-append (b'"' ∷ w) (b'"' ∷ []) refl (unfold trim_right in refl)

trim_right-quote_if :
    (w : Bytes) → all valid_cookie_value_byte w ≡ true → trim_right (quote_if w) ≡ quote_if w
unfolding trim_right
trim_right-quote_if w h =
    ground (arith, trim_right-quoted w, trim_right_of_solid w, solid_of_valid w h)

module _ (n v : Bytes) (ok : HasValidName n) where
  pub pair_text_of_valid : pair_text n v ≡ n ++ b'=' ∷ sanitize_cookie_value v
  unfolding pair_text
  pair_text_of_valid = rw (sanitize_cookie_name_of_valid n ok)

  value_end : trim_right (b'=' ∷ sanitize_cookie_value v) ≡ b'=' ∷ sanitize_cookie_value v
  unfolding trim_right
  value_end =
      rw (sanitize_cookie_value_lem v)
        (rw (trim_right-quote_if (kept_value v) (all-keep valid_cookie_value_byte v)))

  pub trim_right-pair_text : trim_right (pair_text n v) ≡ pair_text n v
  trim_right-pair_text =
      rw pair_text_of_valid (trim_right-append n (b'=' ∷ sanitize_cookie_value v) refl value_end)

  pub contains-pair_text : contains b';' (pair_text n v) ≡ false
  contains-pair_text = rw pair_text_of_valid (
      contains-append b';' n (b'=' ∷ sanitize_cookie_value v)
        (contains_of_all is_token_rune b';' semicolon_no_token n (name-all n ok))
        (unfold contains in contains-sanitize_cookie_value v))

  -- The first byte is no space.
  pub pair_text-head : (c : ℕ) × (cs : Bytes) × (pair_text n v ≡ c ∷ cs) × (is_space c ≡ false)
  pair_text-head = rw pair_text_of_valid (go n ok)
    where
      go :
          (m : Bytes)
          → HasValidName m
          → (c : ℕ) × (cs : Bytes) × (m ++ b'=' ∷ sanitize_cookie_value v ≡ c ∷ cs)
            × (is_space c ≡ false)
      go [] h = (b'=', sanitize_cookie_value v, refl, refl)
      go (c ∷ cs) h = (
        c,
        cs ++ b'=' ∷ sanitize_cookie_value v,
        refl,
        token_solid c (let t = name-all (c ∷ cs) h in ground arith),
      )

  pub cut-pair_text : cut b'=' (pair_text n v) ≡ some (n, sanitize_cookie_value v)
  cut-pair_text = rw pair_text_of_valid (
      cut-append b'=' n (sanitize_cookie_value v)
        (contains_of_all is_token_rune b'=' equals_no_token n (name-all n ok)))

  name_and_value-pair_text : name_and_value (pair_text n v) ≡ (n, sanitize_cookie_value v)
  name_and_value-pair_text = rw (cut-pair_text, name_and_value)

  -- The part gives one cookie: the name, and the bytes of the value that a cookie may hold.
  pub read_part-pair_text :
      {T : Type 0} (time : TimeLib T)
      → read_part time [] (pair_text n v) ≡ blank time n (kept_value v) [] ∷ []
  unfolding read_part
  read_part-pair_text time =
      let (c, cs, e, s) = pair_text-head in
      let h : is_empty (pair_text n v) ≡ false = rw e in
      let read : read_pair time [] (n, sanitize_cookie_value v)
          ≡ blank time n (kept_value v) [] ∷ [] =
        rw ok (rw (parse_cookie_value-sanitize_cookie_value v)) in
      rw h (ap (read_pair time []) name_and_value-pair_text ∙ read)
