-- ===== src/Cookie/Quoting.antt =====
-- `parseCookieValue` undoes `sanitizeCookieValue`.
use compute_sdk_go.Common.{
  ℕ, ◌≡◌, refl, ap, true, false, ◌||◌, [], ◌∷◌, ◌++◌, some, arith, if◌then◌else◌, Bytes, all, keep,
  contains, is_empty, all-keep,
}
use compute_sdk_go.Common.Text.{contains-append, contains_of_all}
use compute_sdk_go.Cookie.Token.{valid_cookie_value_byte}
use compute_sdk_go.Cookie.Value.{
  quoted, strip_quotes, last_of, init_of, parse_cookie_value, sanitize_cookie_value,
}
use compute_sdk_go.Cookie.Safe.{sanitize_or_warn-keep}

last_of-append : (d e : ℕ) (cs : Bytes) → last_of d (cs ++ e ∷ []) ≡ e
last_of-append d e [] = refl
last_of-append d e (c ∷ cs) = last_of-append c e cs

init_of-append : (d e : ℕ) (cs : Bytes) → init_of d (cs ++ e ∷ []) ≡ d ∷ cs
init_of-append d e [] = refl
init_of-append d e (c ∷ cs) = ap (◌∷◌ d) (init_of-append c e cs)

strip_quotes-quoted : (w : Bytes) → strip_quotes (quoted w) ≡ w
unfolding strip_quotes
strip_quotes-quoted [] = refl
strip_quotes-quoted (d ∷ cs) = rw (last_of-append d b'"' cs, init_of-append d b'"' cs) refl

strip_quotes_of_valid : (w : Bytes) → all valid_cookie_value_byte w ≡ true → strip_quotes w ≡ w
unfolding strip_quotes valid_cookie_value_byte
strip_quotes_of_valid [] h = refl
strip_quotes_of_valid (c ∷ []) h = refl
strip_quotes_of_valid (c ∷ d ∷ cs) h = ground arith

-- The value that `sanitizeCookieValue` keeps: the valid bytes, in their order.
abbrev pub kept_value : Bytes → Bytes
kept_value = keep valid_cookie_value_byte

parse_of_valid :
    (w : Bytes) → all valid_cookie_value_byte w ≡ true → parse_cookie_value w true ≡ some w
unfolding parse_cookie_value
parse_of_valid w h = rw (strip_quotes_of_valid w h) (rw h)

parse-quoted :
    (w : Bytes) → all valid_cookie_value_byte w ≡ true → parse_cookie_value (quoted w) true ≡ some w
unfolding parse_cookie_value
parse-quoted w h = rw (strip_quotes-quoted w) (rw h)

-- `sanitizeCookieValue` on the kept bytes `w`.
abbrev pub quote_if : Bytes → Bytes
quote_if w = if is_empty w then w else if contains b' ' w || contains b',' w then quoted w else w

pub sanitize_cookie_value_lem : (v : Bytes) → sanitize_cookie_value v ≡ quote_if (kept_value v)
unfolding sanitize_cookie_value
sanitize_cookie_value_lem v = rw (sanitize_or_warn-keep valid_cookie_value_byte v)

parse-quote_if :
    (w : Bytes)
    → all valid_cookie_value_byte w ≡ true
    → parse_cookie_value (quote_if w) true ≡ some w
parse-quote_if w h = ground (arith, parse_of_valid w h, parse-quoted w h)

-- Parsing what `sanitizeCookieValue` returns gives the bytes of the value that a cookie may hold,
-- for every value: the quotes that it adds are stripped again.
pub parse_cookie_value-sanitize_cookie_value :
    (v : Bytes) → parse_cookie_value (sanitize_cookie_value v) true ≡ some (kept_value v)
parse_cookie_value-sanitize_cookie_value v =
    rw (sanitize_cookie_value_lem v)
      (parse-quote_if (kept_value v) (all-keep valid_cookie_value_byte v))

not_semicolon : valid_cookie_value_byte b';' ≡ false
unfolding valid_cookie_value_byte
not_semicolon = refl

-- A sanitized value holds no semicolon.
pub contains-sanitize_cookie_value : (v : Bytes) → contains b';' (sanitize_cookie_value v) ≡ false
contains-sanitize_cookie_value v =
    let w = kept_value v in
    let h =
      contains_of_all valid_cookie_value_byte b';' not_semicolon w
        (all-keep valid_cookie_value_byte v) in
    let q : contains b';' (quoted w) ≡ false =
      unfold contains in contains-append b';' w (b'"' ∷ []) h refl in
    rw (sanitize_cookie_value_lem v) (ground (arith, h, q))
