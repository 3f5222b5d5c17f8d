-- ===== src/Cookie/Value.antt =====
-- fsthttp/cookie.go: sanitizing and parsing of cookie values and paths. The log lines are left out.
use compute_sdk_go.Common.{
  ℕ, Bool, ◌&&◌, ◌||◌, [], ◌∷◌, ◌++◌, Option, none, some, ◌==◌, if◌then◌else◌, Bytes, is_empty, all,
  keep, contains,
}
use compute_sdk_go.Cookie.Token.{valid_cookie_value_byte, valid_cookie_path_byte}

-- A first pass looks for an invalid byte; only if there is one is a copy made.
unfoldable pub sanitize_or_warn : (ℕ → Bool) → Bytes → Bytes
sanitize_or_warn valid v = if all valid v then v else keep valid v

-- `cookieNameSanitizer`
abbrev dash_newline : ℕ → ℕ
dash_newline c = if c == b'\n' || c == b'\r' then b'-' else c

unfoldable pub sanitize_cookie_name : Bytes → Bytes
sanitize_cookie_name [] = []
sanitize_cookie_name (c ∷ cs) = dash_newline c ∷ sanitize_cookie_name cs

abbrev pub quoted : Bytes → Bytes
quoted v = b'"' ∷ (v ++ b'"' ∷ [])

unfoldable pub sanitize_cookie_value : Bytes → Bytes
unfolding sanitize_or_warn contains
sanitize_cookie_value v =
    let w = sanitize_or_warn valid_cookie_value_byte v in
    if is_empty w then w else if contains b' ' w || contains b',' w then quoted w else w

unfoldable pub sanitize_cookie_path : Bytes → Bytes
unfolding sanitize_or_warn
sanitize_cookie_path v = sanitize_or_warn valid_cookie_path_byte v

-- The last element of `c ∷ cs`, and all before it.
abbrev pub last_of : ℕ → Bytes → ℕ
last_of c [] = c
last_of c (d ∷ cs) = last_of d cs

abbrev pub init_of : ℕ → Bytes → Bytes
init_of c [] = []
init_of c (d ∷ cs) = c ∷ init_of d cs

-- `raw[1 : len(raw)-1]` where `raw` begins and ends with a quote and has two bytes or more.
unfoldable pub strip_quotes : Bytes → Bytes
strip_quotes [] = []
strip_quotes (c ∷ []) = c ∷ []
strip_quotes (c ∷ d ∷ cs) = if c == b'"' && last_of d cs == b'"' then init_of d cs else c ∷ d ∷ cs

unfoldable pub parse_cookie_value : Bytes → Bool → Option Bytes
unfolding strip_quotes valid_cookie_value_byte
parse_cookie_value raw allow_double_quote =
    let v = if allow_double_quote then strip_quotes raw else raw in
    if all valid_cookie_value_byte v then some v else none
