-- ===== src/Cookie/Token.antt =====
-- fsthttp/cookie.go: the byte classes. Go ranges over the runes of a name; a rune that is not ASCII
-- is no token rune, and neither is any byte of its encoding, so bytes serve as well.
use compute_sdk_go.Common.{
  ℕ, Bool, true, false, not, ◌&&◌, ◌||◌, ◌≡◌, Option, none, some, arith, ltb, leb, ◌==◌,
  if◌then◌else◌, Bytes, is_empty, is_digit, is_letter, ascii_lower, all,
}

-- `isTokenTable`, an array of 127 entries.
unfoldable pub is_token_table : ℕ → Bool
is_token_table c =
    is_letter c
    || is_digit c
    || c == b'!'
    || (leb b'#' c && leb c b'\'')
    || c == b'*'
    || c == b'+'
    || c == b'-'
    || c == b'.'
    || (leb b'^' c && leb c b'`')
    || c == b'|'
    || c == b'~'

unfoldable pub is_token_rune : ℕ → Bool
unfolding is_token_table
is_token_rune r = ltb r 127 && is_token_table r

unfoldable pub is_cookie_name_valid : Bytes → Bool
unfolding is_token_rune
is_cookie_name_valid raw = if is_empty raw then false else all is_token_rune raw

unfoldable pub valid_cookie_value_byte : ℕ → Bool
valid_cookie_value_byte b =
    leb 0x20 b && ltb b 0x7f && not (b == b'"') && not (b == b';') && not (b == b'\\')

unfoldable pub valid_cookie_path_byte : ℕ → Bool
valid_cookie_path_byte b = leb 0x20 b && ltb b 0x7f && not (b == b';')

-- ASCII and printable.
abbrev pub is_print_byte : ℕ → Bool
is_print_byte c = leb b' ' c && leb c b'~'

unfoldable pub is_print : Bytes → Bool
is_print s = all is_print_byte s

-- The lower case of a printable text; `none` stands for `ok == false`.
unfoldable pub to_lower : Bytes → Option Bytes
unfolding is_print
to_lower s = if is_print s then some (ascii_lower s) else none

pub is_token_rune-is_print_byte : (c : ℕ) → is_token_rune c ≡ true → is_print_byte c ≡ true
unfolding is_token_rune
is_token_rune-is_print_byte c h = ground arith

pub valid_cookie_value_byte-is_print_byte :
    (c : ℕ) → valid_cookie_value_byte c ≡ true → is_print_byte c ≡ true
unfolding valid_cookie_value_byte
valid_cookie_value_byte-is_print_byte c h = ground arith

pub valid_cookie_path_byte-is_print_byte :
    (c : ℕ) → valid_cookie_path_byte c ≡ true → is_print_byte c ≡ true
unfolding valid_cookie_path_byte
valid_cookie_path_byte-is_print_byte c h = ground arith
