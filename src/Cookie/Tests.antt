-- ===== src/Cookie/Tests.antt =====
-- fsthttp/cookie.go: tests, and the theorems at concrete inputs. The times of the tests are years.
use compute_sdk_go.Common.{
  not, ◌&&◌, leb, length, is_empty, ℕ, ◌≡◌, refl, true, false, none, some, List, [], ◌∷◌, arith,
  codes, trim, trim_right, cut, split,
}
use compute_sdk_go.Common.Int.{pos, negsuc, decimal, digits, digits-decimal}
use compute_sdk_go.Cookie.{lax_mode, none_mode, Cookie, TimeLib}
use compute_sdk_go.Cookie.Token.{
  is_cookie_name_valid, valid_cookie_value_byte, valid_cookie_path_byte, to_lower,
}
use compute_sdk_go.Cookie.Value.{sanitize_cookie_value, sanitize_cookie_path, parse_cookie_value}
use compute_sdk_go.Cookie.Domain.{valid_cookie_domain, is_cookie_domain_name}
use compute_sdk_go.Cookie.Labels.{are_labels, has_letter}
use compute_sdk_go.Cookie.Grammar.{is_cookie_domain_name_lem}
use compute_sdk_go.Cookie.Write.{cookie_string, valid_cookie_expires}
use compute_sdk_go.Cookie.Read.{blank, read_set_cookie}
use compute_sdk_go.Cookie.Safe.{IsPrintable, cookie_string-IsPrintable}
use compute_sdk_go.Cookie.Request.{add_cookies, cookies}
use compute_sdk_go.Cookie.Steps.{decimal-IsAttrText}
use compute_sdk_go.Cookie.SetCookies.{IsReadable, read_back, read_set_cookie-cookie_string}
use compute_sdk_go.Cookie.RoundTrip.{cookies-add_cookies}

abbrev years : TimeLib ℕ
years = record {
  zero_time = 1;
  year = λ t. t;
  utc = λ t. t;
  parse_rfc1123 = λ s. none;
  parse_dashed = λ s. none;
  format = λ t. codes "Thu, 01 Jan 1970 00:00:00 GMT";
}

abbrev plain : Cookie ℕ
plain = blank years (codes "id") (codes "a b") []

abbrev full : Cookie ℕ
full = record plain {
  path = codes "/x;y";
  domain = codes ".example.org";
  expires = 1970;
  max_age = pos 60;
  secure = true;
  same_site = lax_mode;
}

string_full :
    cookie_string years (some full)
    ≡ codes
        "id=\"a b\"; Path=/xy; Domain=example.org; Expires=Thu, 01 Jan 1970 00:00:00 GMT; Max-Age=60; Secure; SameSite=Lax"
unfolding cookie_string valid_cookie_domain is_cookie_name_valid sanitize_cookie_value
    valid_cookie_value_byte sanitize_cookie_path valid_cookie_path_byte valid_cookie_expires decimal
string_full = refl

read_full :
    read_set_cookie years (codes " id=\"a b\" ; Path=/ ;max-age=007; Max-Age=0;samesite=NONE")
    ≡ some (record plain {
      path = codes "/";
      max_age = negsuc 0;
      same_site = none_mode;
      raw = codes " id=\"a b\" ; Path=/ ;max-age=007; Max-Age=0;samesite=NONE";
      unparsed = codes "max-age=007" ∷ [];
    })
unfolding read_set_cookie is_cookie_name_valid parse_cookie_value cut split trim to_lower
read_full = refl

domains :
    (valid_cookie_domain (codes "127.0.0.1") ≡ true)
    × (valid_cookie_domain (codes "127.0.0.01") ≡ false)
    × (valid_cookie_domain (codes "a-.b") ≡ false)
    × (valid_cookie_domain (codes "a.b-c.org.") ≡ true)
unfolding valid_cookie_domain
domains = (refl, refl, refl, refl)

abbrev two : List (Cookie ℕ)
two = plain ∷ blank years (codes "theme") (codes "dark;") [] ∷ []

cookies-add_cookies_example :
    cookies years (add_cookies [] two) ≡ plain ∷ blank years (codes "theme") (codes "dark") [] ∷ []
unfolding is_cookie_name_valid valid_cookie_value_byte
cookies-add_cookies_example = cookies-add_cookies years two (refl, (refl, tt))

cookie_string-IsPrintable_example : IsPrintable (cookie_string years (some full))
cookie_string-IsPrintable_example = cookie_string-IsPrintable years (λ t. refl) (some full)

-- Times that are years, and written as such.
abbrev clock : TimeLib ℕ
clock = record years { parse_rfc1123 = digits; format = decimal }

abbrev settled : Cookie ℕ
settled = record (blank clock (codes "id") (codes "a b") []) {
  path = codes "/x";
  domain = codes "example.org";
  expires = 1970;
  max_age = pos 60;
  secure = true;
  same_site = lax_mode;
}

settled_expires : valid_cookie_expires clock 1970 ≡ false → settled.expires ≡ clock.zero_time
unfolding valid_cookie_expires
settled_expires h = cc

settled-IsReadable : IsReadable clock settled
unfolding is_cookie_name_valid valid_cookie_value_byte valid_cookie_domain trim_right
settled-IsReadable = record {
  name_valid = refl;
  value_valid = refl;
  path_text = record { valid_bytes = refl; end_kept = refl };
  domain_valid = λ e. refl;
  domain_dotless = refl;
  expires_read = λ e. record {
    text = decimal-IsAttrText 1970;
    back = 1970;
    parses = digits-decimal 1970;
    same_time = refl;
  };
  expires_zero = settled_expires;
  age_fits = omega arith;
  site_shown = λ e. cc;
}

read_set_cookie-cookie_string_example :
    read_set_cookie clock (cookie_string clock (some settled))
    ≡ some (read_back clock settled (cookie_string clock (some settled)))
read_set_cookie-cookie_string_example =
    read_set_cookie-cookie_string clock settled settled-IsReadable

is_cookie_domain_name_lem_example : is_cookie_domain_name (codes ".a.b-c.") ≡ (
    not (is_empty (codes ".a.b-c."))
    && leb (length (codes ".a.b-c.")) 255
    && (are_labels (split b'.' (codes "a.b-c.")).0 (split b'.' (codes "a.b-c.")).1
        && has_letter (codes "a.b-c.")))
is_cookie_domain_name_lem_example = is_cookie_domain_name_lem (codes ".a.b-c.")
