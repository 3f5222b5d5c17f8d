-- ===== src/Cookie/Read.antt =====
-- fsthttp/cookie.go: `readSetCookies` and `readCookies`, on the values of the header's field.
use compute_sdk_go.Common.{
  ℕ, zero, suc, Bool, true, false, not, ◌&&◌, List, [], ◌∷◌, ◌++◌, Option, none, some, ◌==◌,
  if◌then◌else◌, Bytes, codes, is_empty, same, trim, cut, split, length,
}
use compute_sdk_go.Common.Int.{ℤ, pos, negsuc, atoi}
use compute_sdk_go.Cookie.{
  SameSite, unset, default_mode, lax_mode, strict_mode, none_mode, Cookie, TimeLib,
}
use compute_sdk_go.Cookie.Token.{is_cookie_name_valid, to_lower}
use compute_sdk_go.Cookie.Value.{parse_cookie_value}

-- `name, value := s[:j], s[j+1:]` at the first `=`, and the whole with an empty value without one.
abbrev pub name_and_value : Bytes → Bytes × Bytes
name_and_value s = elim (cut b'=' s) [ some (n, v) ↦ (n, v) | none ↦ (s, []) ]

-- The part and the rest of the line: split at a semicolon that is not the first byte.
abbrev pub part_of : Bytes → Option (Bytes × Bytes) → Bytes × Bytes
part_of line (some (part, rest)) = if is_empty part then (line, []) else (part, rest)
part_of line none = (line, [])

abbrev pub next_part : Bytes → Bytes × Bytes
next_part line = part_of line (cut b';' line)

abbrev pub starts_with_zero : Bytes → Bool
starts_with_zero [] = false
starts_with_zero (c ∷ _) = c == b'0'

unfoldable pub same_site_of : Bytes → SameSite
unfolding to_lower
same_site_of val = elim (to_lower val) [
  | none ↦ default_mode
  | some v ↦
      if same v (codes "lax")
      then lax_mode
      else if same v (codes "strict")
      then strict_mode
      else if same v (codes "none")
      then none_mode
      else default_mode
]

-- `secs` as it is stored: no attribute value stands for 0.
abbrev pub stored_age : ℤ → ℤ
stored_age (pos zero) = negsuc 0
stored_age (pos (suc n)) = pos (suc n)
stored_age (negsuc n) = negsuc 0

abbrev is_zero : ℤ → Bool
is_zero (pos n) = n == 0
is_zero (negsuc n) = false

-- `Max-Age`; `none` where the attribute stays unparsed.
unfoldable pub max_age_of : Bytes → Option ℤ
unfolding atoi
max_age_of val = elim (atoi val) [
  | none ↦ none
  | some secs ↦ if not (is_zero secs) && starts_with_zero val then none else some (stored_age secs)
]

module _ {T : Type 0} (time : TimeLib T) where
  abbrev pub blank : Bytes → Bytes → Bytes → Cookie T
  blank name value raw = record {
    name = name;
    value = value;
    path = [];
    domain = [];
    expires = time.zero_time;
    raw_expires = [];
    max_age = pos 0;
    secure = false;
    http_only = false;
    same_site = unset;
    raw = raw;
    unparsed = [];
  }

  abbrev pub add_unparsed : Cookie T → Bytes → Cookie T
  add_unparsed c part = record c { unparsed = c.unparsed ++ part ∷ [] }

  abbrev pub parse_expires : Bytes → Option T
  parse_expires val = elim (time.parse_rfc1123 val) [
    | some t ↦ some t
    | none ↦ time.parse_dashed val
  ]

  -- The `switch` on the attribute's lower-case name.
  unfoldable pub set_attr : Cookie T → Bytes → Bytes → Bytes → Cookie T
  unfolding same_site_of max_age_of
  set_attr c part attr val =
      if same attr (codes "samesite")
      then record c { same_site = same_site_of val }
      else if same attr (codes "secure")
      then record c { secure = true }
      else if same attr (codes "httponly")
      then record c { http_only = true }
      else if same attr (codes "domain")
      then record c { domain = val }
      else if same attr (codes "max-age")
      then elim (max_age_of val) [ some a ↦ record c { max_age = a } | none ↦ add_unparsed c part ]
      else if same attr (codes "expires")
      then elim (parse_expires val) [
        | some t ↦ record c { raw_expires = val; expires = time.utc t }
        | none ↦ add_unparsed (record c { raw_expires = val; expires = time.zero_time }) part
      ]
      else if same attr (codes "path")
      then record c { path = val }
      else add_unparsed c part

  -- One round of the loop over the parts behind the first, on a part that is trimmed.
  unfoldable pub read_attr : Cookie T → Bytes → Cookie T
  unfolding set_attr
  read_attr c part =
      if is_empty part
      then c
      else let (attr, val) = name_and_value part in
        elim (to_lower attr) [
          | none ↦ c
          | some lower_attr ↦ elim (parse_cookie_value val false) [
            | none ↦ add_unparsed c part
            | some v ↦ set_attr c part lower_attr v
          ]
        ]

  unfoldable pub read_attrs : Cookie T → List Bytes → Cookie T
  unfolding read_attr
  read_attrs c [] = c
  read_attrs c (part ∷ parts) = read_attrs (read_attr c (trim part)) parts

  -- One value of `Set-Cookie`; `none` where the source goes on to the next. A single empty part
  -- has no `=` either, so the source's first test needs no branch of its own.
  unfoldable pub read_set_cookie : Bytes → Option (Cookie T)
  unfolding read_attrs
  read_set_cookie line =
      let (first, parts) = split b';' (trim line) in
      elim (cut b'=' (trim first)) [
        | none ↦ none
        | some (name, raw_value) ↦
            if is_cookie_name_valid name
            then elim (parse_cookie_value raw_value true) [
              | none ↦ none
              | some value ↦ some (read_attrs (blank name value line) parts)
            ]
            else none
      ]

  unfoldable pub read_set_cookies : List Bytes → List (Cookie T)
  unfolding read_set_cookie
  read_set_cookies [] = []
  read_set_cookies (line ∷ lines) =
      let rest = read_set_cookies lines in
      elim (read_set_cookie line) [ some c ↦ c ∷ rest | none ↦ rest ]

  -- What the name and the value of one part of a `Cookie` line add.
  unfoldable pub read_pair : Bytes → Bytes × Bytes → List (Cookie T)
  read_pair filter (name, val) =
      if not (is_cookie_name_valid name)
      then []
      else if not (is_empty filter) && not (same filter name)
      then []
      else elim (parse_cookie_value val true) [ none ↦ [] | some v ↦ blank name v [] ∷ [] ]

  unfoldable pub read_part : Bytes → Bytes → List (Cookie T)
  unfolding read_pair
  read_part filter part = if is_empty part then [] else read_pair filter (name_and_value part)

  -- `for len(line) > 0`, on fuel. Every round makes the line shorter.
  unfoldable pub read_line : ℕ → Bytes → Bytes → List (Cookie T)
  unfolding read_part
  read_line zero filter line = []
  read_line (suc f) filter line =
      let (part, rest) = next_part line in
      let later = read_line f filter rest in
      if is_empty line then [] else read_part filter (trim part) ++ later

  unfoldable pub read_cookies : List Bytes → Bytes → List (Cookie T)
  unfolding read_line
  read_cookies [] filter = []
  read_cookies (line ∷ lines) filter =
      let l = trim line in read_line (length l) filter l ++ read_cookies lines filter
