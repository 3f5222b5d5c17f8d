-- ===== src/Cookie/SetCookies.antt =====
-- What `String` writes for `Set-Cookie`, `readSetCookies` reads.
use compute_sdk_go.Common.{
  ℕ, ◌≡◌, refl, sym, ap, ap₂, ◌∙◌, ◌≢◌, true, false, List, [], ◌∷◌, ◌++◌, append_assoc, arith,
  Bytes, codes, is_empty, trim, trim_right, contains, split, all, all-imp, keep_of_all, some,
}
use compute_sdk_go.Common.Text.{trim_right_of_solid, is_solid}
use compute_sdk_go.Common.Int.{pos}
use compute_sdk_go.Cookie.{Cookie, TimeLib, unset, default_mode}
use compute_sdk_go.Cookie.Token.{valid_cookie_value_byte}
use compute_sdk_go.Cookie.Value.{sanitize_cookie_value}
use compute_sdk_go.Cookie.Domain.{valid_cookie_domain, drop_dot}
use compute_sdk_go.Cookie.Write.{
  valid_cookie_expires, max_age_attr, http_only_attr, secure_attr, same_site_attr, attributes,
  cookie_string,
}
use compute_sdk_go.Cookie.Read.{blank, read_attrs, read_set_cookie}
use compute_sdk_go.Cookie.Quoting.{parse_cookie_value-sanitize_cookie_value}
use compute_sdk_go.Cookie.Safe.{is_domain_byte, valid_cookie_domain-all}
use compute_sdk_go.Cookie.Pairs.{
  HasValidName, cut-pair_text, pair_text_of_valid, contains-pair_text, trim_right-pair_text,
}
use compute_sdk_go.Cookie.Field.{text, trim-text, text_nonempty, trim_of_end}
use compute_sdk_go.Cookie.Attrs.{
  spread, spread-append, IsPart, AllParts, AllParts-append, trim_right-spread, split-spread,
  fold_attrs, fold_attrs-append, read_attrs-spaced,
}
use compute_sdk_go.Cookie.Steps.{
  IsAttrText, pair_if, not_empty, pair_if-AllParts, ReadsBack, expires_text, age_list, AgeFits,
  flag_if, site_list, path_step, domain_step, expires_step, age_step, http_only_step, secure_step,
  site_step, age_list-AllParts, flag_if-AllParts, site_list-AllParts,
}
use compute_sdk_go.Cookie.Spread.{
  path_spread, domain_spread, age_spread, site_spread, flag_spread, expires_spread,
}

domain_byte_valid : (c : ℕ) → is_domain_byte c ≡ true → valid_cookie_value_byte c ≡ true
unfolding valid_cookie_value_byte
domain_byte_valid c h = ground arith

domain_byte_solid : (c : ℕ) → is_domain_byte c ≡ true → is_solid c ≡ true
domain_byte_solid c h = ground arith

domain-IsAttrText : (d : Bytes) → (is_empty d ≡ false → valid_cookie_domain d ≡ true) → IsAttrText d
unfolding trim_right
domain-IsAttrText [] h = record { valid_bytes = refl; end_kept = refl }
domain-IsAttrText (x ∷ xs) h =
    let a = valid_cookie_domain-all (x ∷ xs) (h refl) in
    record {
      valid_bytes = all-imp is_domain_byte valid_cookie_value_byte domain_byte_valid (x ∷ xs) a;
      end_kept =
          trim_right_of_solid (x ∷ xs)
            (all-imp is_domain_byte is_solid domain_byte_solid (x ∷ xs) a);
    }

module _ {T : Type 0} (time : TimeLib T) where
  -- A cookie whose every field can stand in a `Set-Cookie` line and is told apart there.
  pub record IsReadable (c : Cookie T) : Type 0 where
    pub name_valid : HasValidName c.name
    pub value_valid : all valid_cookie_value_byte c.value ≡ true
    pub path_text : IsAttrText c.path
    pub domain_valid : is_empty c.domain ≡ false → valid_cookie_domain c.domain ≡ true
    pub domain_dotless : drop_dot c.domain ≡ c.domain
    pub expires_read : valid_cookie_expires time c.expires ≡ true → ReadsBack time c.expires
    pub expires_zero : valid_cookie_expires time c.expires ≡ false → c.expires ≡ time.zero_time
    pub age_fits : AgeFits time c.max_age
    pub site_shown : c.same_site ≢ default_mode

  module _ (c : Cookie T) where
    abbrev late_list : List Bytes
    late_list =
        age_list time c.max_age
        ++ (flag_if time c.http_only (codes "HttpOnly")
            ++ (flag_if time c.secure (codes "Secure") ++ site_list time c.same_site))

    abbrev attr_list : List Bytes
    attr_list =
        pair_if (not_empty c.path) (codes "Path") c.path
        ++ (pair_if (not_empty c.domain) (codes "Domain") c.domain
            ++ (pair_if (valid_cookie_expires time c.expires) (codes "Expires")
                  (time.format (time.utc c.expires))
                ++ late_list))

    late-spread :
        max_age_attr c.max_age
          ++ (http_only_attr c.http_only ++ (secure_attr c.secure ++ same_site_attr c.same_site))
        ≡ spread late_list
    late-spread =
        ap₂ ◌++◌ (age_spread time c.max_age) (
          ap₂ ◌++◌ (flag_spread time c.http_only).0 (
            ap₂ ◌++◌ (flag_spread time c.secure).1 (site_spread time c.same_site)
            ∙ sym (
                spread-append (flag_if time c.secure (codes "Secure"))
                  (site_list time c.same_site)))
          ∙ sym (
              spread-append (flag_if time c.http_only (codes "HttpOnly"))
                (flag_if time c.secure (codes "Secure") ++ site_list time c.same_site)))
        ∙ sym (spread-append (age_list time c.max_age) _)

    attributes-spread : IsReadable c → attributes time c ≡ spread attr_list
    unfolding attributes
    attributes-spread h =
        ap₂ ◌++◌ (path_spread c.path (h.path_text)) (
          ap₂ ◌++◌ (domain_spread c.domain (h.domain_valid) (h.domain_dotless)) (
            ap₂ ◌++◌ (expires_spread time c.expires) late-spread
            ∙ sym (
                spread-append
                  (pair_if (valid_cookie_expires time c.expires) (codes "Expires")
                    (time.format (time.utc c.expires)))
                  late_list))
          ∙ sym (spread-append (pair_if (not_empty c.domain) (codes "Domain") c.domain) _))
        ∙ sym (spread-append (pair_if (not_empty c.path) (codes "Path") c.path) _)

    attr_list-AllParts : IsReadable c → AllParts attr_list
    unfolding contains
    attr_list-AllParts h =
        AllParts-append (pair_if (not_empty c.path) (codes "Path") c.path) _
          (pair_if-AllParts (not_empty c.path) b'P' (codes "ath") c.path refl refl
            (λ e. h.path_text))
          (AllParts-append (pair_if (not_empty c.domain) (codes "Domain") c.domain) _
            (pair_if-AllParts (not_empty c.domain) b'D' (codes "omain") c.domain refl refl
              (λ e. domain-IsAttrText c.domain (h.domain_valid)))
            (AllParts-append
              (pair_if (valid_cookie_expires time c.expires) (codes "Expires")
                (time.format (time.utc c.expires)))
              late_list
              (pair_if-AllParts (valid_cookie_expires time c.expires) b'E' (codes "xpires") _ refl
                refl (λ e. (h.expires_read e).text))
              (AllParts-append (age_list time c.max_age) _ (age_list-AllParts time c.max_age) (
                AllParts-append (flag_if time c.http_only (codes "HttpOnly")) _
                  (flag_if-AllParts time c.http_only).0
                  (AllParts-append (flag_if time c.secure (codes "Secure")) _
                    (flag_if-AllParts time c.secure).1 (site_list-AllParts time c.same_site))))))

    -- The cookie that is read, from the line it is read from.
    abbrev pub read_back : Bytes → Cookie T
    read_back line = record c {
      raw_expires = expires_text time c.expires;
      raw = line;
      unparsed = [];
    }

    abbrev start : Bytes → Cookie T
    start line = blank time c.name c.value line

    fold-late :
        (d : Cookie T)
        → IsReadable c
        → d.max_age ≡ pos 0
        → d.http_only ≡ false
        → d.secure ≡ false
        → d.same_site ≡ unset
        → fold_attrs time d late_list ≡ record d {
          max_age = c.max_age;
          http_only = c.http_only;
          secure = c.secure;
          same_site = c.same_site;
        }
    fold-late d h a o s m =
        fold_attrs-append time (age_list time c.max_age) _ d
        ∙ ap
            (λ e. fold_attrs time e (
              flag_if time c.http_only (codes "HttpOnly")
              ++ (flag_if time c.secure (codes "Secure") ++ site_list time c.same_site)))
            (age_step time c.max_age d a (h.age_fits))
        ∙ fold_attrs-append time (flag_if time c.http_only (codes "HttpOnly")) _ _
        ∙ ap
            (λ e.
              fold_attrs time e
                (flag_if time c.secure (codes "Secure") ++ site_list time c.same_site))
            (http_only_step time c.http_only _ o)
        ∙ fold_attrs-append time (flag_if time c.secure (codes "Secure")) _ _
        ∙ ap (λ e. fold_attrs time e (site_list time c.same_site)) (secure_step time c.secure _ s)
        ∙ site_step time c.same_site _ m (h.site_shown)

    fold-all :
        (line : Bytes) → IsReadable c → fold_attrs time (start line) attr_list ≡ read_back line
    fold-all line h =
        fold_attrs-append time (pair_if (not_empty c.path) (codes "Path") c.path) _ (start line)
        ∙ ap
            (λ e. fold_attrs time e (
              pair_if (not_empty c.domain) (codes "Domain") c.domain
              ++ (pair_if (valid_cookie_expires time c.expires) (codes "Expires")
                    (time.format (time.utc c.expires))
                  ++ late_list)))
            (path_step time c.path (start line) refl (h.path_text))
        ∙ fold_attrs-append time (pair_if (not_empty c.domain) (codes "Domain") c.domain) _ _
        ∙ ap
            (λ e. fold_attrs time e (
              pair_if (valid_cookie_expires time c.expires) (codes "Expires")
                (time.format (time.utc c.expires))
              ++ late_list))
            (domain_step time c.domain _ refl (domain-IsAttrText c.domain (h.domain_valid)))
        ∙ fold_attrs-append time
            (pair_if (valid_cookie_expires time c.expires) (codes "Expires")
              (time.format (time.utc c.expires)))
            _ _
        ∙ ap (λ e. fold_attrs time e late_list)
            (expires_step time c.expires _ refl refl (h.expires_read) (h.expires_zero))
        ∙ fold-late _ h refl refl refl refl

    text-IsPart : HasValidName c.name → IsPart (text c)
    text-IsPart ok = record {
      clear = contains-pair_text c.name c.value ok;
      whole = trim-text c ok;
      ended = trim_right-pair_text c.name c.value ok;
      solid = text_nonempty c ok;
    }

    cookie_string-spread : IsReadable c → cookie_string time (some c) ≡ text c ++ spread attr_list
    unfolding cookie_string
    cookie_string-spread h = rw (h.name_valid) (
        ap (λ l. c.name ++ b'=' ∷ (sanitize_cookie_value c.value ++ l)) (attributes-spread h)
        ∙ sym (append_assoc c.name (b'=' ∷ sanitize_cookie_value c.value) (spread attr_list))
        ∙ ap (λ l. l ++ spread attr_list) (sym (pair_text_of_valid c.name c.value (h.name_valid))))

    -- A line that splits into the name with its value, and parts.
    read_split :
        (line : Bytes) (parts : List Bytes)
        → IsReadable c
        → split b';' (trim line) ≡ (text c, parts)
        → read_set_cookie time line ≡ some (read_attrs time (start line) parts)
    unfolding read_set_cookie
    read_split line parts h e =
        rw (e, read_set_cookie)
          (rw (trim-text c (h.name_valid)) (
            rw (cut-pair_text c.name c.value (h.name_valid)) (
              rw (h.name_valid) (
                rw (parse_cookie_value-sanitize_cookie_value c.value) (
                  ap₂ (λ v ps. some (read_attrs time (blank time c.name v line) ps))
                    (keep_of_all valid_cookie_value_byte c.value (h.value_valid))
                    (ap (λ p. p.1) e))))))

    line_trim : (line : Bytes) → IsReadable c → line ≡ text c ++ spread attr_list → trim line ≡ line
    line_trim line h e = trim_of_end line c (spread attr_list) (h.name_valid) e (
        ap trim_right e
        ∙ trim_right-spread attr_list (text c) (text-IsPart (h.name_valid)) (attr_list-AllParts h)
        ∙ sym e)

    -- A cookie that `String` writes for a `Set-Cookie` line is read back by `readSetCookies` with
    -- every field as it was, but for the texts of the line and of the expiry that reading keeps. The
    -- name is valid; the value and the path hold bytes that a cookie value may hold, the path
    -- without a space at its end; the domain is valid, with no leading dot, or empty; `time` parses
    -- what it formats, and a time without a year that can be written is the zero time; the age is
    -- an `int`, -1 if it is negative; and the mode of `SameSite` is not the default mode.
    pub read_set_cookie-cookie_string :
        IsReadable c
        → read_set_cookie time (cookie_string time (some c))
          ≡ some (read_back (cookie_string time (some c)))
    read_set_cookie-cookie_string h =
        let line = cookie_string time (some c) in
        let shape = cookie_string-spread h in
        let pieces =
          split-spread attr_list (text c) ((text-IsPart (h.name_valid)).clear)
            (attr_list-AllParts h) in
        read_split line _ h (ap (split b';') (line_trim line h shape ∙ shape) ∙ pieces)
        ∙ ap some
            (read_attrs-spaced time attr_list (start line) (attr_list-AllParts h) ∙ fold-all line h)
