-- ===== src/Cookie/RoundTrip.antt =====
-- What `AddCookie` writes, `Cookies` reads; and how the loop of `readCookies` treats a line.
use mathlib.Core.Bool.{false≢true}
use compute_sdk_go.Common.{
  ℕ, zero, suc, ◌≤◌, ◌≡◌, refl, sym, ap, ap₂, ◌∙◌, false, List, [], ◌∷◌, ◌++◌, map, append-nil,
  arith, Option-cases, length-append, inl, inr, Bytes, length, cut, trim, trim_right, contains,
  is_empty,
}
use compute_sdk_go.Common.Text.{cut-append, cut_of_absent, trim_of_head, trim_of_space}
use compute_sdk_go.Cookie.{Cookie, TimeLib}
use compute_sdk_go.Cookie.Token.{is_token_rune, is_cookie_name_valid}
use compute_sdk_go.Cookie.Quoting.{kept_value}
use compute_sdk_go.Cookie.Pairs.{HasValidName, contains-pair_text, read_part-pair_text}
use compute_sdk_go.Cookie.Loop.{read_line-nil, read_line-step, read_line-fuel}
use native.Mathlib.Nat.{le_refl}
use compute_sdk_go.Cookie.Read.{
  blank, name_and_value, read_pair, part_of, next_part, read_part, read_line, read_cookies,
}
use compute_sdk_go.Cookie.Request.{add_cookies, cookies}
use compute_sdk_go.Cookie.Field.{
  AllValid, text, tail_text, text_nonempty, text-append_nonempty, add_cookies_first, trim_field,
  trim-text, trim_empty_part,
}

-- A part before a semicolon, and a last part.
next_part-append :
    (p rest : Bytes)
    → contains b';' p ≡ false
    → is_empty p ≡ false
    → next_part (p ++ b';' ∷ rest) ≡ (p, rest)
next_part-append p rest h ne = ap (part_of (p ++ b';' ∷ rest)) (cut-append b';' p rest h) ∙ rw ne

next_part_of_last : (p : Bytes) → contains b';' p ≡ false → next_part p ≡ (p, [])
next_part_of_last p h = ap (part_of p) (cut_of_absent b';' p h)

-- A line that begins with a semicolon is taken whole.
leading : (rest : Bytes) → next_part (b';' ∷ rest) ≡ (b';' ∷ rest, [])
unfolding cut
leading rest = refl

semicolon_name : (xs : Bytes) → is_cookie_name_valid (name_and_value (b';' ∷ xs)).0 ≡ false
unfolding is_cookie_name_valid is_token_rune cut
semicolon_name xs = elim (Option-cases (cut b'=' xs)) [
  | inl e ↦ rw (e, name_and_value) refl
  | inr (p, e) ↦ rw (e, name_and_value) refl
]

module _ {T : Type 0} (time : TimeLib T) where
  -- The cookie that is read back: the name, and the bytes of the value that a cookie may hold.
  abbrev pub sent : Cookie T → Cookie T
  sent c = blank time c.name (kept_value c.value) []

  -- One round on a line that begins with the text of cookie `c`, or with a space and that text.
  read_round :
      (f : ℕ) (c : Cookie T) (p line rest : Bytes)
      → HasValidName c.name
      → trim p ≡ text c
      → is_empty line ≡ false
      → next_part line ≡ (p, rest)
      → read_line time (suc f) [] line ≡ sent c ∷ read_line time f [] rest
  read_round f c p line rest ok t ne e =
      read_line-step time f [] line ne
      ∙ ap (λ q. read_part time [] (trim q.0) ++ read_line time f [] q.1) e
      ∙ ap (λ q. read_part time [] q ++ read_line time f [] rest) t
      ∙ ap (λ l. l ++ read_line time f [] rest) (read_part-pair_text c.name c.value ok time)

  read_field :
      (cs : List (Cookie T)) (c : Cookie T) (p : Bytes) (f : ℕ)
      → HasValidName c.name
      → AllValid cs
      → contains b';' p ≡ false
      → is_empty p ≡ false
      → trim p ≡ text c
      → length (p ++ tail_text cs) ≤ f
      → read_line time f [] (p ++ tail_text cs) ≡ sent c ∷ map sent cs
  read_field cs c [] f ok h clear ne t fuel = absurd (false≢true (sym ne))
  read_field cs c (x ∷ xs) zero ok h clear ne t fuel = absurd (omega arith)
  read_field [] c (x ∷ xs) (suc f) ok h clear ne t fuel = rw append-nil (
      read_round f c (x ∷ xs) (x ∷ xs) [] ok t refl (next_part_of_last (x ∷ xs) clear)
      ∙ ap (◌∷◌ (sent c)) (read_line-nil time f []))
  read_field (d ∷ ds) c (x ∷ xs) (suc f) ok h clear ne t fuel =
      let later = b' ' ∷ (text d ++ tail_text ds) in
      let short : length later ≤ f = omega (arith, length-append {0} xs (b';' ∷ later)) in
      read_round f c (x ∷ xs) (x ∷ xs ++ b';' ∷ later) later ok t refl
        (next_part-append (x ∷ xs) later clear refl)
      ∙ ap (◌∷◌ (sent c)) (
          read_field ds d (b' ' ∷ text d) f h.0 h.1
            (unfold contains in contains-pair_text d.name d.value h.0) refl
            (trim_of_space (text d) ∙ trim-text d h.0) short)

  -- Cookies with valid names that `AddCookie` puts on a request with no `Cookie` field are read
  -- back by `Cookies`, all of them, in their order, each with its name and the bytes of its value
  -- that a cookie may hold.
  pub cookies-add_cookies :
      (cs : List (Cookie T)) → AllValid cs → cookies time (add_cookies [] cs) ≡ map sent cs
  unfolding cookies read_cookies
  cookies-add_cookies [] h = refl
  cookies-add_cookies (c ∷ cs) h =
      ap (λ l. read_cookies time l []) (add_cookies_first c cs h.0)
      ∙ ap (λ l. read_line time (length l) [] l ++ []) (trim_field cs c h.0 h.1)
      ∙ append-nil _
      ∙ read_field cs c (text c) (length (text c ++ tail_text cs)) h.0 h.1
          (contains-pair_text c.name c.value h.0) (text_nonempty c h.0) (trim-text c h.0)
          (le_refl _)

  semicolon_part : (rest : Bytes) → read_part time [] (trim (b';' ∷ rest)) ≡ []
  unfolding read_part read_pair
  semicolon_part rest =
      ap (read_part time []) (trim_of_head b';' rest refl) ∙ bad_name (trim_right rest)
    where
      bad_pair : (p : Bytes × Bytes) → is_cookie_name_valid p.0 ≡ false → read_pair time [] p ≡ []
      bad_pair (n, v) h = rw h

      bad_name : (xs : Bytes) → read_part time [] (b';' ∷ xs) ≡ []
      bad_name xs = bad_pair (name_and_value (b';' ∷ xs)) (semicolon_name xs)

  read_line_empty_part :
      (c : Cookie T) (rest : Bytes)
      → HasValidName c.name
      → (f : ℕ) → read_line time (suc (suc f)) [] (text c ++ b';' ∷ b';' ∷ rest) ≡ sent c ∷ []
  read_line_empty_part c rest ok f =
      read_round (suc f) c (text c) _ (b';' ∷ rest) ok (trim-text c ok)
        (text-append_nonempty c _ ok)
        (next_part-append (text c) (b';' ∷ rest) (contains-pair_text c.name c.value ok)
          (text_nonempty c ok))
      ∙ ap (◌∷◌ (sent c)) (
          read_line-step time f [] (b';' ∷ rest) refl
          ∙ ap₂ ◌++◌
              (ap (read_part time []) (ap trim (ap (λ q. q.0) (leading rest)))
                ∙ semicolon_part rest)
              (ap (λ q. read_line time f [] q.1) (leading rest) ∙ read_line-nil time f []))

  -- An empty part ends the reading of a line: after a cookie that `AddCookie` writes, whatever
  -- follows two semicolons is lost.
  pub read_cookies_empty_part :
      (c : Cookie T) (rest : Bytes)
      → HasValidName c.name
      → read_cookies time ((text c ++ b';' ∷ b';' ∷ rest) ∷ []) [] ≡ sent c ∷ []
  unfolding read_cookies
  read_cookies_empty_part c rest ok =
      let line = text c ++ b';' ∷ b';' ∷ trim_right rest in
      ap (λ l. read_line time (length l) [] l ++ []) (trim_empty_part c rest ok)
      ∙ append-nil _
      ∙ read_line-fuel time (length line) (suc (suc (length line))) [] line (le_refl _)
          (omega arith)
      ∙ read_line_empty_part c (trim_right rest) ok (length line)
