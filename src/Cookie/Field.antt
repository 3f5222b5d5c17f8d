-- ===== src/Cookie/Field.antt =====
-- The text of a `Cookie` field that `AddCookie` writes, and what trimming does to it.

use compute_sdk_go.Common.{
  ◌≡◌, refl, sym, ap, ◌∙◌, false, List, [], ◌∷◌, ◌++◌, append-nil, append_assoc, Bytes, trim,
  trim_right, is_empty,
}
use compute_sdk_go.Common.Text.{
  trim_of_head, trim_right_keeps, trim_right_of_inner, trim_right-append,
}
use compute_sdk_go.Cookie.{Cookie}
use compute_sdk_go.Cookie.Pairs.{HasValidName, pair_text-head, trim_right-pair_text}
use compute_sdk_go.Cookie.Request.{pair_text, add_cookie, add_cookies}

module _ {T : Type 0} where
  abbrev pub AllValid : List (Cookie T) → Type 0
  AllValid [] = Unit {0}
  AllValid (c ∷ cs) = HasValidName c.name × AllValid cs

  abbrev pub text : Cookie T → Bytes
  text c = pair_text c.name c.value

  -- What stands behind the first cookie in the field.
  abbrev pub tail_text : List (Cookie T) → Bytes
  tail_text [] = []
  tail_text (c ∷ cs) = b';' ∷ b' ' ∷ (text c ++ tail_text cs)

  pub text_nonempty : (c : Cookie T) → HasValidName c.name → is_empty (text c) ≡ false
  text_nonempty c ok = let (x, xs, e, s) = pair_text-head c.name c.value ok in rw e

  pub text-append_nonempty :
      (c : Cookie T) (ys : Bytes) → HasValidName c.name → is_empty (text c ++ ys) ≡ false
  text-append_nonempty c ys ok = let (x, xs, e, s) = pair_text-head c.name c.value ok in rw e

  pub add_cookie_behind :
      (h : Bytes) (c : Cookie T)
      → is_empty h ≡ false
      → add_cookie (h ∷ []) c ≡ (h ++ b';' ∷ b' ' ∷ text c) ∷ []
  unfolding add_cookie
  add_cookie_behind h c ne = rw ne

  pub add_cookies_behind :
      (cs : List (Cookie T)) (h : Bytes)
      → is_empty h ≡ false
      → add_cookies (h ∷ []) cs ≡ (h ++ tail_text cs) ∷ []
  add_cookies_behind [] h ne = rw append-nil
  add_cookies_behind (c ∷ cs) h ne = rw (add_cookie_behind h c ne) (
      add_cookies_behind cs (h ++ b';' ∷ b' ' ∷ text c) (append_ne h)
      ∙ ap (λ l. l ∷ []) (append_assoc h (b';' ∷ b' ' ∷ text c) (tail_text cs)))
    where
      append_ne : (g : Bytes) → is_empty (g ++ b';' ∷ b' ' ∷ text c) ≡ false
      append_ne [] = refl
      append_ne (x ∷ xs) = refl

  pub add_cookies_first :
      (c : Cookie T) (cs : List (Cookie T))
      → HasValidName c.name
      → add_cookies [] (c ∷ cs) ≡ (text c ++ tail_text cs) ∷ []
  unfolding add_cookie
  add_cookies_first c cs ok = add_cookies_behind cs (text c) (text_nonempty c ok)

  -- The field neither begins nor ends with a space.
  pub trim_right_field :
      (cs : List (Cookie T)) (c : Cookie T)
      → HasValidName c.name
      → AllValid cs
      → trim_right (text c ++ tail_text cs) ≡ text c ++ tail_text cs
  trim_right_field [] c ok h = rw append-nil (trim_right-pair_text c.name c.value ok)
  trim_right_field (d ∷ ds) c ok h = trim_right-append (text c) (tail_text (d ∷ ds)) refl (
      trim_right-append (b';' ∷ b' ' ∷ []) (text d ++ tail_text ds)
        (text-append_nonempty d (tail_text ds) h.0) (trim_right_field ds d h.0 h.1))

  pub trim_of_end :
      (line : Bytes) (c : Cookie T) (ys : Bytes)
      → HasValidName c.name
      → line ≡ text c ++ ys
      → trim_right line ≡ line
      → trim line ≡ line
  trim_of_end line c ys ok e t =
      let (x, xs, at_head, s) = pair_text-head c.name c.value ok in
      let shape : line ≡ x ∷ (xs ++ ys) = e ∙ ap (λ l. l ++ ys) at_head in
      rw shape (trim_of_head x (xs ++ ys) s ∙ sym (trim_right_keeps x (xs ++ ys) s) ∙ rw shape at t)

  pub trim_field :
      (cs : List (Cookie T)) (c : Cookie T)
      → HasValidName c.name
      → AllValid cs
      → trim (text c ++ tail_text cs) ≡ text c ++ tail_text cs
  trim_field cs c ok h =
      trim_of_end (text c ++ tail_text cs) c (tail_text cs) ok refl (trim_right_field cs c ok h)

  pub trim-text : (c : Cookie T) → HasValidName c.name → trim (text c) ≡ text c
  trim-text c ok =
      trim_of_end (text c) c [] ok (sym (append-nil (text c)))
        (trim_right-pair_text c.name c.value ok)

  pub trim_empty_part :
      (c : Cookie T) (rest : Bytes)
      → HasValidName c.name
      → trim (text c ++ b';' ∷ b';' ∷ rest) ≡ text c ++ b';' ∷ b';' ∷ trim_right rest
  trim_empty_part c rest ok =
      let (x, xs, e, s) = pair_text-head c.name c.value ok in
      rw e (
        trim_of_head x (xs ++ b';' ∷ b';' ∷ rest) s
        ∙ ap (◌∷◌ x) (trim_right_of_inner xs b';' (b';' ∷ rest) refl)
        ∙ ap (λ l. x ∷ (xs ++ b';' ∷ l)) (trim_right_keeps b';' rest refl))
