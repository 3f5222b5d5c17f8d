-- ===== src/Cookie/Attrs.antt =====
-- fsthttp/cookie.go: the attributes of a `Set-Cookie` line as a list of texts.
use compute_sdk_go.Common.{
  ℕ, ◌≡◌, refl, sym, ap, ◌∙◌, false, List, [], ◌∷◌, ◌++◌, map, append-nil, append_assoc, Bytes,
  is_empty, is_space, trim, trim_right, split, contains, some, none,
}
use compute_sdk_go.Common.Text.{
  contains-append, cut-append, trim_right_keeps, trim_of_head, trim_of_space, trim_right-append,
  trim_right_of_inner, split_of_clear, split-append,
}
use compute_sdk_go.Cookie.{Cookie, TimeLib}
use compute_sdk_go.Cookie.Token.{to_lower}
use compute_sdk_go.Cookie.Value.{parse_cookie_value}
use compute_sdk_go.Cookie.Read.{name_and_value, add_unparsed, set_attr, read_attr, read_attrs}

-- The texts, each behind a semicolon and a space.
abbrev pub spread : List Bytes → Bytes
spread [] = []
spread (t ∷ ts) = b';' ∷ b' ' ∷ (t ++ spread ts)

pub spread-append : (ts us : List Bytes) → spread (ts ++ us) ≡ spread ts ++ spread us
spread-append [] us = refl
spread-append (t ∷ ts) us =
    ap (λ l. b';' ∷ b' ' ∷ l)
      (ap (λ l. t ++ l) (spread-append ts us) ∙ sym (append_assoc t (spread ts) (spread us)))

-- A text that is one part of a line, with no space at its ends.
pub record IsPart (t : Bytes) : Type 0 where
  pub clear : contains b';' t ≡ false
  pub whole : trim t ≡ t
  pub ended : trim_right t ≡ t
  pub solid : is_empty t ≡ false

abbrev pub AllParts : List Bytes → Type 0
AllParts [] = Unit {0}
AllParts (t ∷ ts) = IsPart t × AllParts ts

pub AllParts-append : (ts us : List Bytes) → AllParts ts → AllParts us → AllParts (ts ++ us)
AllParts-append [] us h k = k
AllParts-append (t ∷ ts) us (p, h) k = (p, AllParts-append ts us h k)

append_solid : (t s : Bytes) → is_empty t ≡ false → is_empty (t ++ s) ≡ false
append_solid [] s h = cc
append_solid (x ∷ t) s h = refl

pub trim_right-spread :
    (ts : List Bytes) (t : Bytes)
    → IsPart t
    → AllParts ts
    → trim_right (t ++ spread ts) ≡ t ++ spread ts
trim_right-spread [] t p h = rw append-nil (p.ended)
trim_right-spread (u ∷ us) t p (q, h) = trim_right-append t (spread (u ∷ us)) refl (
    trim_right-append (b';' ∷ b' ' ∷ []) (u ++ spread us) (append_solid u (spread us) (q.solid))
      (trim_right-spread us u q h))

-- A line of parts splits at its semicolons into them, each behind its space.
pub split-spread :
    (ts : List Bytes) (t : Bytes)
    → contains b';' t ≡ false
    → AllParts ts
    → split b';' (t ++ spread ts) ≡ (t, map (λ u. b' ' ∷ u) ts)
split-spread [] t c h = rw append-nil (split_of_clear b';' t c)
split-spread (u ∷ us) t c (q, h) =
    split-append b';' t (b' ' ∷ (u ++ spread us)) c
    ∙ ap (λ p. (t, p.0 ∷ p.1)) (split-spread us (b' ' ∷ u) (unfold contains in q.clear) h)

module _ {T : Type 0} (time : TimeLib T) where
  abbrev pub fold_attrs : Cookie T → List Bytes → Cookie T
  fold_attrs c [] = c
  fold_attrs c (t ∷ ts) = fold_attrs (read_attr time c t) ts

  pub fold_attrs-append :
      (ts us : List Bytes) (c : Cookie T)
      → fold_attrs c (ts ++ us) ≡ fold_attrs (fold_attrs c ts) us
  fold_attrs-append [] us c = refl
  fold_attrs-append (t ∷ ts) us c = fold_attrs-append ts us (read_attr time c t)

  pub read_attrs-spaced :
      (ts : List Bytes) (c : Cookie T)
      → AllParts ts
      → read_attrs time c (map (λ u. b' ' ∷ u) ts) ≡ fold_attrs c ts
  unfolding read_attrs
  read_attrs-spaced [] c h = refl
  read_attrs-spaced (t ∷ ts) c (p, h) =
      ap (λ u. read_attrs time (read_attr time c u) (map (λ u. b' ' ∷ u) ts))
        (trim_of_space t ∙ p.whole)
      ∙ read_attrs-spaced ts (read_attr time c t) h

  -- A pair of a key and a value.
  pub read_attr-pair :
      (k : ℕ) (ks lower v : Bytes) (c : Cookie T)
      → contains b'=' (k ∷ ks) ≡ false
      → to_lower (k ∷ ks) ≡ some lower
      → parse_cookie_value v false ≡ some v
      → read_attr time c (k ∷ (ks ++ b'=' ∷ v)) ≡ set_attr time c (k ∷ (ks ++ b'=' ∷ v)) lower v
  unfolding read_attr
  read_attr-pair k ks lower v c eq low ok =
      let pieces : name_and_value (k ∷ (ks ++ b'=' ∷ v)) ≡ (k ∷ ks, v) =
        rw (cut-append b'=' (k ∷ ks) v eq, name_and_value) refl in
      ap
        (λ p. elim (to_lower p.0) [
          | none ↦ c
          | some l ↦ elim (parse_cookie_value p.1 false) [
            | none ↦ add_unparsed time c (k ∷ (ks ++ b'=' ∷ v))
            | some w ↦ set_attr time c (k ∷ (ks ++ b'=' ∷ v)) l w
          ]
        ])
        pieces
      ∙ rw low (rw ok refl)

pub pair-IsPart :
    (k : ℕ) (ks v : Bytes)
    → is_space k ≡ false
    → contains b';' (k ∷ ks) ≡ false
    → contains b';' v ≡ false
    → trim_right v ≡ v
    → IsPart (k ∷ (ks ++ b'=' ∷ v))
pair-IsPart k ks v s ck cv tv =
    let end : trim_right (k ∷ (ks ++ b'=' ∷ v)) ≡ k ∷ (ks ++ b'=' ∷ v) =
      trim_right_of_inner (k ∷ ks) b'=' v refl ∙ ap (λ l. k ∷ (ks ++ b'=' ∷ l)) tv in
    record {
      clear = contains-append b';' (k ∷ ks) (b'=' ∷ v) ck (unfold contains in cv);
      whole = trim_of_head k (ks ++ b'=' ∷ v) s ∙ sym (trim_right_keeps k (ks ++ b'=' ∷ v) s) ∙ end;
      ended = end;
      solid = refl;
    }
