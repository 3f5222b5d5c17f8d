-- ===== src/Header/Keys.antt =====
-- Canonical keys: canonicalization changes a key once, and the case of letters only.
use compute_sdk_go.Common.{
  ℕ, ◌≡◌, refl, ap, inl, inr, Bool, true, [], ◌∷◌, arith, ◌==◌, all, Bytes, same, lower_byte,
  ascii_lower, Bool-cases, ap₂,
}
use compute_sdk_go.Cookie.Token.{is_token_rune, is_token_table}
use compute_sdk_go.Header.{cased, recase, canonical_header_key}

cased-token : (u : Bool) (c : ℕ) → is_token_rune c ≡ true → is_token_rune (cased u c) ≡ true
unfolding is_token_rune is_token_table
cased-token u c h = ground arith

cased-hyphen : (u : Bool) (c : ℕ) → (cased u c == b'-') ≡ (c == b'-')
cased-hyphen u c = ground arith

cased-cased : (u : Bool) (c : ℕ) → cased u (cased u c) ≡ cased u c
cased-cased u c = ground arith

lower_byte-cased : (u : Bool) (c : ℕ) → lower_byte (cased u c) ≡ lower_byte c
lower_byte-cased u c = ground arith

recase-token :
    (cs : Bytes) (u : Bool) → all is_token_rune cs ≡ true → all is_token_rune (recase u cs) ≡ true
recase-token [] u h = refl
recase-token (c ∷ cs) u h = ground (arith, cased-token u c, recase-token cs (c == b'-'))

recase-recase : (cs : Bytes) (u : Bool) → recase u (recase u cs) ≡ recase u cs
recase-recase [] u = refl
recase-recase (c ∷ cs) u =
    rw (cased-cased u c)
      (rw (cased-hyphen u c) (ap (◌∷◌ (cased u c)) (recase-recase cs (c == b'-'))))

ascii_lower-recase : (cs : Bytes) (u : Bool) → ascii_lower (recase u cs) ≡ ascii_lower cs
ascii_lower-recase [] u = refl
ascii_lower-recase (c ∷ cs) u = ap₂ ◌∷◌ (lower_byte-cased u c) (ascii_lower-recase cs (c == b'-'))

-- A canonical key is left as it is by another canonicalization, and canonicalization changes the
-- case of letters only, so that two keys with one canonical form differ in case at most.
pub canonical_header_key_lem :
    (s : Bytes)
    → (canonical_header_key (canonical_header_key s) ≡ canonical_header_key s)
      × (ascii_lower (canonical_header_key s) ≡ ascii_lower s)
unfolding canonical_header_key
canonical_header_key_lem s = elim (Bool-cases (all is_token_rune s)) [
  | inl e ↦ rw e (rw (recase-token s true e) (recase-recase s true, ascii_lower-recase s true))
  | inr e ↦ rw e (rw e (refl, refl))
]

pub same_refl : (s : Bytes) → same s s ≡ true
same_refl [] = refl
same_refl (c ∷ cs) = ground (arith, same_refl cs)

pub same_sound : (s t : Bytes) → same s t ≡ true → s ≡ t
same_sound [] [] h = refl
same_sound [] (d ∷ t) h = cc
same_sound (c ∷ s) [] h = cc
same_sound (c ∷ s) (d ∷ t) h = ground (arith, same_sound s t)
