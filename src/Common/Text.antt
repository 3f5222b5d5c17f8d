-- ===== src/Common/Text.antt =====
-- Laws of the text functions: cutting at a separator, trimming, and equality.
use mathlib.Core.Bool.{not}
use compute_sdk_go.Common.{
  ℕ, ◌+◌, ◌≡◌, refl, ◌∙◌, ◌↔◌, inl, inr, Bool, true, false, [], ◌∷◌, ◌++◌, none, some, arith, ◌==◌,
  ==_iff, Bool-cases, Option-cases, Bytes, is_empty, is_space, trim, trim_left, trim_right, cut,
  contains, same, length, all, split,
}

pub contains-append :
    (b : ℕ) (xs ys : Bytes)
    → contains b xs ≡ false
    → contains b ys ≡ false
    → contains b (xs ++ ys) ≡ false
unfolding contains
contains-append b [] ys h k = k
contains-append b (x ∷ xs) ys h k = ground (arith, contains-append b xs ys)

-- A text all of whose bytes pass a test that `b` fails does not contain `b`.
pub contains_of_all :
    (p : ℕ → Bool) (b : ℕ) → p b ≡ false → (xs : Bytes) → all p xs ≡ true → contains b xs ≡ false
unfolding contains
contains_of_all p b h [] k = refl
contains_of_all p b h (x ∷ xs) k = elim (Bool-cases (x == b)) [
  | inl e ↦
      let same_byte : x ≡ b = (==_iff x b).0 e in
      let px : p x ≡ false = rw same_byte h in ground (arith, px)
  | inr ne ↦ rw ne (contains_of_all p b h xs (ground arith))
]

pub cut-append :
    (b : ℕ) (xs ys : Bytes) → contains b xs ≡ false → cut b (xs ++ b ∷ ys) ≡ some (xs, ys)
unfolding cut contains
cut-append b [] ys h = ground arith
cut-append b (x ∷ xs) ys h = ground (arith, cut-append b xs ys)

pub cut_of_absent : (b : ℕ) (xs : Bytes) → contains b xs ≡ false → cut b xs ≡ none
unfolding cut contains
cut_of_absent b [] h = refl
cut_of_absent b (x ∷ xs) h = ground (arith, cut_of_absent b xs)

-- The two slices and the separator make up the text.
pub cut-length :
    (b : ℕ) (s p r : Bytes) → cut b s ≡ some (p, r) → length s ≡ length p + length r + 1
unfolding cut
cut-length b [] p r h = cc
cut-length b (c ∷ cs) p r h = elim (Bool-cases (c == b)) [
  | inl e ↦ ground arith
  | inr ne ↦ elim (Option-cases (cut b cs)) [
    | inl e ↦ ground arith
    | inr ((p', r'), e) ↦ ground (arith, cut-length b cs p' r' e)
  ]
]

pub trim_right_keeps :
    (c : ℕ) (cs : Bytes) → is_space c ≡ false → trim_right (c ∷ cs) ≡ c ∷ trim_right cs
unfolding trim_right
trim_right_keeps c cs h = ground arith

-- A text that begins with no space is trimmed at its right end only.
pub trim_of_head : (c : ℕ) (cs : Bytes) → is_space c ≡ false → trim (c ∷ cs) ≡ c ∷ trim_right cs
unfolding trim trim_left trim_right
trim_of_head c cs h = ground arith

trim_right_of_last :
    (xs : Bytes) (c : ℕ) → is_space c ≡ false → trim_right (xs ++ c ∷ []) ≡ xs ++ c ∷ []
unfolding trim_right
trim_right_of_last [] c h = ground arith
trim_right_of_last (x ∷ xs) c h =
    rw (trim_right_of_last xs c h) (ground (arith, append_nonempty xs c))
  where
    append_nonempty : (ys : Bytes) (d : ℕ) → is_empty (ys ++ d ∷ []) ≡ false
    append_nonempty [] d = refl
    append_nonempty (y ∷ ys) d = refl

-- A text whose first and last byte are no spaces stays as it is.
pub trim_of_ends :
    (c : ℕ) (xs : Bytes) (d : ℕ)
    → is_space c ≡ false
    → is_space d ≡ false
    → trim (c ∷ (xs ++ d ∷ [])) ≡ c ∷ (xs ++ d ∷ [])
trim_of_ends c xs d h k = trim_of_head c (xs ++ d ∷ []) h ∙ rw (trim_right_of_last xs d k)

pub trim_of_space : (s : Bytes) → trim (b' ' ∷ s) ≡ trim s
unfolding trim trim_left
trim_of_space s = refl

pub same_iff : (a b : Bytes) → (same a b ≡ true) ↔ (a ≡ b)
same_iff (x ∷ a) (y ∷ b) = ground (arith, same_iff a b)
same_iff _ _ = ground arith

append_nonempty : (xs ys : Bytes) → is_empty ys ≡ false → is_empty (xs ++ ys) ≡ false
append_nonempty [] ys h = h
append_nonempty (x ∷ xs) ys h = refl

-- Only the end of a text decides what `trim_right` does to it.
pub trim_right-append :
    (xs ys : Bytes) → is_empty ys ≡ false → trim_right ys ≡ ys → trim_right (xs ++ ys) ≡ xs ++ ys
unfolding trim_right
trim_right-append [] ys h k = k
trim_right-append (x ∷ xs) ys h k =
    rw (trim_right-append xs ys h k) (ground (arith, append_nonempty xs ys h))

abbrev pub is_solid : ℕ → Bool
is_solid c = not (is_space c)

pub trim_right_of_solid : (xs : Bytes) → all is_solid xs ≡ true → trim_right xs ≡ xs
unfolding trim_right
trim_right_of_solid [] h = refl
trim_right_of_solid (x ∷ xs) h = rw (trim_right_of_solid xs (ground arith)) (ground arith)

-- A byte that is no space shields what stands before it.
pub trim_right_of_inner :
    (xs : Bytes) (c : ℕ) (ys : Bytes)
    → is_space c ≡ false
    → trim_right (xs ++ c ∷ ys) ≡ xs ++ c ∷ trim_right ys
unfolding trim_right
trim_right_of_inner [] c ys h = trim_right_keeps c ys h
trim_right_of_inner (x ∷ xs) c ys h =
    rw (trim_right_of_inner xs c ys h) (ground (arith, append_nonempty xs (c ∷ trim_right ys) refl))

pub split_of_clear : (b : ℕ) (xs : Bytes) → contains b xs ≡ false → split b xs ≡ (xs, [])
unfolding split contains
split_of_clear b [] h = refl
split_of_clear b (x ∷ xs) h = ground (arith, split_of_clear b xs)

pub split-append :
    (b : ℕ) (xs ys : Bytes)
    → contains b xs ≡ false
    → split b (xs ++ b ∷ ys) ≡ (xs, (split b ys).0 ∷ (split b ys).1)
unfolding split contains
split-append b [] ys h = ground arith
split-append b (x ∷ xs) ys h = ground (arith, split-append b xs ys)
