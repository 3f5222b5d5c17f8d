-- ===== src/Cookie/Labels.antt =====
-- fsthttp/cookie.go: the grammar of domain names, and the state of the loop of
-- `isCookieDomainName` in its terms.
use compute_sdk_go.Common.{
  ℕ, ◌+◌, ◌≡◌, refl, Bool, true, false, not, ◌&&◌, ◌||◌, List, [], ◌∷◌, ◌++◌, arith, leb, ◌==◌,
  if◌then◌else◌, Bytes, is_empty, is_letter, is_digit, all, all-append, length, length-append,
}
use compute_sdk_go.Cookie.Domain.{Scan}

abbrev pub is_label_byte : ℕ → Bool
is_label_byte c = is_letter c || is_digit c || c == b'-'

abbrev pub starts_hyphen : Bytes → Bool
starts_hyphen [] = false
starts_hyphen (c ∷ _) = c == b'-'

abbrev pub ends_hyphen : Bytes → Bool
ends_hyphen [] = false
ends_hyphen (c ∷ []) = c == b'-'
ends_hyphen (c ∷ d ∷ u) = ends_hyphen (d ∷ u)

-- A label: up to 63 letters, digits and hyphens, with no hyphen at either end.
abbrev pub is_label : Bytes → Bool
is_label l =
    not (is_empty l)
    && leb (length l) 63
    && all is_label_byte l
    && not (starts_hyphen l)
    && not (ends_hyphen l)

-- Labels with dots between them; the last may be empty, behind a dot at the end.
abbrev pub are_labels : Bytes → List Bytes → Bool
are_labels l [] = is_empty l || is_label l
are_labels l (m ∷ ms) = is_label l && are_labels m ms

abbrev pub has_letter : Bytes → Bool
has_letter [] = false
has_letter (c ∷ cs) = is_letter c || has_letter cs

-- The state of the loop behind `u`, the part of the present label that has been read.
pub record Tracks (u : Bytes) (s : Scan) : Type 0 where
  pub at_dot : (s.last == b'.') ≡ is_empty u
  pub at_hyphen : (s.last == b'-') ≡ ends_hyphen u
  pub len : s.part_len ≡ length u
  pub bytes : all is_label_byte u ≡ true
  pub head : starts_hyphen u ≡ false

pub ends_hyphen_snoc : (u : Bytes) (c : ℕ) → ends_hyphen (u ++ c ∷ []) ≡ (c == b'-')
ends_hyphen_snoc [] c = refl
ends_hyphen_snoc (x ∷ []) c = refl
ends_hyphen_snoc (x ∷ y ∷ u) c = ends_hyphen_snoc (y ∷ u) c

pub is_empty_snoc : (u : Bytes) (c : ℕ) (p : Bytes) → is_empty (u ++ c ∷ p) ≡ false
is_empty_snoc [] c p = refl
is_empty_snoc (x ∷ u) c p = refl

pub starts_hyphen_snoc :
    (u : Bytes) (c : ℕ) (p : Bytes)
    → starts_hyphen (u ++ c ∷ p) ≡ (if is_empty u then c == b'-' else starts_hyphen u)
starts_hyphen_snoc [] c p = refl
starts_hyphen_snoc (x ∷ u) c p = refl

pub all_bad :
    (u : Bytes) (c : ℕ) (p : Bytes)
    → is_label_byte c ≡ false
    → all is_label_byte (u ++ c ∷ p) ≡ false
all_bad [] c p h = ground arith
all_bad (x ∷ u) c p h = ground (arith, all_bad u c p h)

pub are_labels_bad :
    (l : Bytes) (ms : List Bytes)
    → is_empty l ≡ false
    → is_label l ≡ false
    → are_labels l ms ≡ false
are_labels_bad l [] e h = ground arith
are_labels_bad l (m ∷ ms) e h = ground arith

pub snoc-Tracks :
    (u : Bytes) (s t : Scan) (c : ℕ)
    → Tracks u s
    → is_label_byte c ≡ true
    → (is_empty u ≡ true → (c == b'-') ≡ false)
    → t.last ≡ c
    → t.part_len ≡ s.part_len + 1
    → Tracks (u ++ c ∷ []) t
snoc-Tracks u s t c k lb nh tl tp = record {
  at_dot = ground (arith, is_empty_snoc u c []);
  at_hyphen = ground (arith, ends_hyphen_snoc u c);
  len = omega (arith, length-append u (c ∷ []), k.len);
  bytes = all-append is_label_byte u (c ∷ []) (k.bytes) (ground arith);
  head = let h = k.head in ground (arith, starts_hyphen_snoc u c []);
}
