-- ===== src/ImageOpto/Axes.antt =====
-- The texts of positions that pass their checks.
use compute_sdk_go.Common.{
  ℕ, ◌≡◌, ◌⊎◌, refl, ap, inl, inr, true, some, [], ◌∷◌, ◌++◌, arith, ◌==◌, ==_iff, and_split,
  Bool-cases, Option-cases, Bytes, codes, is_digit,
}
use mathlib.Core.Bool.{false≢true}
use compute_sdk_go.ImageOpto.Area.{
  begins_axis, digits_only, strip_prefix, is_offset, ends_offset, matches_position,
}
use compute_sdk_go.ImageOpto.Texts.{Digits}

-- A position on an axis: the letter of the axis and a digit at the beginning, with any text behind
-- them, or `offset-`, the letter and digits at the end, with any text before them.
abbrev pub IsOnAxis : ℕ → Bytes → Type 0
IsOnAxis axis s =
    ((d : ℕ) × (more : Bytes) × (s ≡ axis ∷ d ∷ more) × (is_digit d ≡ true))
    ⊎ ((before ds : Bytes) × (s ≡ before ++ (codes "offset-" ++ (axis ∷ ds))) × Digits ds)

strip_prefix-append : (ps s rest : Bytes) → strip_prefix ps s ≡ some rest → s ≡ ps ++ rest
strip_prefix-append [] s rest h = cc
strip_prefix-append (p ∷ ps) [] rest h = absurd (ground arith)
strip_prefix-append (p ∷ ps) (c ∷ cs) rest h = elim (Bool-cases (p == c)) [
  | inl e ↦
      let k : p ≡ c = (==_iff p c).0 e in
      let t : cs ≡ ps ++ rest = strip_prefix-append ps cs rest (rw e at h) in cc
  | inr e ↦ absurd (ground arith)
]

begins_axis-IsOnAxis : (axis : ℕ) (s : Bytes) → begins_axis axis s ≡ true → IsOnAxis axis s
begins_axis-IsOnAxis axis (c ∷ d ∷ cs) h =
    let (e, i) = and_split (c == axis) (is_digit d) h in
    let k : c ≡ axis = (==_iff c axis).0 e in inl (d, cs, ap (λ a. a ∷ d ∷ cs) k, i)
begins_axis-IsOnAxis axis [] h = absurd (false≢true h)
begins_axis-IsOnAxis axis (c ∷ []) h = absurd (false≢true h)

digits_only-Digits : (s : Bytes) → digits_only s ≡ true → Digits s
digits_only-Digits [] h = absurd (false≢true h)
digits_only-Digits (c ∷ cs) h = record { not_empty = refl; digits = h }

abbrev Offset : ℕ → Bytes → Type 0
Offset axis s = (before ds : Bytes) × (s ≡ before ++ (codes "offset-" ++ (axis ∷ ds))) × Digits ds

is_offset-Offset : (axis : ℕ) (s : Bytes) → is_offset axis s ≡ true → Offset axis s
is_offset-Offset axis s h = elim (Option-cases (strip_prefix (codes "offset-" ++ axis ∷ []) s)) [
  | inl e ↦ absurd (false≢true (rw e at h))
  | inr (rest, e) ↦ (
    [],
    rest,
    strip_prefix-append (codes "offset-" ++ axis ∷ []) s rest e,
    digits_only-Digits rest (rw e at h),
  )
]

ends_offset-Offset : (axis : ℕ) (s : Bytes) → ends_offset axis s ≡ true → Offset axis s
unfolding ends_offset
ends_offset-Offset axis [] h = absurd (false≢true h)
ends_offset-Offset axis (c ∷ cs) h = elim (Bool-cases (is_offset axis (c ∷ cs))) [
  | inl e ↦ is_offset-Offset axis (c ∷ cs) e
  | inr e ↦
      let (before, ds, k, d) = ends_offset-Offset axis cs (rw e at h) in
      (c ∷ before, ds, ap (λ t. c ∷ t) k, d)
]

pub matches_position-IsOnAxis :
    (axis : ℕ) (s : Bytes) → matches_position axis s ≡ true → IsOnAxis axis s
unfolding matches_position
matches_position-IsOnAxis axis s h = elim (Bool-cases (begins_axis axis s)) [
  | inl e ↦ begins_axis-IsOnAxis axis s e
  | inr e ↦ inr (ends_offset-Offset axis s (rw e at h))
]
