-- ===== src/ImageOpto/Texts.antt =====
-- The texts of lengths and positions that pass their checks, without the automaton: as their parts.
use compute_sdk_go.Common.{
  ℕ, ◌≡◌, ◌⊎◌, refl, sym, ◌∙◌, ap, inl, inr, true, false, [], ◌∷◌, ◌++◌, ◌==◌, ==_iff, and_split,
  Bool-cases, all, Bytes, is_empty, is_digit,
}
use mathlib.Core.Bool.{false≢true}
use compute_sdk_go.ImageOpto.Area.{
  at_start, in_whole, at_point, in_fraction, at_end, pixel_step, pixel_run,
}
use compute_sdk_go.ImageOpto.Steps.{
  run_step, at_end-nil, stuck_absurd, step_digit, step_no_digit, step_percent, step_point,
  step_other,
}

-- One digit or more.
pub record Digits (s : Bytes) : Type 0 where
  pub not_empty : is_empty s ≡ false
  pub digits : all is_digit s ≡ true

-- Nothing, or a point and digits.
abbrev pub IsFraction : Bytes → Type 0
IsFraction s = (s ≡ []) ⊎ ((ds : Bytes) × (s ≡ b'.' ∷ ds) × Digits ds)

-- Nothing, or `p` for a percentage.
abbrev pub IsPercent : Bytes → Type 0
IsPercent s = (s ≡ []) ⊎ (s ≡ b'p' ∷ [])

-- A number, with a fraction or without, in pixels or as a percentage.
abbrev pub IsNumber : Bytes → Type 0
IsNumber s =
    (whole fraction percent : Bytes) × (s ≡ whole ++ (fraction ++ percent))
    × Digits whole
    × IsFraction fraction
    × IsPercent percent

-- Behind digits: a suffix that is a percentage, or not.
abbrev BehindPoint : Bytes → Type 0
BehindPoint s =
    (ds percent : Bytes) × (s ≡ ds ++ percent) × (all is_digit ds ≡ true) × IsPercent percent

percent_of :
    (c : ℕ) (cs : Bytes) → (c == b'p') ≡ true → pixel_run at_end cs ≡ true → c ∷ cs ≡ b'p' ∷ []
percent_of c cs p h =
    let e : c ≡ b'p' = (==_iff c b'p').0 p in let n : cs ≡ [] = at_end-nil cs h in cc

fraction_run : (s : Bytes) → pixel_run in_fraction s ≡ true → BehindPoint s
fraction_run [] h = ([], [], refl, refl, inl refl)
fraction_run (c ∷ cs) h = elim (Bool-cases (is_digit c)) [
  | inl d ↦
      let (ds, u, e, a, i) =
        fraction_run cs (sym (run_step in_fraction in_fraction c cs (step_digit c d).3) ∙ h) in
      (c ∷ ds, u, ap (λ t. c ∷ t) e, rw d a, i)
  | inr d ↦ elim (Bool-cases (c == b'p')) [
    | inl p ↦
        let n = sym (run_step in_fraction at_end c cs (step_percent c d p).1) ∙ h in
        ([], c ∷ cs, refl, refl, inr (percent_of c cs p n))
    | inr p ↦ stuck_absurd in_fraction c cs (step_other c d p).0 h
  ]
]

-- Behind the first digit.
abbrev BehindDigit : Bytes → Type 0
BehindDigit s =
    (ds fraction percent : Bytes) × (s ≡ ds ++ (fraction ++ percent))
    × (all is_digit ds ≡ true)
    × IsFraction fraction
    × IsPercent percent

point_run :
    (cs : Bytes)
    → pixel_run at_point cs ≡ true
    → (ds percent : Bytes) × (cs ≡ ds ++ percent) × Digits ds × IsPercent percent
unfolding pixel_run
point_run [] h = absurd (false≢true h)
point_run (c ∷ cs) h = elim (Bool-cases (is_digit c)) [
  | inl d ↦
      let (ds, u, e, a, i) =
        fraction_run cs (sym (run_step at_point in_fraction c cs (step_digit c d).2) ∙ h) in
      (c ∷ ds, u, ap (λ t. c ∷ t) e, record { not_empty = refl; digits = rw d a }, i)
  | inr d ↦ stuck_absurd at_point c cs (step_no_digit c d).1 h
]

whole_run : (s : Bytes) → pixel_run in_whole s ≡ true → BehindDigit s
whole_run [] h = ([], [], [], refl, refl, inl refl, inl refl)
whole_run (c ∷ cs) h = elim (Bool-cases (is_digit c)) [
  | inl d ↦
      let (ds, f, u, e, a, i, j) =
        whole_run cs (sym (run_step in_whole in_whole c cs (step_digit c d).1) ∙ h) in
      (c ∷ ds, f, u, ap (λ t. c ∷ t) e, rw d a, i, j)
  | inr d ↦ elim (Bool-cases (c == b'p')) [
    | inl p ↦
        let n = sym (run_step in_whole at_end c cs (step_percent c d p).0) ∙ h in
        ([], [], c ∷ cs, refl, refl, inl refl, inr (percent_of c cs p n))
    | inr p ↦ elim (Bool-cases (c == b'.')) [
      | inl q ↦
          let (ds, u, e, a, i) =
            point_run cs (sym (run_step in_whole at_point c cs (step_point c q)) ∙ h) in
          let k : c ≡ b'.' = (==_iff c b'.').0 q in
          (
            [],
            b'.' ∷ ds,
            u,
            ap (λ t. c ∷ t) e ∙ ap (λ b. b ∷ (ds ++ u)) k,
            refl,
            inr (ds, refl, a),
            i,
          )
      | inr q ↦ stuck_absurd in_whole c cs ((step_other c d p).1 q) h
    ]
  ]
]

-- A text that the automaton accepts is a number.
pub pixel_run-IsNumber : (s : Bytes) → pixel_run at_start s ≡ true → IsNumber s
unfolding pixel_run
pixel_run-IsNumber [] h = absurd (false≢true h)
pixel_run-IsNumber (c ∷ cs) h = elim (Bool-cases (is_digit c)) [
  | inl d ↦
      let (ds, f, u, e, a, i, j) =
        whole_run cs (sym (run_step at_start in_whole c cs (step_digit c d).0) ∙ h) in
      (c ∷ ds, f, u, ap (λ t. c ∷ t) e, record { not_empty = refl; digits = rw d a }, i, j)
  | inr d ↦ stuck_absurd at_start c cs (step_no_digit c d).0 h
]

percent_runs :
    (u : Bytes) → IsPercent u → (pixel_run in_whole u ≡ true) × (pixel_run in_fraction u ≡ true)
unfolding pixel_run pixel_step
percent_runs u (inl e) = rw e (refl, refl)
percent_runs u (inr e) = rw e (refl, refl)

digits_run :
    (ds u : Bytes)
    → all is_digit ds ≡ true
    → (pixel_run in_whole (ds ++ u) ≡ pixel_run in_whole u)
      × (pixel_run in_fraction (ds ++ u) ≡ pixel_run in_fraction u)
digits_run [] u h = (refl, refl)
digits_run (d ∷ ds) u h =
    let (a, b) = and_split (is_digit d) (all is_digit ds) h in
    let s = step_digit d a in
    let (w, f) = digits_run ds u b in
    (
      run_step in_whole in_whole d (ds ++ u) s.1 ∙ w,
      run_step in_fraction in_fraction d (ds ++ u) s.3 ∙ f,
    )

point_runs : (ds u : Bytes) → Digits ds → IsPercent u → pixel_run in_whole (b'.' ∷ (ds ++ u)) ≡ true
point_runs [] u d p = absurd (false≢true (sym d.not_empty))
point_runs (d ∷ ds) u h p =
    let (a, b) = and_split (is_digit d) (all is_digit ds) h.digits in
    run_step in_whole at_point b'.' (d ∷ ds ++ u) (step_point b'.' refl)
    ∙ run_step at_point in_fraction d (ds ++ u) (step_digit d a).2
    ∙ (digits_run ds u b).1
    ∙ (percent_runs u p).1

fraction_runs : (f u : Bytes) → IsFraction f → IsPercent u → pixel_run in_whole (f ++ u) ≡ true
fraction_runs f u (inl e) p = rw e (percent_runs u p).0
fraction_runs f u (inr (ds, e, d)) p = rw e (point_runs ds u d p)

-- And it accepts every number.
pub IsNumber-pixel_run : (s : Bytes) → IsNumber s → pixel_run at_start s ≡ true
IsNumber-pixel_run s ([], f, u, e, d, i, j) = absurd (false≢true (sym d.not_empty))
IsNumber-pixel_run s (d ∷ ds, f, u, e, h, i, j) =
    let (a, b) = and_split (is_digit d) (all is_digit ds) h.digits in
    ap (pixel_run at_start) e
    ∙ run_step at_start in_whole d (ds ++ (f ++ u)) (step_digit d a).0
    ∙ (digits_run ds (f ++ u) b).0
    ∙ fraction_runs f u i j
