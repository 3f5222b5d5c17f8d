-- ===== src/ImageOpto/Steps.antt =====
-- The steps of the automaton of lengths.
use compute_sdk_go.Common.{
  ℕ, ◌≡◌, refl, sym, ◌∙◌, true, false, none, some, [], ◌∷◌, ◌==◌, ==_iff, Bytes, is_digit,
}
use mathlib.Core.Bool.{false≢true}
use compute_sdk_go.ImageOpto.Area.{
  PixelState, at_start, in_whole, at_point, in_fraction, at_end, pixel_step, pixel_run,
}

pub run_step :
    (s t : PixelState) (c : ℕ) (cs : Bytes)
    → pixel_step s c ≡ some t
    → pixel_run s (c ∷ cs) ≡ pixel_run t cs
unfolding pixel_run
run_step s t c cs e = rw (pixel_run, e) refl

pub run_stuck :
    (s : PixelState) (c : ℕ) (cs : Bytes) → pixel_step s c ≡ none → pixel_run s (c ∷ cs) ≡ false
unfolding pixel_run
run_stuck s c cs e = rw (pixel_run, e) refl

pub at_end-nil : (s : Bytes) → pixel_run at_end s ≡ true → s ≡ []
at_end-nil [] h = refl
at_end-nil (c ∷ cs) h =
    absurd (false≢true (sym (run_stuck at_end c cs (unfold pixel_step in refl)) ∙ h))

module _ (c : ℕ) where
  pub step_digit :
      is_digit c ≡ true
      → (pixel_step at_start c ≡ some in_whole)
        × (pixel_step in_whole c ≡ some in_whole)
        × (pixel_step at_point c ≡ some in_fraction)
        × (pixel_step in_fraction c ≡ some in_fraction)
  unfolding pixel_step
  step_digit d = rw d (refl, refl, refl, refl)

  pub step_no_digit :
      is_digit c ≡ false → (pixel_step at_start c ≡ none) × (pixel_step at_point c ≡ none)
  unfolding pixel_step
  step_no_digit d = rw d (refl, refl)

  pub step_percent :
      is_digit c ≡ false
      → (c == b'p') ≡ true
      → (pixel_step in_whole c ≡ some at_end) × (pixel_step in_fraction c ≡ some at_end)
  unfolding pixel_step
  step_percent d p = let e : c ≡ b'p' = (==_iff c b'p').0 p in rw e (refl, refl)

  pub step_point : (c == b'.') ≡ true → pixel_step in_whole c ≡ some at_point
  unfolding pixel_step
  step_point p = let e : c ≡ b'.' = (==_iff c b'.').0 p in rw e refl

  pub step_other :
      is_digit c ≡ false
      → (c == b'p') ≡ false
      → (pixel_step in_fraction c ≡ none) × ((c == b'.') ≡ false → pixel_step in_whole c ≡ none)
  unfolding pixel_step
  step_other d p = (rw (d, p) refl, λ q. rw (d, p, q) refl)

pub stuck_absurd {ℓ} :
    {A : Type ℓ} (s : PixelState) (c : ℕ) (cs : Bytes)
    → pixel_step s c ≡ none
    → pixel_run s (c ∷ cs) ≡ true
    → A
stuck_absurd s c cs e h = absurd (false≢true (sym (run_stuck s c cs e) ∙ h))
