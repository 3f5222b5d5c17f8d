-- ===== src/ImageOpto/Floats.antt =====
-- Floating-point numbers are a parameter: what the package asks of `float32` and `float64`.
-- fsthttp/imageopto/imageopto.go: `fmtFloat`, and the errors of the package.
use compute_sdk_go.Common.{ℕ, Bool, Option, none, some, Bytes, if◌then◌else◌}

pub record Floats (F : Type 0) : Type 0 where
  -- `f != 0` is the negation.
  pub is_zero : F → Bool
  -- `f < n / 10`
  pub below_tenths : F → ℕ → Bool
  -- `f > n`
  pub above : F → ℕ → Bool
  -- `math.Round(1000.0*f) / 1000.0`
  pub nearest3 : F → F
  -- `strconv.FormatFloat(f, 'g', -1, 32)` and the same with 64
  pub format32 : F → Bytes
  pub format64 : F → Bytes

unfoldable pub fmt_float : {F : Type 0} → Floats F → F → Bytes
fmt_float fl f = fl.format64 (fl.nearest3 f)

-- The errors; those about a text carry it.
pub data Invalid : Type 0 where
  region_not_set alpha_range brightness_range contrast_range dpr_range quality_range : Invalid
  saturation_range sharpen_amount sharpen_radius hexcolor_alpha trimcolor_threshold : Invalid
  bad_pixels bad_x bad_y : Bytes → Invalid

-- A check: `none` where there is no error. The first error is returned.
abbrev pub Check : Type 0
Check = Option Invalid

infixl 5 ◌>>◌
abbrev pub ◌>>◌ : Check → Check → Check
none >> k = k
some e >> k = some e

abbrev pub refuse_if : Bool → Invalid → Check
refuse_if bad e = if bad then some e else none

-- A check of a value that may be nil, or may not be set.
abbrev pub optional {ℓ} : {A : Type ℓ} → (A → Check) → Option A → Check
optional check none = none
optional check (some a) = check a
