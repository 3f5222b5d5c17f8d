-- ===== src/ImageOpto/Modes.antt =====
-- fsthttp/imageopto/imageopto.go: colours, black and white, blur and sharpening.
use compute_sdk_go.Common.{ℕ, Bool, ◌||◌, [], ◌∷◌, ◌++◌, ltb, if◌then◌else◌, Bytes, codes}
use compute_sdk_go.Common.Int.{decimal}
use compute_sdk_go.ImageOpto.Floats.{
  Floats, fmt_float, Check, ◌>>◌, refuse_if, hexcolor_alpha, trimcolor_threshold, sharpen_amount,
  sharpen_radius,
}

pub record HexColor (F : Type 0) : Type 0 where
  pub r : ℕ
  pub g : ℕ
  pub b : ℕ
  pub alpha : F

pub record TrimColor (F : Type 0) : Type 0 where
  pub color : HexColor F
  pub threshold : F

-- `BWMode`, by its state.
pub data BwMode : Type 0 where
  no_bw default_threshold atkinson : BwMode
  luminance_threshold : ℕ → BwMode

unfoldable pub bw_string : BwMode → Bytes
unfolding decimal
bw_string no_bw = []
bw_string atkinson = codes "atkinson"
bw_string default_threshold = codes "threshold"
bw_string (luminance_threshold n) = codes "threshold," ++ decimal n

-- `BlurMode`, by its state.
pub data BlurMode (F : Type 0) : Type 0 where
  no_blur : BlurMode F
  blur_pixels blur_percentage : F → BlurMode F

pub record Sharpen (F : Type 0) : Type 0 where
  pub amount : ℕ
  pub radius : F
  pub threshold : ℕ

module _ {F : Type 0} (fl : Floats F) where
  -- `f < 0.0 || f > n`
  abbrev pub out_of : ℕ → F → Bool
  out_of n f = fl.below_tenths f 0 || fl.above f n

  unfoldable pub hexcolor_string : HexColor F → Bytes
  unfolding decimal
  hexcolor_string h =
      decimal h.r ++ b',' ∷ (decimal h.g ++ b',' ∷ (decimal h.b ++ b',' ∷ fl.format32 h.alpha))

  unfoldable pub validate_hexcolor : HexColor F → Check
  validate_hexcolor h = refuse_if (out_of 1 h.alpha) hexcolor_alpha

  unfoldable pub trimcolor_string : TrimColor F → Bytes
  unfolding hexcolor_string fmt_float
  trimcolor_string t =
      if fl.is_zero t.threshold
      then hexcolor_string t.color
      else hexcolor_string t.color ++ b',' ∷ b't' ∷ fmt_float fl t.threshold

  unfoldable pub validate_trimcolor : TrimColor F → Check
  unfolding validate_hexcolor
  validate_trimcolor t =
      validate_hexcolor t.color >> refuse_if (out_of 1 t.threshold) trimcolor_threshold

  unfoldable pub blur_string : BlurMode F → Bytes
  blur_string no_blur = []
  blur_string (blur_percentage p) = fl.format64 p ++ b'p' ∷ []
  blur_string (blur_pixels p) = fl.format64 p

  unfoldable pub sharpen_string : Sharpen F → Bytes
  unfolding decimal fmt_float
  sharpen_string s =
      b'a'
      ∷ (decimal s.amount
          ++ b',' ∷ b'r' ∷ (fmt_float fl s.radius ++ b',' ∷ b't' ∷ decimal s.threshold))

  unfoldable pub validate_sharpen : Sharpen F → Check
  validate_sharpen s =
      refuse_if (ltb 10 s.amount) sharpen_amount
      >> refuse_if (fl.below_tenths s.radius 5 || fl.above s.radius 1000) sharpen_radius
