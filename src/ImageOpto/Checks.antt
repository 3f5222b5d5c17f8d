-- ===== src/ImageOpto/Checks.antt =====
-- What `validateParams` lets through.
use compute_sdk_go.Common.{ltb, Bool, ◌||◌, ℕ, ◌≤◌, ◌≡◌, false, none, arith, is_empty}
use compute_sdk_go.ImageOpto.Floats.{Floats, refuse_if, alpha_range}
use compute_sdk_go.ImageOpto.Modes.{
  HexColor, TrimColor, Sharpen, out_of, validate_sharpen, validate_hexcolor, validate_trimcolor,
}
use compute_sdk_go.ImageOpto.Options.{Options, validate_params}
use compute_sdk_go.ImageOpto.Ranges.{
  within_100, set-IsLength, each, crop-IsCrop, canvas-IsCanvas, sides-AreSides, >>-none,
  refuse_if-none, IsWithin100, IsLength, IsCrop, IsCanvas, AreSides, Each,
}

module _ {F : Type 0} (fl : Floats F) where
  -- Not below 0 and not above the bound.
  abbrev pub IsUpTo : ℕ → F → Type 0
  IsUpTo n f = (fl.below_tenths f 0 ≡ false) × (fl.above f n ≡ false)

  abbrev pub IsSharpen : Sharpen F → Type 0
  IsSharpen s =
      (s.amount ≤ 10) × (fl.below_tenths s.radius 5 ≡ false) × (fl.above s.radius 1000 ≡ false)

  -- The ranges of the options.
  pub record InRange (o : Options F) : Type 0 where
    pub region_set : is_empty o.region ≡ false
    pub bg_color_in : Each (λ c. IsUpTo 1 c.alpha) o.bg_color
    pub brightness_in : IsWithin100 o.brightness
    pub canvas_in : Each IsCanvas o.canvas
    pub contrast_in : IsWithin100 o.contrast
    pub crop_in : Each IsCrop o.crop
    pub dpr_in : fl.is_zero o.dpr ≡ false → IsUpTo 10 o.dpr
    pub height_in : IsLength o.height
    pub pad_in : Each AreSides o.pad
    pub precrop_in : Each IsCrop o.precrop
    pub quality_in : o.quality ≤ 100
    pub saturation_in : IsWithin100 o.saturation
    pub sharpen_in : Each IsSharpen o.sharpen
    pub trim_sides_in : Each AreSides o.trim_sides
    pub trim_color_in : Each (λ t. IsUpTo 1 t.color.alpha × IsUpTo 1 t.threshold) o.trim_color
    pub width_in : IsLength o.width

or-false : (a b : Bool) → (a || b) ≡ false → (a ≡ false) × (b ≡ false)
or-false a b h = ground arith

module _ {F : Type 0} (fl : Floats F) where
  up_to : (n : ℕ) (f : F) → out_of fl n f ≡ false → IsUpTo fl n f
  up_to n f h = ground arith

  sharpen-IsSharpen : (s : Sharpen F) → validate_sharpen fl s ≡ none → IsSharpen fl s
  unfolding validate_sharpen
  sharpen-IsSharpen s h =
      let (amount, radius) = >>-none _ _ h in
      let a : ltb 10 s.amount ≡ false = refuse_if-none _ _ amount in
      let r : (fl.below_tenths s.radius 5 || fl.above s.radius 1000) ≡ false =
        refuse_if-none _ _ radius in
      let (low, high) = or-false _ _ r in (ground arith, low, high)

  alpha-IsUpTo :
      (c : HexColor F) → refuse_if (out_of fl 1 c.alpha) alpha_range ≡ none → IsUpTo fl 1 c.alpha
  alpha-IsUpTo c h = up_to 1 c.alpha (refuse_if-none _ _ h)

  trim-IsUpTo :
      (t : TrimColor F)
      → validate_trimcolor fl t ≡ none
      → IsUpTo fl 1 t.color.alpha × IsUpTo fl 1 t.threshold
  unfolding validate_trimcolor validate_hexcolor
  trim-IsUpTo t h =
      let (alpha, threshold) = >>-none _ _ h in
      (
        up_to 1 t.color.alpha (refuse_if-none _ _ alpha),
        up_to 1 t.threshold (refuse_if-none _ _ threshold),
      )

module _ {F : Type 0} (fl : Floats F) (o : Options F) where
  pub validate_params-InRange : validate_params fl o ≡ none → InRange fl o
  unfolding validate_params
  validate_params-InRange h15 =
      let (h14, width) = >>-none _ _ h15 in
      let (h13, trim_color) = >>-none _ _ h14 in
      let (h12, trims) = >>-none _ _ h13 in
      let (h11, sharp) = >>-none _ _ h12 in
      let (h10, satur) = >>-none _ _ h11 in
      let (h9, quali) = >>-none _ _ h10 in
      let (h8, pre) = >>-none _ _ h9 in
      let (h7, pads) = >>-none _ _ h8 in
      let (h6, high) = >>-none _ _ h7 in
      let (h5, dprs) = >>-none _ _ h6 in
      let (h4, crops) = >>-none _ _ h5 in
      let (h3, canvases) = >>-none _ _ h4 in
      let (h2, contr) = >>-none _ _ h3 in
      let (h1, bright) = >>-none _ _ h2 in
      let (reg, colour) = >>-none _ _ h1 in
      let q = refuse_if-none _ _ quali in
      let d = refuse_if-none _ _ dprs in
      record {
        region_set = refuse_if-none _ _ reg;
        bg_color_in = each _ _ (alpha-IsUpTo fl) o.bg_color colour;
        brightness_in = within_100 _ (refuse_if-none _ _ bright);
        canvas_in = each _ IsCanvas canvas-IsCanvas o.canvas canvases;
        contrast_in = within_100 _ (refuse_if-none _ _ contr);
        crop_in = each _ IsCrop crop-IsCrop o.crop crops;
        dpr_in = λ z. up_to fl 10 o.dpr (ground arith);
        height_in = set-IsLength _ high;
        pad_in = each _ AreSides sides-AreSides o.pad pads;
        precrop_in = each _ IsCrop crop-IsCrop o.precrop pre;
        quality_in = ground arith;
        saturation_in = within_100 _ (refuse_if-none _ _ satur);
        sharpen_in = each _ (IsSharpen fl) (sharpen-IsSharpen fl) o.sharpen sharp;
        trim_sides_in = each _ AreSides sides-AreSides o.trim_sides trims;
        trim_color_in = each _ _ (trim-IsUpTo fl) o.trim_color trim_color;
        width_in = set-IsLength _ width;
      }
