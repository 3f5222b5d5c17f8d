-- ===== src/ImageOpto/Options.antt =====
-- fsthttp/imageopto/imageopto.go: `Options` and `validateParams`. The string types `Region`,
-- `Format`, `Auto` and so on are texts, set when they are not empty; a pointer is an `Option`.
use compute_sdk_go.Common.{ℕ, ◌+◌, Bool, not, ◌&&◌, Option, ltb, Bytes, is_empty}
use compute_sdk_go.Common.Int.{ℤ, pos, negsuc}
use compute_sdk_go.ImageOpto.Floats.{
  Floats, Check, ◌>>◌, refuse_if, optional, region_not_set, alpha_range, brightness_range,
  contrast_range, dpr_range, quality_range, saturation_range,
}
use compute_sdk_go.ImageOpto.Area.{
  Crop, Canvas, Sides, validate_set, validate_crop, validate_canvas, validate_sides,
}
use compute_sdk_go.ImageOpto.Modes.{
  HexColor, TrimColor, BwMode, BlurMode, Sharpen, out_of, validate_sharpen, validate_trimcolor,
}

pub record Options (F : Type 0) : Type 0 where
  pub region : Bytes
  pub auto : Bytes
  pub bg_color : Option (HexColor F)
  pub blur : BlurMode F
  pub brightness : ℤ
  pub bw : BwMode
  pub canvas : Option Canvas
  pub contrast : ℤ
  pub crop : Option Crop
  pub dpr : F
  pub enable : Bytes
  pub fit : Bytes
  pub format : Bytes
  pub frame : ℕ
  pub height : Bytes
  pub level : Bytes
  pub metadata : Bytes
  pub optimize : Bytes
  pub orient : ℤ
  pub pad : Option Sides
  pub precrop : Option Crop
  pub profile : Bytes
  pub quality : ℕ
  pub resize_filter : Bytes
  pub saturation : ℤ
  pub sharpen : Option (Sharpen F)
  pub trim_sides : Option Sides
  pub trim_color : Option (TrimColor F)
  pub width : Bytes
  pub preserve_query_string_on_origin_request : Bool

-- `n != 0 && (n < -100 || n > 100)`
abbrev pub beyond_100 : ℤ → Bool
beyond_100 (pos n) = ltb 100 n
beyond_100 (negsuc n) = ltb 100 (n + 1)

module _ {F : Type 0} (fl : Floats F) where
  -- The checks in their order.
  unfoldable pub validate_params : Options F → Check
  validate_params o =
      refuse_if (is_empty o.region) region_not_set
      >> optional (λ c. refuse_if (out_of fl 1 c.alpha) alpha_range) o.bg_color
      >> refuse_if (beyond_100 o.brightness) brightness_range
      >> refuse_if (beyond_100 o.contrast) contrast_range
      >> optional validate_canvas o.canvas
      >> optional validate_crop o.crop
      >> refuse_if (not (fl.is_zero o.dpr) && out_of fl 10 o.dpr) dpr_range
      >> validate_set o.height
      >> optional validate_sides o.pad
      >> optional validate_crop o.precrop
      >> refuse_if (ltb 100 o.quality) quality_range
      >> refuse_if (beyond_100 o.saturation) saturation_range
      >> optional (validate_sharpen fl) o.sharpen
      >> optional validate_sides o.trim_sides
      >> optional (validate_trimcolor fl) o.trim_color
      >> validate_set o.width
