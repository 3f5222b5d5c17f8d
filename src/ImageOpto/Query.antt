-- ===== src/ImageOpto/Query.antt =====
-- fsthttp/imageopto/imageopto.go: `QueryString`.
use compute_sdk_go.Common.{
  ℕ, zero, suc, Bool, not, Option, none, some, List, [], ◌∷◌, ◌++◌, if◌then◌else◌, Bytes, codes,
  is_empty,
}
use compute_sdk_go.Common.Int.{ℤ, pos, negsuc, decimal, itoa}
use compute_sdk_go.ImageOpto.Floats.{Floats, Invalid, Check}
use compute_sdk_go.ImageOpto.Area.{crop_string, canvas_string, sides_string}
use compute_sdk_go.ImageOpto.Modes.{
  BwMode, no_bw, BlurMode, no_blur, hexcolor_string, trimcolor_string, bw_string, blur_string,
  sharpen_string,
}
use compute_sdk_go.ImageOpto.Options.{Options, validate_params}

-- The query, or the error.
pub data Query : Type 0 where
  query : Bytes → Query
  invalid : Invalid → Query

-- `args = append(args, "key="+val)`
abbrev pub arg : Bytes → Bytes → List Bytes
arg key val = (key ++ b'=' ∷ val) ∷ []

abbrev pub arg_if : Bool → Bytes → Bytes → List Bytes
arg_if b key val = if b then arg key val else []

-- For a text: if it is set.
abbrev pub arg_text : Bytes → Bytes → List Bytes
arg_text key val = if is_empty val then [] else arg key val

-- For a pointer: if it is not nil.
abbrev pub arg_opt {ℓ} : {A : Type ℓ} → Bytes → (A → Bytes) → Option A → List Bytes
arg_opt key print none = []
arg_opt key print (some a) = arg key (print a)

abbrev pub arg_int : Bytes → ℤ → List Bytes
arg_int key (pos zero) = []
arg_int key (pos (suc n)) = arg key (itoa (pos (suc n)))
arg_int key (negsuc n) = arg key (itoa (negsuc n))

abbrev pub arg_nat : Bytes → ℕ → List Bytes
arg_nat key zero = []
arg_nat key (suc n) = arg key (decimal (suc n))

abbrev pub arg_bw : BwMode → List Bytes
arg_bw no_bw = []
arg_bw m = arg (codes "bw") (bw_string m)

-- `strings.Join(args, "&")`
unfoldable pub join_args : List Bytes → Bytes
join_args [] = []
join_args (a ∷ []) = a
join_args (a ∷ b ∷ more) = a ++ b'&' ∷ join_args (b ∷ more)

abbrev pub concat : List (List Bytes) → List Bytes
concat [] = []
concat (l ∷ ls) = l ++ concat ls

abbrev pub answer : Check → List Bytes → Query
answer (some e) list = invalid e
answer none list = query (join_args list)

module _ {F : Type 0} (fl : Floats F) where
  abbrev pub arg_blur : BlurMode F → List Bytes
  arg_blur no_blur = []
  arg_blur m = arg (codes "blur") (blur_string fl m)

  -- The parameters behind the region, in their order.
  unfoldable pub later_args : Options F → List Bytes
  later_args o = concat (
      arg_text (codes "auto") o.auto
      ∷ arg_opt (codes "bg-color") (hexcolor_string fl) o.bg_color
      ∷ arg_blur o.blur
      ∷ arg_int (codes "brightness") o.brightness
      ∷ arg_bw o.bw
      ∷ arg_opt (codes "canvas") canvas_string o.canvas
      ∷ arg_int (codes "contrast") o.contrast
      ∷ arg_opt (codes "crop") crop_string o.crop
      ∷ arg_if (not (fl.is_zero o.dpr)) (codes "dpr") (fl.format32 o.dpr)
      ∷ arg_text (codes "enable") o.enable
      ∷ arg_text (codes "fit") o.fit
      ∷ arg_text (codes "format") o.format
      ∷ arg_nat (codes "frame") o.frame
      ∷ arg_text (codes "height") o.height
      ∷ arg_text (codes "level") o.level
      ∷ arg_text (codes "profile") o.profile
      ∷ arg_text (codes "metadata") o.metadata
      ∷ arg_text (codes "optimize") o.optimize
      ∷ arg_int (codes "orient") o.orient
      ∷ arg_opt (codes "pad") sides_string o.pad
      ∷ arg_opt (codes "precrop") crop_string o.precrop
      ∷ arg_text (codes "resize-filter") o.resize_filter
      ∷ arg_opt (codes "sharpen") (sharpen_string fl) o.sharpen
      ∷ arg_opt (codes "trim") sides_string o.trim_sides
      ∷ arg_opt (codes "trim-color") (trimcolor_string fl) o.trim_color
      ∷ arg_text (codes "width") o.width
      ∷ [])

  unfoldable pub args : Options F → List Bytes
  unfolding later_args
  args o = arg_text (codes "region") o.region ++ later_args o

  unfoldable pub query_string : Options F → Query
  unfolding args join_args validate_params
  query_string o = answer (validate_params fl o) (args o)
