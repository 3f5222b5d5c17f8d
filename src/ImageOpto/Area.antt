-- ===== src/ImageOpto/Area.antt =====
-- fsthttp/imageopto/imageopto.go: lengths, areas, positions, crops, canvases and sides. The regular
-- expressions are written out as recognizers; of an expression `^A|B$` the first alternative is not
-- tied to the end of the text, nor the second to its beginning.
use compute_sdk_go.Common.{
  ℕ, Bool, true, false, not, ◌&&◌, ◌||◌, Option, none, some, [], ◌∷◌, ◌++◌, ◌==◌, if◌then◌else◌,
  all, Bytes, codes, is_empty, is_digit,
}
use compute_sdk_go.Common.Int.{decimal}
use compute_sdk_go.ImageOpto.Floats.{Check, ◌>>◌, refuse_if, optional, bad_pixels, bad_x, bad_y}

-- `^[0-9]+(\.[0-9]+)?p?$`, as an automaton: before the first digit, in the whole part, behind the
-- point, in the fraction, behind `p`.
pub data PixelState : Type 0 where
  at_start in_whole at_point in_fraction at_end : PixelState

abbrev pub is_final : PixelState → Bool
is_final in_whole = true
is_final in_fraction = true
is_final at_end = true
is_final _ = false

unfoldable pub pixel_step : PixelState → ℕ → Option PixelState
pixel_step at_start c = if is_digit c then some in_whole else none
pixel_step in_whole c =
    if is_digit c
    then some in_whole
    else if c == b'.'
    then some at_point
    else if c == b'p'
    then some at_end
    else none
pixel_step at_point c = if is_digit c then some in_fraction else none
pixel_step in_fraction c =
    if is_digit c then some in_fraction else if c == b'p' then some at_end else none
pixel_step at_end c = none

unfoldable pub pixel_run : PixelState → Bytes → Bool
unfolding pixel_step
pixel_run s [] = is_final s
pixel_run s (c ∷ cs) = elim (pixel_step s c) [ some t ↦ pixel_run t cs | none ↦ false ]

-- `PixelsOrPercentage.validate`
unfoldable pub validate_pixels : Bytes → Check
unfolding pixel_run
validate_pixels p = refuse_if (not (pixel_run at_start p)) (bad_pixels p)

-- `if p.isSet() { p.validate() }`
abbrev pub validate_set : Bytes → Check
validate_set p = if is_empty p then none else validate_pixels p

-- `Area`, by its state.
pub data Area : Type 0 where
  no_area : Area
  aspect_ratio : ℕ → ℕ → Area
  width_height : Bytes → Bytes → Area

unfoldable pub validate_area : Area → Check
unfolding validate_pixels
validate_area (width_height w h) = validate_set w >> validate_set h
validate_area _ = none

unfoldable pub area_string : Area → Bytes
unfolding decimal
area_string no_area = []
area_string (aspect_ratio w h) = decimal w ++ b':' ∷ decimal h
area_string (width_height w h) = w ++ b',' ∷ h

-- `x[0-9]` at the beginning: all else in the first alternative may be absent.
abbrev pub begins_axis : ℕ → Bytes → Bool
begins_axis axis (c ∷ d ∷ cs) = c == axis && is_digit d
begins_axis axis _ = false

abbrev pub digits_only : Bytes → Bool
digits_only s = not (is_empty s) && all is_digit s

-- The text behind a prefix.
abbrev pub strip_prefix : Bytes → Bytes → Option Bytes
strip_prefix [] s = some s
strip_prefix (p ∷ ps) [] = none
strip_prefix (p ∷ ps) (c ∷ cs) = let rest = strip_prefix ps cs in if p == c then rest else none

abbrev pub is_offset : ℕ → Bytes → Bool
is_offset axis s = elim (strip_prefix (codes "offset-" ++ axis ∷ []) s) [
  | some rest ↦ digits_only rest
  | none ↦ false
]

-- `offset-x[0-9]+` at the end, behind any text.
unfoldable pub ends_offset : ℕ → Bytes → Bool
ends_offset axis [] = false
ends_offset axis (c ∷ cs) = is_offset axis (c ∷ cs) || ends_offset axis cs

-- `reXPosition` and `reYPosition`
unfoldable pub matches_position : ℕ → Bytes → Bool
unfolding ends_offset
matches_position axis s = begins_axis axis s || ends_offset axis s

pub record Position : Type 0 where
  pub x : Bytes
  pub y : Bytes

unfoldable pub position_string : Position → Bytes
position_string p =
    if not (is_empty p.x) && not (is_empty p.y)
    then p.x ++ b',' ∷ p.y
    else if not (is_empty p.x)
    then p.x
    else p.y

unfoldable pub validate_position : Position → Check
unfolding matches_position
validate_position p =
    refuse_if (not (is_empty p.x) && not (matches_position b'x' p.x)) (bad_x p.x)
    >> refuse_if (not (is_empty p.y) && not (matches_position b'y' p.y)) (bad_y p.y)

pub record Crop : Type 0 where
  pub size : Area
  pub position : Option Position
  pub crop_mode : Bytes

unfoldable pub validate_crop : Crop → Check
unfolding validate_area validate_position
validate_crop c = validate_area c.size >> optional validate_position c.position

abbrev comma_position : Option Position → Bytes
comma_position none = []
comma_position (some p) = b',' ∷ position_string p

unfoldable pub crop_string : Crop → Bytes
unfolding area_string position_string
crop_string c =
    area_string c.size
    ++ (comma_position c.position ++ (if is_empty c.crop_mode then [] else b',' ∷ c.crop_mode))

pub record Canvas : Type 0 where
  pub size : Area
  pub position : Option Position

-- An error of the size returns no error.
unfoldable pub validate_canvas : Canvas → Check
unfolding validate_area validate_position
validate_canvas c = elim (validate_area c.size) [
  | some e ↦ none
  | none ↦ optional validate_position c.position
]

unfoldable pub canvas_string : Canvas → Bytes
unfolding area_string position_string
canvas_string c = area_string c.size ++ comma_position c.position

pub record Sides : Type 0 where
  pub top : Bytes
  pub right : Bytes
  pub bottom : Bytes
  pub left : Bytes

unfoldable pub sides_string : Sides → Bytes
sides_string s = s.top ++ b',' ∷ (s.right ++ b',' ∷ (s.bottom ++ b',' ∷ s.left))

unfoldable pub validate_sides : Sides → Check
unfolding validate_pixels
validate_sides s =
    validate_set s.top >> validate_set s.right >> validate_set s.bottom >> validate_set s.left
