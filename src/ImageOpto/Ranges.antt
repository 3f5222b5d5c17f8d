-- ===== src/ImageOpto/Ranges.antt =====
-- The ranges of the options' parts, and the checks of those parts.
use compute_sdk_go.Common.{
  ℕ, suc, Option, ◌≤◌, ◌≡◌, refl, inl, inr, ◌⊎◌, Bool, false, ◌&&◌, not, none, some, [], ◌∷◌, arith,
  Bytes, is_empty,
}
use compute_sdk_go.ImageOpto.Floats.{Invalid, Check, ◌>>◌, refuse_if, optional}
use compute_sdk_go.ImageOpto.Area.{
  validate_pixels, validate_set, validate_crop, validate_sides, Area, no_area, aspect_ratio,
  width_height, Position, Crop, Canvas, Sides, matches_position, validate_area, validate_position,
  validate_canvas,
}
use compute_sdk_go.ImageOpto.Texts.{IsNumber, pixel_run-IsNumber, IsNumber-pixel_run}
use compute_sdk_go.ImageOpto.Axes.{IsOnAxis, matches_position-IsOnAxis}
use compute_sdk_go.Common.Int.{ℤ, pos, negsuc}
use compute_sdk_go.ImageOpto.Options.{beyond_100}

pub >>-none : (c k : Check) → (c >> k) ≡ none → (c ≡ none) × (k ≡ none)
>>-none none k h = (refl, h)
>>-none (some e) k h = cc

pub refuse_if-none : (b : Bool) (e : Invalid) → refuse_if b e ≡ none → b ≡ false
refuse_if-none b e h = ground arith

abbrev pub IsWithin100 : ℤ → Type 0
IsWithin100 (pos n) = n ≤ 100
IsWithin100 (negsuc n) = suc n ≤ 100

-- No text, or a number of pixels or of a percentage.
abbrev pub IsLength : Bytes → Type 0
IsLength p = (p ≡ []) ⊎ IsNumber p

abbrev pub IsArea : Area → Type 0
IsArea (width_height w h) = IsLength w × IsLength h
IsArea _ = Unit {0}

abbrev pub IsPosition : Position → Type 0
IsPosition p = ((p.x ≡ []) ⊎ IsOnAxis b'x' p.x) × ((p.y ≡ []) ⊎ IsOnAxis b'y' p.y)

-- What holds of a value that is set.
abbrev pub Each {ℓ κ} : {A : Type ℓ} → (A → Type κ) → Option A → Type κ
Each P none = Unit
Each P (some a) = P a

abbrev pub IsCrop : Crop → Type 0
IsCrop c = IsArea c.size × Each IsPosition c.position

-- The position is checked only behind a size that passes.
abbrev pub IsCanvas : Canvas → Type 0
IsCanvas c = IsArea c.size → Each IsPosition c.position

abbrev pub AreSides : Sides → Type 0
AreSides s = IsLength s.top × IsLength s.right × IsLength s.bottom × IsLength s.left

pub within_100 : (n : ℤ) → beyond_100 n ≡ false → IsWithin100 n
within_100 (pos n) h = ground arith
within_100 (negsuc n) h = ground arith

pub set-IsLength : (p : Bytes) → validate_set p ≡ none → IsLength p
unfolding validate_pixels
set-IsLength [] h = inl refl
set-IsLength (c ∷ cs) h = inr (pixel_run-IsNumber (c ∷ cs) (ground arith))

set_of_IsLength : (p : Bytes) → IsLength p → validate_set p ≡ none
unfolding validate_pixels
set_of_IsLength [] h = refl
set_of_IsLength (c ∷ cs) (inl e) = cc
set_of_IsLength (c ∷ cs) (inr n) = rw (IsNumber-pixel_run (c ∷ cs) n) refl

area-IsArea : (a : Area) → validate_area a ≡ none → IsArea a
unfolding validate_area
area-IsArea no_area h = tt
area-IsArea (aspect_ratio w k) h = tt
area-IsArea (width_height w k) h =
    let (p, q) = >>-none _ _ h in (set-IsLength w p, set-IsLength k q)

on_axis :
    (axis : ℕ) (s : Bytes)
    → (not (is_empty s) && not (matches_position axis s)) ≡ false
    → (s ≡ []) ⊎ IsOnAxis axis s
on_axis axis [] h = inl refl
on_axis axis (c ∷ cs) h = inr (matches_position-IsOnAxis axis (c ∷ cs) (ground arith))

position-IsPosition : (p : Position) → validate_position p ≡ none → IsPosition p
unfolding validate_position
position-IsPosition p h =
    let (x, y) = >>-none _ _ h in
    (on_axis _ _ (refuse_if-none _ _ x), on_axis _ _ (refuse_if-none _ _ y))

pub each {ℓ κ} :
    {A : Type ℓ} (check : A → Check) (P : A → Type κ)
    → ((a : A) → check a ≡ none → P a)
    → (o : Option A) → optional check o ≡ none
    → Each P o
each check P f none h = tt
each check P f (some a) h = f a h

pub crop-IsCrop : (c : Crop) → validate_crop c ≡ none → IsCrop c
unfolding validate_crop
crop-IsCrop c h =
    let (size, position) = >>-none _ _ h in
    (
      area-IsArea c.size size,
      each validate_position IsPosition position-IsPosition c.position position,
    )

area_of_IsArea : (a : Area) → IsArea a → validate_area a ≡ none
unfolding validate_area
area_of_IsArea no_area h = refl
area_of_IsArea (aspect_ratio w k) h = refl
area_of_IsArea (width_height w k) (p, q) = rw (set_of_IsLength w p) (set_of_IsLength k q)

pub canvas-IsCanvas : (c : Canvas) → validate_canvas c ≡ none → IsCanvas c
unfolding validate_canvas
canvas-IsCanvas c h size =
    each validate_position IsPosition position-IsPosition c.position
      (rw (area_of_IsArea c.size size, validate_canvas) at h)

pub sides-AreSides : (s : Sides) → validate_sides s ≡ none → AreSides s
unfolding validate_sides
sides-AreSides s h3 =
    let (h2, left) = >>-none _ _ h3 in
    let (h1, bottom) = >>-none _ _ h2 in
    let (top, right) = >>-none _ _ h1 in
    (set-IsLength _ top, set-IsLength _ right, set-IsLength _ bottom, set-IsLength _ left)
