-- ===== src/ImageOpto/Gaps.antt =====
-- Options that `QueryString` ignores, and a canvas that is not checked.
use compute_sdk_go.Common.{ℕ, ◌≡◌, refl, ap, Bool, false, none, some, ltb}
use compute_sdk_go.Common.Int.{ℤ}
use compute_sdk_go.ImageOpto.Floats.{Floats, Invalid, Check, ◌>>◌}
use compute_sdk_go.ImageOpto.Area.{validate_area, Canvas, validate_canvas}
use compute_sdk_go.ImageOpto.Options.{Options, beyond_100, validate_params}
use compute_sdk_go.ImageOpto.Query.{args, answer, query_string}

-- A check that passes can be left out.
>>-nothing : (c : Check) → (c >> none) ≡ c
>>-nothing none = refl
>>-nothing (some e) = refl

module _ {F : Type 0} (fl : Floats F) (o : Options F) where
  validate_params_ignores :
      (q : ℕ) (s : ℤ) (b : Bool)
      → (ltb 100 o.quality ≡ false) × (beyond_100 o.saturation ≡ false)
      → (ltb 100 q ≡ false) × (beyond_100 s ≡ false)
      → validate_params fl
          (record o { quality = q; saturation = s; preserve_query_string_on_origin_request = b })
        ≡ validate_params fl o
  unfolding validate_params
  validate_params_ignores q s b (oq, os) (hq, hs) =
      rw (hq, validate_params) (rw hs (rw oq (rw os refl)))

  -- The saturation and the quality are checked and then left out of the query, and the flag that
  -- is to preserve the query string is not read: any values in range, and any flag, give the same
  -- query or the same error.
  pub query_string_ignores :
      (q : ℕ) (s : ℤ) (b : Bool)
      → (ltb 100 o.quality ≡ false) × (beyond_100 o.saturation ≡ false)
      → (ltb 100 q ≡ false) × (beyond_100 s ≡ false)
      → query_string fl
          (record o { quality = q; saturation = s; preserve_query_string_on_origin_request = b })
        ≡ query_string fl o
  unfolding query_string args
  query_string_ignores q s b old new =
      ap (λ v. answer v (args fl o)) (validate_params_ignores q s b old new)

canvas_bad_size :
    (c : Canvas) (e : Invalid) → validate_area c.size ≡ some e → validate_canvas c ≡ none
unfolding validate_canvas
canvas_bad_size c e h = rw (h, validate_canvas)

-- A canvas whose size is invalid does no harm to the options: they are checked as if there were no
-- canvas, whatever its size and its position are.
pub validate_params_bad_canvas :
    {F : Type 0} (fl : Floats F) (o : Options F) (c : Canvas) (e : Invalid)
    → validate_area c.size ≡ some e
    → validate_params fl (record o { canvas = some c })
      ≡ validate_params fl (record o { canvas = none })
unfolding validate_params
validate_params_bad_canvas fl o c e h = rw (canvas_bad_size c e h, validate_params) refl
