-- ===== src/Abi/Laws.antt =====
-- A status survives every wrapping of the error that it became.
use Prim.Native.String.{String}
use compute_sdk_go.Common.{ℕ, ◌≡◌, refl, ◌≢◌, List, [], ◌∷◌, none, some, arith}
use compute_sdk_go.Abi.Errors.{GoError, wrap, to_error, is_fastly_error}

-- Annotations put on one after the other.
abbrev pub wraps : List String → GoError → GoError
wraps [] e = e
wraps (c ∷ cs) e = wrap c (wraps cs e)

pub is_fastly_error-wraps :
    (cs : List String) (e : GoError) → is_fastly_error (wraps cs e) ≡ is_fastly_error e
unfolding is_fastly_error
is_fastly_error-wraps [] e = refl
is_fastly_error-wraps (c ∷ cs) e = is_fastly_error-wraps cs e

-- The error of a failed host call gives its status back to `IsFastlyError`, under any number of
-- annotations; a call that succeeds gives no error.
pub is_fastly_error-to_error :
    (s : ℕ)
    → (s ≢ 0
        → (e : GoError) × (to_error s ≡ some e)
          × ((cs : List String) → is_fastly_error (wraps cs e) ≡ some s))
      × (s ≡ 0 → to_error s ≡ none)
unfolding to_error is_fastly_error
is_fastly_error-to_error s = (
  (λ ne. (GoError.fastly s, ground arith, λ cs. is_fastly_error-wraps cs (GoError.fastly s))),
  (λ e. ground arith),
)
