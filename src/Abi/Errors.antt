-- ===== src/Abi/Errors.antt =====
-- internal/abi/fastly/types.go: `FastlyError` and what detects it in a chain of errors.
use Prim.Native.String.{String}
use compute_sdk_go.Common.{
  ℕ, ◌≡◌, refl, ◌⊎◌, inl, inr, Bool, false, Option, none, some, ◌==◌, if◌then◌else◌,
}
use compute_sdk_go.Abi.Status.{status_none}

-- A Go error: a `FastlyError` without or with a detail, `fmt.Errorf("…: %w", err)` with its text, or
-- an error that wraps nothing.
pub data GoError : Type 0 where
  fastly : ℕ → GoError
  fastly_detail : ℕ → GoError → GoError
  wrap : String → GoError → GoError
  plain : String → GoError

pub data Result {ℓ} (A : Type ℓ) : Type ℓ where
  ok : A → Result A
  err : GoError → Result A

pub Result-cases {ℓ} :
    {A : Type ℓ} (r : Result A) → ((a : A) × (r ≡ ok a)) ⊎ ((e : GoError) × (r ≡ err e))
Result-cases (ok a) = inl (a, refl)
Result-cases (err e) = inr (e, refl)

infixl 5 ◌>>=◌
abbrev pub ◌>>=◌ {ℓ κ} : {A : Type ℓ} {B : Type κ} → Result A → (A → Result B) → Result B
ok a >>= f = f a
err e >>= f = err e

-- `if err != nil { return fmt.Errorf(context+": %w", err) }`
abbrev pub annotate {ℓ} : {A : Type ℓ} → String → Result A → Result A
annotate context (ok a) = ok a
annotate context (err e) = err (wrap context e)

-- `toError`; `none` is nil.
unfoldable pub to_error : ℕ → Option GoError
to_error s = if s == 0 then none else some (fastly s)

-- `IsFastlyError`: the status of the first `FastlyError` in the chain.
unfoldable pub is_fastly_error : GoError → Option ℕ
is_fastly_error (fastly s) = some s
is_fastly_error (fastly_detail s d) = some s
is_fastly_error (wrap context e) = is_fastly_error e
is_fastly_error (plain text) = none

-- `ok && status == s`
abbrev pub has_status : ℕ → GoError → Bool
has_status s e = elim (is_fastly_error e) [ some t ↦ t == s | none ↦ false ]

unfoldable pub ignore_none_error : Option GoError → Option GoError
unfolding is_fastly_error
ignore_none_error none = none
ignore_none_error (some e) = if has_status status_none e then none else some e
