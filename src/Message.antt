-- ===== src/Message.antt =====
-- fsthttp/response.go and fsthttp/request.go: the header of a message, and its trailers, read
-- from the host by an iterator over the names and one over the values of each name.
pub mod Read
pub mod Meta
pub mod Asked
mod Tests
use Prim.Native.String.{String}
use mathlib.Core.Option
use compute_sdk_go.Common.{ℕ, List, [], ◌∷◌, Option, none, some, ◌==◌, if◌then◌else◌, Bytes}
use compute_sdk_go.Abi.Status.{status_again}
use compute_sdk_go.Abi.Errors.{GoError, Result, ok, err, wrap, plain, has_status}
use compute_sdk_go.Header.{Header, add_all, add}
use compute_sdk_go.Values.{MultiValueHostcall, Values, new_values, iterate}

-- `DefaultMediumBufLen` and `DefaultLargeBufLen`.
abbrev pub medium_buf_len : ℕ
medium_buf_len = 1024

abbrev pub large_buf_len : ℕ
large_buf_len = 8192

-- `GetHeaderNames` and `GetHeaderValues`, or `GetTrailerNames` and `GetTrailerValues`.
pub record Source : Type 0 where
  pub names : MultiValueHostcall
  pub values_of : Bytes → MultiValueHostcall

-- `if err != nil { return nil, fmt.Errorf(…) }` at the end of a loop.
abbrev pub checked {ℓ} : {A : Type ℓ} → (GoError → GoError) → Values → A → Result A
checked context end a = elim end.error [ some e ↦ err (context e) | none ↦ ok a ]

module _ (rounds fuel : ℕ) (s : Source) where
  -- The inner loop, with the error of its iterator; `none` where fuel has run out.
  unfoldable pub read_values : String → Bytes → Header → Option (Result Header)
  unfolding iterate add
  read_values context k h = elim (iterate (s.values_of k) rounds fuel (new_values large_buf_len)) [
    | none ↦ none
    | some (vs, end) ↦ some (checked (wrap context) end (add_all k vs h))
  ]

  -- The rounds of the outer loop.
  unfoldable pub read_names : String → List Bytes → Header → Option (Result Header)
  unfolding read_values
  read_names context [] h = some (ok h)
  read_names context (k ∷ ks) h = elim (read_values context k h) [
    | none ↦ none
    | some r ↦ elim r [ err e ↦ some (err e) | ok h' ↦ read_names context ks h' ]
  ]

  -- The loops, and the error of the outer iterator. The calls do not change what the host answers.
  unfoldable pub read_header : String → (GoError → GoError) → Option (Result Header)
  unfolding read_names iterate
  read_header context outer = elim (iterate s.names rounds fuel (new_values medium_buf_len)) [
    | none ↦ none
    | some (ks, end) ↦ elim (read_names context ks []) [
      | none ↦ none
      | some r ↦ elim r [ err e ↦ some (err e) | ok h ↦ some (checked outer end h) ]
    ]
  ]

  -- `newResponse`: the status code and the header; the texts of the host's errors are fixed.
  unfoldable pub new_response : Result ℕ → Option (Result (ℕ × Header))
  unfolding read_header
  new_response (err e) = some (err (wrap "status code" e))
  new_response (ok code) = elim (read_header "read header key" (wrap "read header keys")) [
    | none ↦ none
    | some r ↦ elim r [ err e ↦ some (err e) | ok h ↦ some (ok (code, h)) ]
  ]

abbrev pub err_trailers_not_ready : GoError
err_trailers_not_ready = plain "trailers not available"

abbrev pub trailers_error : GoError → GoError
trailers_error e =
    if has_status status_again e then err_trailers_not_ready else wrap "read trailer keys" e

-- `Trailers`: the field of the response behind it, and what it returns. The source is missing where
-- the body does not come from the host.
abbrev pub kept_trailers : Result Header → Option Header × Result Header
kept_trailers (ok h) = (some h, ok h)
kept_trailers (err e) = (none, err e)

unfoldable pub trailers :
    ℕ → ℕ → Option Source → Option Header → Option (Option Header × Result Header)
unfolding read_header
trailers rounds fuel source (some h) = some (some h, ok h)
trailers rounds fuel none none =
    some (none, err (plain "Response.Body is not an HTTP Response Body"))
trailers rounds fuel (some s) none =
    Option.map kept_trailers (read_header rounds fuel s "read trailer key" trailers_error)
