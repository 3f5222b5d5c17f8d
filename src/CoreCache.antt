-- ===== src/CoreCache.antt =====
-- cache/core/core.go: the cache without the rules of HTTP. The host is a parameter: what it answers
-- about an entry is a record, and the calls that give handles back are listed as they are made.
pub mod Options
pub mod Fields
pub mod Lookups
pub mod Transactions
mod Tests
use Prim.Native.Nat.{bit_and}
use compute_sdk_go.Common.{
  ℕ, ◌-◌, ◌^◌, ◌≡◌, ◌≢◌, refl, ◌⊎◌, inl, inr, Bool, not, ◌&&◌, List, [], ◌∷◌, Option, none, some,
  ltb, ◌==◌, if◌then◌else◌, Bytes,
}
use compute_sdk_go.Common.Int.{ℤ, pos, negsuc}
use compute_sdk_go.Abi.Status.{
  status_inval, status_badf, status_unsupported, status_none, status_limit_exceeded,
}
use compute_sdk_go.Abi.Errors.{
  GoError, Result, ok, err, to_error, is_fastly_error, ignore_none_error,
}
use compute_sdk_go.Abi.Answers.{Answer, checked}

-- The errors of the package, an unexpected one with its status, and those that it passes on.
pub data Error : Type 0 where
  not_found invalid_argument invalid_operation limit_exceeded unsupported : Error
  unexpected : ℕ → Error
  range_error : ℕ → ℕ → Error
  other : GoError → Error

pub data Try {ℓ} (A : Type ℓ) : Type ℓ where
  done : A → Try A
  fails : Error → Try A

pub Try-cases {ℓ} :
    {A : Type ℓ} (t : Try A) → ((a : A) × (t ≡ done a)) ⊎ ((e : Error) × (t ≡ fails e))
Try-cases (done a) = inl (a, refl)
Try-cases (fails e) = inr (e, refl)

pub done≢fails {ℓ} : {A : Type ℓ} {a : A} {x : Error} → done a ≢ fails x
done≢fails e = cc

infixl 5 ◌>>=◌
abbrev pub ◌>>=◌ {ℓ κ} : {A : Type ℓ} {B : Type κ} → Try A → (A → Try B) → Try B
done a >>= f = f a
fails e >>= f = fails e

abbrev pub error_of_status : ℕ → Error
error_of_status s =
    if s == status_none
    then not_found
    else if s == status_inval
    then invalid_argument
    else if s == status_limit_exceeded
    then limit_exceeded
    else if s == status_badf
    then invalid_operation
    else if s == status_unsupported
    then unsupported
    else unexpected s

-- `mapFastlyError`: the errors of the package hold no `FastlyError`.
unfoldable pub map_fastly_error : Error → Error
unfolding is_fastly_error
map_fastly_error (other e) = elim (is_fastly_error e) [
  | some s ↦ error_of_status s
  | none ↦ other e
]
map_fastly_error e = e

abbrev pub mapped {ℓ} : {A : Type ℓ} → Result A → Try A
mapped (ok a) = done a
mapped (err e) = fails (map_fastly_error (other e))

-- `time.Duration(d)` of an unsigned number of 64 bits.
abbrev pub duration : ℕ → ℤ
duration d = if ltb d (2 ^ 63) then pos d else negsuc (2 ^ 64 - d - 1)

-- What the host answers about a `CacheEntry`; the bounds of a body are under a bit of the mask.
pub record Entry : Type 0 where
  pub h : ℕ
  pub get_state : Answer ℕ
  pub get_max_age_ns : Answer ℕ
  pub get_length : Answer ℕ
  pub get_age_ns : Answer ℕ
  pub get_stale_while_revalidate_ns : Answer ℕ
  pub get_hits : Answer ℕ
  pub get_body : Option ℕ → Option ℕ → Answer ℕ

-- `Found`; the body is the handle in the `bodyWrapper`.
pub record Found : Type 0 where
  pub abi_entry : Entry
  pub state : ℕ
  pub key : Bytes
  pub ttl : ℤ
  pub length : ℕ
  pub age : ℤ
  pub stale_while_revalidate : ℤ
  pub hits : ℕ
  pub body : Option ℕ

-- `if n > 0` with the setter of a bound.
abbrev pub bound : ℕ → Option ℕ
bound n = if ltb 0 n then some n else none

-- `newFound`, with the range of the options.
unfoldable pub new_found : Bytes → Entry → ℕ → ℕ → ℕ → Try Found
unfolding to_error is_fastly_error ignore_none_error map_fastly_error
new_found key e state from to =
    mapped (checked ignore_none_error (pos 0) duration e.get_max_age_ns) >>= λ ttl.
    mapped (checked ignore_none_error 0 (λ n. n) e.get_length) >>= λ length.
    mapped (checked ignore_none_error (pos 0) duration e.get_age_ns) >>= λ age.
    mapped (checked ignore_none_error (pos 0) duration e.get_stale_while_revalidate_ns) >>= λ stale.
    mapped (checked ignore_none_error 0 (λ n. n) e.get_hits) >>= λ hits.
    mapped (checked ignore_none_error none some (e.get_body (bound from) (bound to))) >>= λ body.
    done (record {
      abi_entry = e;
      state = state;
      key = key;
      ttl = ttl;
      length = length;
      age = age;
      stale_while_revalidate = stale;
      hits = hits;
      body = body;
    })

-- `state&bit != 0`
unfoldable pub has_bit : ℕ → ℕ → Bool
has_bit state b = not (bit_and state b == 0)

-- `GetRange`
unfoldable pub get_range : Found → ℕ → ℕ → Try (Option ℕ)
unfolding to_error is_fastly_error ignore_none_error map_fastly_error
get_range f from to =
    if ltb 0 to && ltb to from
    then fails (range_error from to)
    else mapped (checked ignore_none_error none some (f.abi_entry.get_body (bound from) (bound to)))

-- The calls that end the use of a handle, and that which writes bytes to a body.
pub data Call : Type 0 where
  close_entry cancel close_body abandon_body drain_body : ℕ → Call
  write_body : ℕ → Bytes → Call

-- `bodyWrapper.Close`: the calls, and the handle that is left.
unfoldable pub close_wrapper : Option ℕ → List Call × Option ℕ
close_wrapper none = ([], none)
close_wrapper (some b) = (drain_body b ∷ close_body b ∷ [], none)
