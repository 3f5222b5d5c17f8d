-- ===== src/CoreCache/Options.antt =====
-- cache/core/core.go: the options of lookups and of writes; internal/abi/fastly/cache_guest.go:
-- their form on the host. An option under a bit of the mask is an `Option`.
use compute_sdk_go.Common.{
  ℕ, ◌+◌, ◌-◌, ◌^◌, Bool, false, not, List, [], ◌∷◌, ◌++◌, Option, none, some, ltb, if◌then◌else◌,
  Bytes,
}
use compute_sdk_go.Common.Int.{ℤ, pos, negsuc}
use compute_sdk_go.Abi.Errors.{GoError, Result, ok, err, wrap, to_error}
use compute_sdk_go.Abi.Answers.{Answer}
use compute_sdk_go.Header.{Header, keys, values}

-- The calls that make a request for its headers.
pub record Requests : Type 0 where
  pub new_request : Answer ℕ
  pub set_header_values : Bytes → List Bytes → ℕ

unfoldable pub set_headers : Requests → Header → List Bytes → Option GoError
unfolding to_error
set_headers host h [] = none
set_headers host h (k ∷ ks) =
    let rest = set_headers host h ks in
    elim (to_error (host.set_header_values k (values k h))) [
      | some e ↦ some (wrap "set headers" e)
      | none ↦ rest
    ]

-- `requestHeadersBody`
unfoldable pub request_headers_body : Requests → Header → Result ℕ
unfolding to_error set_headers
request_headers_body host h = elim (to_error host.new_request.status) [
  | some e ↦ err e
  | none ↦ elim (set_headers host h (keys h)) [ some e ↦ err e | none ↦ ok host.new_request.value ]
]

-- `LookupOptions`; no headers are nil.
pub record LookupOptions : Type 0 where
  pub request_headers : Option Header
  pub from : ℕ
  pub to : ℕ
  pub legacy_return_whole_body : Bool

abbrev pub no_lookup_options : LookupOptions
no_lookup_options = record {
  request_headers = none;
  from = 0;
  to = 0;
  legacy_return_whole_body = false;
}

-- `CacheLookupOptions` of the host.
pub record AbiLookupOptions : Type 0 where
  pub request : Option ℕ
  pub always_use_requested_range : Bool

unfoldable pub abi_lookup_options : Requests → LookupOptions → Result AbiLookupOptions
unfolding request_headers_body
abi_lookup_options host opts = elim opts.request_headers [
  | none ↦
      ok (record { request = none; always_use_requested_range = not opts.legacy_return_whole_body })
  | some h ↦ elim (request_headers_body host h) [
    | err e ↦ err e
    | ok req ↦ ok (record {
      request = some req;
      always_use_requested_range = not opts.legacy_return_whole_body;
    })
  ]
]

-- `WriteOptions`
pub record WriteOptions : Type 0 where
  pub ttl : ℤ
  pub request_headers : Header
  pub vary : List Bytes
  pub initial_age : ℤ
  pub stale_while_revalidate : ℤ
  pub surrogate_keys : List Bytes
  pub length : ℕ
  pub user_metadata : Bytes
  pub sensitive_data : Bool

-- `CacheWriteOptions` of the host; the maximum age has no bit.
pub record AbiWriteOptions : Type 0 where
  pub max_age_ns : ℕ
  pub request : Option ℕ
  pub vary_rule : Option Bytes
  pub initial_age_ns : Option ℕ
  pub stale_while_revalidate_ns : Option ℕ
  pub surrogate_keys : Option Bytes
  pub length : Option ℕ
  pub user_metadata : Option Bytes
  pub sensitive_data : Bool

-- `prim.U64(v.Nanoseconds())`
abbrev pub nanoseconds : ℤ → ℕ
nanoseconds (pos n) = n
nanoseconds (negsuc n) = 2 ^ 64 - (n + 1)

-- `strings.Join(v, " ")`
abbrev pub spaced : List Bytes → Bytes
spaced [] = []
spaced (a ∷ []) = a
spaced (a ∷ b ∷ more) = a ++ b' ' ∷ spaced (b ∷ more)

abbrev pub unless_empty {ℓ κ} : {A : Type ℓ} {B : Type κ} → (List A → B) → List A → Option B
unless_empty f [] = none
unless_empty f (x ∷ xs) = some (f (x ∷ xs))

-- A duration that is set only where it is above 0.
abbrev pub if_positive : ℤ → Option ℕ
if_positive (pos n) = if ltb 0 n then some n else none
if_positive (negsuc n) = none

abbrev pub write_options_with : WriteOptions → Option ℕ → AbiWriteOptions
write_options_with opts req = record {
  max_age_ns = nanoseconds opts.ttl;
  request = req;
  vary_rule = unless_empty spaced opts.vary;
  initial_age_ns = if_positive opts.initial_age;
  stale_while_revalidate_ns = if_positive opts.stale_while_revalidate;
  surrogate_keys = unless_empty spaced opts.surrogate_keys;
  length = if ltb 0 opts.length then some opts.length else none;
  user_metadata = unless_empty (λ d. d) opts.user_metadata;
  sensitive_data = opts.sensitive_data;
}

unfoldable pub abi_write_options : Requests → WriteOptions → Result AbiWriteOptions
unfolding request_headers_body
abi_write_options host opts = elim opts.request_headers [
  | [] ↦ ok (write_options_with opts none)
  | _ ∷ _ ↦ elim (request_headers_body host opts.request_headers) [
    | err e ↦ err e
    | ok req ↦ ok (write_options_with opts (some req))
  ]
]
