-- ===== src/KvStore.antt =====
-- kvstore/kvstore.go and internal/abi/fastly/kvstore_guest.go: operations on a key-value store. The
-- host starts an operation and is waited for; an error is a status or a code of its own.
pub mod Pages
pub mod Outcomes
pub mod Listing
mod Tests
use compute_sdk_go.Common.{
  ℕ, ◌-◌, ◌^◌, ◌≡◌, refl, ◌⊎◌, inl, inr, Bool, true, false, List, [], ◌∷◌, Option, none, some, ltb,
  leb, ◌==◌, if◌then◌else◌, Bytes,
}
use compute_sdk_go.Abi.Status.{status_inval, status_badf, status_error}
use compute_sdk_go.Abi.Errors.{GoError, fastly, Result, ok, err, to_error, is_fastly_error}
use compute_sdk_go.Abi.Answers.{Answer}

-- The errors of the host calls: a `KVError`, or another one.
pub data HostError : Type 0 where
  kv : ℕ → HostError
  go : GoError → HostError

-- The errors of the package; an unexpected one with what it stands for, where the text says it.
pub data Error : Type 0 where
  store_not_found key_not_found invalid_key too_many_requests : Error
  bad_request precondition_failed payload_too_large unexpected : Error
  unexpected_error : HostError → Error
  other : GoError → Error

pub data Try {ℓ} (A : Type ℓ) : Type ℓ where
  done : A → Try A
  fails : Error → Try A

pub Try-cases {ℓ} :
    {A : Type ℓ} (t : Try A) → ((a : A) × (t ≡ done a)) ⊎ ((e : Error) × (t ≡ fails e))
Try-cases (done a) = inl (a, refl)
Try-cases (fails e) = inr (e, refl)

infixl 5 ◌>>=◌
abbrev pub ◌>>=◌ {ℓ κ} : {A : Type ℓ} {B : Type κ} → Try A → (A → Try B) → Try B
done a >>= f = f a
fails e >>= f = fails e

abbrev pub kv_error_ok : ℕ
kv_error_ok = 1

-- `kvErrToErr`, by the code.
abbrev pub kv_err_to_err : ℕ → Error
kv_err_to_err c =
    if c == 2
    then bad_request
    else if c == 3
    then key_not_found
    else if c == 4
    then precondition_failed
    else if c == 5
    then payload_too_large
    else if c == 7
    then too_many_requests
    else unexpected

-- `mapFastlyErr`
unfoldable pub map_fastly_err : HostError → Error
unfolding is_fastly_error
map_fastly_err (kv c) = if leb c 7 then kv_err_to_err c else unexpected_error (kv c)
map_fastly_err (go e) = elim (is_fastly_error e) [
  | none ↦ other e
  | some s ↦
      if s == status_badf
      then store_not_found
      else if s == status_inval
      then invalid_key
      else unexpected_error (go (fastly s))
]

abbrev pub invalid_handle : ℕ
invalid_handle = 2 ^ 32 - 2

-- What a call leaves when it has waited: the code, and the value.
pub record Waited {ℓ} (A : Type ℓ) : Type ℓ where
  pub kv_err : ℕ
  pub value : A

-- The call that starts an operation: its handle, or an error.
abbrev pub started : Answer ℕ → Try ℕ
started a = elim (to_error a.status) [
  | some e ↦ fails (map_fastly_err (go e))
  | none ↦
      if a.value == invalid_handle
      then fails (map_fastly_err (go (fastly status_error)))
      else done a.value
]

-- The call that waits for it.
abbrev pub waited {ℓ} : {A : Type ℓ} → Answer (Waited A) → Try A
waited a = elim (to_error a.status) [
  | some e ↦ fails (map_fastly_err (go e))
  | none ↦
      if a.value.kv_err == kv_error_ok
      then done a.value.value
      else fails (map_fastly_err (kv a.value.kv_err))
]

-- An operation starts, and is waited for with the handle.
unfoldable pub operation {ℓ} : {A : Type ℓ} → Answer ℕ → (ℕ → Answer (Waited A)) → Try A
unfolding to_error map_fastly_err
operation start wait = started start >>= λ h. waited (wait h)

-- `Entry`: the body, the metadata and the generation.
pub record Entry : Type 0 where
  pub body : ℕ
  pub meta : Bytes
  pub generation : ℕ

-- `InsertConfig`; no metadata is nil.
pub record InsertConfig : Type 0 where
  pub mode : ℕ
  pub background_fetch : Bool
  pub metadata : Option Bytes
  pub ttl_sec : ℕ
  pub if_generation_match : ℕ

-- `KVInsertConfig` of the host.
pub record AbiInsertConfig : Type 0 where
  pub mode : ℕ
  pub background_fetch : Bool
  pub metadata : Option Bytes
  pub ttl_sec : Option ℕ
  pub if_generation_match : Option ℕ

abbrev pub unless_zero : ℕ → Option ℕ
unless_zero n = if n == 0 then none else some n

abbrev pub abi_insert_config : Option InsertConfig → AbiInsertConfig
abi_insert_config none = record {
  mode = 0;
  background_fetch = false;
  metadata = none;
  ttl_sec = none;
  if_generation_match = none;
}
abi_insert_config (some c) = record {
  mode = c.mode;
  background_fetch = c.background_fetch;
  metadata = c.metadata;
  ttl_sec = unless_zero c.ttl_sec;
  if_generation_match = unless_zero c.if_generation_match;
}

-- The host, for the store that is open.
pub record Host : Type 0 where
  pub lookup : Bytes → Answer ℕ
  pub lookup_wait : ℕ → Answer (Waited Entry)
  pub insert : Bytes → ℕ → AbiInsertConfig → Answer ℕ
  pub insert_wait : ℕ → Answer (Waited (Unit {0}))
  pub delete : Bytes → Answer ℕ
  pub delete_wait : ℕ → Answer (Waited (Unit {0}))

-- `Open`, with the status and the handle of the store.
unfoldable pub open_store : Answer ℕ → Try ℕ
unfolding to_error is_fastly_error
open_store a = elim (to_error a.status) [
  | none ↦ done a.value
  | some e ↦ elim (is_fastly_error e) [
    | none ↦ fails (other e)
    | some s ↦
        if s == status_inval
        then fails store_not_found
        else fails (unexpected_error (go (fastly s)))
  ]
]

-- `Lookup`
unfoldable pub lookup : Host → Bytes → Try Entry
unfolding operation
lookup host key = operation (host.lookup key) host.lookup_wait

-- The value to insert: a body of the host, or a reader that is copied into a new one.
pub data Value : Type 0 where
  host_body : ℕ → Value
  reader : Answer ℕ → Option GoError → Value

abbrev pub body_of : Value → Try ℕ
body_of (host_body b) = done b
body_of (reader new_body copy) = elim (to_error new_body.status) [
  | some e ↦ fails (other e)
  | none ↦ elim copy [ some e ↦ fails (other e) | none ↦ done new_body.value ]
]

-- `InsertWithConfig`; `Insert` has no configuration.
unfoldable pub insert_with_config : Host → Bytes → Value → Option InsertConfig → Try (Unit {0})
unfolding to_error operation
insert_with_config host key value config = body_of value >>= λ body.
    operation (host.insert key body (abi_insert_config config)) host.insert_wait

-- `Delete`
unfoldable pub delete : Host → Bytes → Try (Unit {0})
unfolding operation
delete host key = operation (host.delete key) host.delete_wait
