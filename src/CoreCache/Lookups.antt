-- ===== src/CoreCache/Lookups.antt =====
-- cache/core/core.go: `Lookup` and `Insert`, which stand outside of transactions.
pub mod Handles
use compute_sdk_go.Common.{
  ℕ, Bool, true, false, List, [], ◌∷◌, Option, none, some, if◌then◌else◌, Bytes,
}
use compute_sdk_go.Abi.Status.{lookup_found}
use compute_sdk_go.Abi.Errors.{GoError, ok, err, to_error, is_fastly_error}
use compute_sdk_go.Abi.Answers.{Answer}
use compute_sdk_go.CoreCache.{
  Error, not_found, other, Try, done, fails, mapped, map_fastly_error, Entry, Found, new_found,
  has_bit, Call, close_entry,
}
use compute_sdk_go.CoreCache.Options.{
  Requests, LookupOptions, AbiLookupOptions, abi_lookup_options, WriteOptions, AbiWriteOptions,
  abi_write_options,
}

-- The cache of the host.
pub record Cache : Type 0 where
  pub requests : Requests
  pub lookup : Bytes → AbiLookupOptions → Answer Entry
  pub transaction_lookup : Bytes → AbiLookupOptions → Answer Entry
  pub insert : Bytes → AbiWriteOptions → Answer ℕ

-- What a function returns, and the calls that gave handles back.
pub record Returned {ℓ} (A : Type ℓ) : Type ℓ where
  pub calls : List Call
  pub result : Try A

abbrev pub returns {ℓ} : {A : Type ℓ} → List Call → Try A → Returned A
returns cs r = record { calls = cs; result = r }

-- The entry is closed where there is an error.
abbrev pub close_on_error {ℓ} : {A : Type ℓ} → Entry → Try A → Returned A
close_on_error e (done a) = returns [] (done a)
close_on_error e (fails x) = returns (close_entry e.h ∷ []) (fails x)

abbrev pub fastly_fails {ℓ} : {A : Type ℓ} → GoError → Try A
fastly_fails e = fails (map_fastly_error (other e))

-- `Lookup`, from where it has an entry.
unfoldable pub look_into : Bytes → LookupOptions → Entry → Try Found
unfolding to_error map_fastly_error new_found has_bit
look_into key opts e = elim (to_error e.get_state.status) [
  | some x ↦ fastly_fails x
  | none ↦
      if has_bit e.get_state.value lookup_found
      then new_found key e e.get_state.value opts.from opts.to
      else fails not_found
]

unfoldable pub lookup : Cache → Bytes → LookupOptions → Returned Found
unfolding to_error map_fastly_error abi_lookup_options look_into
lookup cache key opts = elim (abi_lookup_options cache.requests opts) [
  | err x ↦ returns [] (fails (other x))
  | ok abi ↦
      let a = cache.lookup key abi in
      elim (to_error a.status) [
        | some x ↦ returns [] (fastly_fails x)
        | none ↦ close_on_error a.value (look_into key opts a.value)
      ]
]

-- `Insert`: the handle of the body that takes the object.
unfoldable pub insert : Cache → Bytes → WriteOptions → Try ℕ
unfolding to_error map_fastly_error abi_write_options
insert cache key opts = elim (abi_write_options cache.requests opts) [
  | err x ↦ fails (other x)
  | ok abi ↦
      let a = cache.insert key abi in
      elim (to_error a.status) [ some x ↦ fastly_fails x | none ↦ done a.value ]
]
