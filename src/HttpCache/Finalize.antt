-- ===== src/HttpCache/Finalize.antt =====
-- fsthttp/cache.go: `finalizeOptions`, what a candidate writes to the cache and how.
use compute_sdk_go.Common.{ℕ, ◌-◌, true, Option, none, some, leb, if◌then◌else◌}
use compute_sdk_go.Abi.Errors.{Result, ok, err, ◌>>=◌}
use compute_sdk_go.HttpCache.{StorageAction}
use compute_sdk_go.HttpCache.Options.{WriteOptions, over, zero_abi, flush_to_abi}
use compute_sdk_go.HttpCache.Candidate.{
  Body, host_body, len_body, opaque_body, Host, Candidate, build_fresh_options,
}

unfoldable pub body_has_known_length : Body → Option ℕ
body_has_known_length (host_body (ok n)) = some n
body_has_known_length (host_body (err e)) = none
body_has_known_length (len_body n) = some n
body_has_known_length opaque_body = none

abbrev pub with_length : Option ℕ → WriteOptions → WriteOptions
with_length none opts = opts
with_length (some n) opts = record opts { body_length = n; use_length = true }

module _ {R : Type 0} where
  unfoldable pub final_action : Candidate R → StorageAction
  final_action c =
      if c.use_storage_action then c.override_storage_action else c.suggested_storage_action

  abbrev pub final_max_age : Candidate R → WriteOptions → ℕ
  final_max_age c sugg =
      if c.use_ttl
      then if leb sugg.age c.override_ttl then c.override_ttl - sugg.age else sugg.max_age
      else sugg.max_age

  -- The length goes with a body that no transformation will change.
  abbrev pub known_length : Candidate R → Option ℕ
  known_length c = elim (c.body_transform) [
    | some fn ↦ none
    | none ↦ body_has_known_length c.abi_body
  ]

  -- The overrides and the suggestions together, before they are flushed.
  unfoldable pub merged_options : Candidate R → WriteOptions → WriteOptions
  unfolding body_has_known_length
  merged_options c sugg = with_length (known_length c) (record (over zero_abi) {
    max_age = final_max_age c sugg;
    age = sugg.age;
    stale_while_revalidate = if c.use_swr then c.override_swr else sugg.stale_while_revalidate;
    stale_if_error = if c.use_sie then c.override_sie else sugg.stale_if_error;
    vary = if c.use_vary then c.override_vary else sugg.vary;
    surrogate = if c.use_surrogate then c.override_surrogate_keys else sugg.surrogate;
    sensitive = if c.use_pci then c.override_pci else sugg.sensitive;
  })

module _ {R : Type 0} (host : Host R) where
  -- The suggested options; they are not kept where they are built here.
  unfoldable pub suggested_or_fresh : Candidate R → Result WriteOptions
  suggested_or_fresh c = elim (c.suggested_options) [
    | some opts ↦ ok opts
    | none ↦ build_fresh_options host c
  ]

  unfoldable pub finalize_options : Candidate R → Result (StorageAction × WriteOptions)
  unfolding suggested_or_fresh merged_options final_action flush_to_abi
  finalize_options c =
      suggested_or_fresh c >>= λ sugg. ok (final_action c, flush_to_abi (merged_options c sugg))
