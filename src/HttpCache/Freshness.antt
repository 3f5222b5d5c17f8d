-- ===== src/HttpCache/Freshness.antt =====
-- What a candidate reports, what it writes, and what reaches the host.
use compute_sdk_go.Common.{◌^◌, ◌<◌, ◌≡◌, refl, inl, inr, none, arith, if◌then◌else◌}
use compute_sdk_go.Abi.Errors.{Result-cases, ok}
use compute_sdk_go.HttpCache.{StorageAction, insert, update}
use compute_sdk_go.HttpCache.Seconds.{u64ns_to_u32s-u32s_to_u64ns}
use compute_sdk_go.HttpCache.Options.{WriteOptions, over, flush_to_abi, load_from_abi}
use compute_sdk_go.HttpCache.Candidate.{Host, Candidate, is_update}
use compute_sdk_go.HttpCache.Setters.{set_cacheable}
use compute_sdk_go.HttpCache.Finalize.{
  final_action, merged_options, finalize_options, suggested_or_fresh, body_has_known_length,
}

-- The seconds of a record of options fit 32 bits.
pub record IsU32 (o : WriteOptions) : Type 0 where
  pub max_age_fits : o.max_age < 2 ^ 32
  pub age_fits : o.age < 2 ^ 32
  pub swr_fits : o.stale_while_revalidate < 2 ^ 32
  pub sie_fits : o.stale_if_error < 2 ^ 32

-- The options that the host keeps, without the length.
pub record SameSettings (o p : WriteOptions) : Type 0 where
  pub same_max_age : o.max_age ≡ p.max_age
  pub same_age : o.age ≡ p.age
  pub same_swr : o.stale_while_revalidate ≡ p.stale_while_revalidate
  pub same_sie : o.stale_if_error ≡ p.stale_if_error
  pub same_vary : o.vary ≡ p.vary
  pub same_surrogate : o.surrogate ≡ p.surrogate
  pub same_sensitive : o.sensitive ≡ p.sensitive

-- Options that are flushed to the host's record are read back from it as they were, seconds,
-- texts and the flag for sensitive data, if the seconds fit 32 bits.
pub load_from_abi-flush_to_abi :
    (o : WriteOptions) → IsU32 o → SameSettings (load_from_abi (over (flush_to_abi o).abi_opts)) o
unfolding load_from_abi flush_to_abi
load_from_abi-flush_to_abi o h = record {
  same_max_age = u64ns_to_u32s-u32s_to_u64ns o.max_age h.max_age_fits;
  same_age = u64ns_to_u32s-u32s_to_u64ns o.age h.age_fits;
  same_swr = u64ns_to_u32s-u32s_to_u64ns o.stale_while_revalidate h.swr_fits;
  same_sie = u64ns_to_u32s-u32s_to_u64ns o.stale_if_error h.sie_fits;
  same_vary = refl;
  same_surrogate = refl;
  same_sensitive = refl;
}

module _ {R : Type 0} where
  merged-no_length :
      (c : Candidate R) (s : WriteOptions)
      → (flush_to_abi (merged_options c s)).abi_opts.object_length ≡ none
  unfolding merged_options flush_to_abi body_has_known_length
  merged-no_length c s = ground arith

  -- `SetCacheable` turns the storage action into an insertion, and leaves an update an update.
  pub final_action-set_cacheable :
      (c : Candidate R)
      → final_action (set_cacheable c) ≡ (if is_update (final_action c) then update else insert)
  unfolding final_action set_cacheable
  final_action-set_cacheable c = ground arith

module _ {R : Type 0} (host : Host R) where
  pub finalize-parts :
      (c : Candidate R) (action : StorageAction) (opts : WriteOptions)
      → finalize_options host c ≡ ok (action, opts)
      → (s : WriteOptions) × (suggested_or_fresh host c ≡ ok s)
        × (action ≡ final_action c)
        × (opts ≡ flush_to_abi (merged_options c s))
  unfolding finalize_options
  finalize-parts c action opts h = elim (Result-cases (suggested_or_fresh host c)) [
    | inl (s, e) ↦ let g = rw e at h in (s, e, cc, cc)
    | inr (x, e) ↦ let g = rw e at h in absurd (cc)
  ]

  -- The length of the body never reaches the host: `finalizeOptions` leaves the host's record
  -- without one, though it has looked the length up.
  pub finalize_options-no_length :
      (c : Candidate R) (action : StorageAction) (opts : WriteOptions)
      → finalize_options host c ≡ ok (action, opts)
      → opts.abi_opts.object_length ≡ none
  finalize_options-no_length c action opts h =
      let (s, e, p, q) = finalize-parts c action opts h in rw q (merged-no_length c s)
