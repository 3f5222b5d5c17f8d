-- ===== src/HttpCache/Setters.antt =====
-- fsthttp/cache.go: the setters of `CandidateResponse` that make no host call.
use compute_sdk_go.Common.{ℕ, Bool, true, some, if◌then◌else◌, Bytes}
use compute_sdk_go.HttpCache.{insert, do_not_store, record_uncacheable}
use compute_sdk_go.HttpCache.Candidate.{Candidate, is_update}

module _ {R : Type 0} where
  abbrev force_insert : Candidate R → Candidate R
  force_insert c =
      if is_update c.override_storage_action
      then c
      else record c { override_storage_action = insert }

  -- Insert, unless a stored response is being updated.
  unfoldable pub set_cacheable : Candidate R → Candidate R
  set_cacheable c = force_insert (
      if c.use_storage_action then c else record c {
        use_storage_action = true;
        override_storage_action = c.suggested_storage_action;
      })

  unfoldable pub set_uncacheable : Candidate R → Candidate R
  set_uncacheable c = record c { use_storage_action = true; override_storage_action = do_not_store }

  unfoldable pub set_uncacheable_disable_collapsing : Candidate R → Candidate R
  set_uncacheable_disable_collapsing c = record c {
    use_storage_action = true;
    override_storage_action = record_uncacheable;
  }

  unfoldable pub set_ttl : ℕ → Candidate R → Candidate R
  set_ttl ttl c = record c { override_ttl = ttl; use_ttl = true }

  unfoldable pub set_stale_while_revalidate : ℕ → Candidate R → Candidate R
  set_stale_while_revalidate swr c = record c { override_swr = swr; use_swr = true }

  unfoldable pub set_stale_if_error : ℕ → Candidate R → Candidate R
  set_stale_if_error sie c = record c { override_sie = sie; use_sie = true }

  unfoldable pub set_sensitive : Bool → Candidate R → Candidate R
  set_sensitive b c = record c { override_pci = b; use_pci = true }

  unfoldable pub set_vary : Bytes → Candidate R → Candidate R
  set_vary v c = record c { override_vary = v; use_vary = true }

  unfoldable pub set_surrogate_keys : Bytes → Candidate R → Candidate R
  set_surrogate_keys keys c = record c { override_surrogate_keys = keys; use_surrogate = true }

  unfoldable pub set_body_transform : (Bytes → Bytes) → Candidate R → Candidate R
  set_body_transform fn c = record c { body_transform = some fn }
