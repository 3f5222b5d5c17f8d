-- ===== src/HttpCache/Outcome.antt =====
-- How a foreground run ends: with the response of its storage action, with an error, or with a nil
-- dereference where the cache does not give back what was just stored.
use compute_sdk_go.Common.{
  ℕ, ◌≡◌, refl, sym, ◌∙◌, ◌≢◌, ◌⊎◌, false, Option, none, some, [], ◌∷◌, arith, Bytes,
}
use compute_sdk_go.Abi.Errors.{ok}
use compute_sdk_go.HttpCache.{
  StorageAction, insert, update, do_not_store, record_uncacheable, unknown,
}
use compute_sdk_go.HttpCache.Options.{WriteOptions}
use compute_sdk_go.HttpCache.Candidate.{Host, Candidate}
use compute_sdk_go.HttpCache.Found.{Response, from_cache}
use compute_sdk_go.HttpCache.Finalize.{finalize_options}
use compute_sdk_go.HttpCache.Transactions.{asked, perform_nil, perform-no_panic}
use compute_sdk_go.HttpCache.Apply.{Answers, perform, settle, apply_and_stream_back, Call}
use compute_sdk_go.HttpCache.Run.{done, failed, panics, Run, ◌>>=◌}

module _ {R : Type 0} (a : Answers) (host : Host R) (c : Candidate R) where
  run_of :
      (action : StorageAction) (opts : WriteOptions)
      → finalize_options host c ≡ ok (action, opts)
      → (apply_and_stream_back a host c).1
        ≡ (perform a action opts c.body_transform >>= settle action).1
  unfolding apply_and_stream_back
  run_of action opts e = rw e refl

  settled_action :
      (action : StorageAction) (m : Run Call (Option Response)) (r : Response)
      → (m >>= settle action).1 ≡ done r
      → r.cache_response.storage_action ≡ action
  settled_action action (calls, done none) r h = cc
  settled_action action (calls, done (some q)) r h = ground arith
  settled_action action (calls, failed e) r h = cc
  settled_action action (calls, panics) r h = cc

  settled_panic :
      (action : StorageAction) (m : Run Call (Option Response))
      → (m >>= settle action).1 ≡ panics
      → m.1 ≢ panics
      → m.1 ≡ done none
  settled_panic action (calls, done none) h n = refl
  settled_panic action (calls, done (some q)) h n = cc
  settled_panic action (calls, failed e) h n = cc
  settled_panic action (calls, panics) h n = absurd (n refl)

  -- A response that the run returns carries the storage action of the candidate.
  pub apply-action :
      (action : StorageAction) (opts : WriteOptions) (r : Response)
      → finalize_options host c ≡ ok (action, opts)
      → (apply_and_stream_back a host c).1 ≡ done r
      → r.cache_response.storage_action ≡ action
  apply-action action opts r e h =
      settled_action action (perform a action opts c.body_transform) r
        (sym (run_of action opts e) ∙ h)

  -- The run dereferences nil only for a storage action that has no number of its own, or where the
  -- cache answers that it has no response for the handle that it has just given.
  pub apply-panics :
      (action : StorageAction) (opts : WriteOptions)
      → finalize_options host c ≡ ok (action, opts)
      → (apply_and_stream_back a host c).1 ≡ panics
      → (asked action ≡ []) ⊎ (a.found ≡ ok none)
  apply-panics action opts e h = perform_nil a opts c.body_transform action (
      settled_panic action (perform a action opts c.body_transform) (sym (run_of action opts e) ∙ h)
        (perform-no_panic a opts c.body_transform action))

module _ (a : Answers) (opts : WriteOptions) (transform : Option (Bytes → Bytes)) where
  unknown_none : (n : ℕ) → (perform a (unknown n) opts transform).1 ≡ done none
  unfolding perform
  unknown_none n = refl

  known_of_done :
      (action : StorageAction) (r : Response)
      → (perform a action opts transform >>= settle action).1 ≡ done r
      → asked action ≡ action ∷ []
  unfolding perform
  known_of_done (unknown n) r h = cc
  known_of_done insert r h = refl
  known_of_done _ r h = refl

known_not_cached :
    (r : Response) (action : StorageAction)
    → r.cache_response.storage_action ≡ action
    → asked action ≡ action ∷ []
    → from_cache r ≡ false
unfolding from_cache
known_not_cached r insert e h = rw e
known_not_cached r update e h = rw e
known_not_cached r do_not_store e h = rw e
known_not_cached r record_uncacheable e h = rw e
known_not_cached r (unknown n) e h = cc

module _ {R : Type 0} (a : Answers) (host : Host R) (c : Candidate R) where
  -- A response that comes fresh from the backend never says that it is from the cache, whatever
  -- the storage action is.
  pub apply-from_cache :
      (action : StorageAction) (opts : WriteOptions) (r : Response)
      → finalize_options host c ≡ ok (action, opts)
      → (apply_and_stream_back a host c).1 ≡ done r
      → from_cache r ≡ false
  apply-from_cache action opts r e h =
      known_not_cached r action (apply-action a host c action opts r e h)
        (known_of_done a opts c.body_transform action r (sym (run_of a host c action opts e) ∙ h))
