-- ===== src/Send/Released.antt =====
-- Behind the lookup, a run that succeeds keeps the handle, hands it on, or uses it up by storing.
use compute_sdk_go.Common.{
  ℕ, ◌+◌, ◌≡◌, refl, ap, inl, inr, true, false, List, [], ◌∷◌, map, Option, none, some, arith,
  Bool-cases, if◌then◌else◌, length, length-append,
}
use mathlib.Core.Bool.{false≢true}
use compute_sdk_go.Abi.Errors.{GoError, Result, Result-cases, ok, annotate}
use compute_sdk_go.Header.{Header}
use compute_sdk_go.HttpCache.{
  StorageAction, insert, update, do_not_store, record_uncacheable, unknown,
}
use compute_sdk_go.HttpCache.Options.{WriteOptions}
use compute_sdk_go.HttpCache.Candidate.{Host, CacheOptions, Candidate}
use compute_sdk_go.HttpCache.Found.{Response, get_found_response}
use compute_sdk_go.HttpCache.Finalize.{finalize_options}
use compute_sdk_go.HttpCache.Run.{Run, done, failed, panics, ◌>>=◌, of_result, returns, call}
use compute_sdk_go.HttpCache.Apply.{Call, apply_and_stream_back, perform}
use compute_sdk_go.HttpCache.Transactions.{
  asked, ended_by, storage_actions, apply-storage_actions, stream_back_fails,
}
use compute_sdk_go.Send.Headers.{update_cache_headers}
use compute_sdk_go.Send.Guest.{
  SendCall, send_v3, start_background, close_lookup, storing, get_state, find_in_cache, SendAnswers,
  Kept, close_kept, lift_calls, on_error, revalidates, send_async_for_caching, pending_candidate,
  answer_cached, answer_stale, store_candidate, answer_plain, answer_missing, answer_found,
  with_handle,
}
use compute_sdk_go.Send.Weights.{total, total-append, AtMost, of_result-AtMost, closing}
use compute_sdk_go.Send.Handles.{is_done, kept}

-- The handle of the lookup is handed on to the background, or a call that stores ends its transaction.
abbrev pub releasing : SendCall → ℕ
releasing start_background = 1
releasing (storing c) = length (ended_by c)
releasing _ = 0

abbrev pub Settled : Run SendCall Kept → Type 0
Settled m = is_done m.1 ≡ true → total releasing m.0 + (if kept m.1 then 1 else 0) ≡ 1

first-Settled :
    {A : Type 0} (m : Run SendCall A) (f : A → Run SendCall Kept)
    → AtMost releasing 0 m
    → ((x : A) → Settled (f x))
    → Settled (m >>= f)
first-Settled (calls, done x) f h k d = omega (arith, total-append releasing calls (f x).0, k x d)
first-Settled (calls, failed e) f h k d = absurd (ground arith)
first-Settled (calls, panics) f h k d = absurd (ground arith)

on_error-Settled :
    {A : Type 0} (m : Run SendCall A) (g : GoError → Run SendCall Kept) (f : A → Run SendCall Kept)
    → AtMost releasing 0 m
    → ((e : GoError) → Settled (g e))
    → ((x : A) → Settled (f x))
    → Settled (on_error m g f)
on_error-Settled (calls, done x) g f h l k d =
    omega (arith, total-append releasing calls (f x).0, k x d)
on_error-Settled (calls, failed e) g f h l k d =
    omega (arith, total-append releasing calls (g e).0, l e d)
on_error-Settled (calls, panics) g f h l k d = absurd (ground arith)

total-storing : (cs : List Call) → total releasing (map storing cs) ≡ length (storage_actions cs)
total-storing [] = refl
total-storing (c ∷ cs) =
    omega (arith, length-append (ended_by c) (storage_actions cs), total-storing cs)

module _ {R : Type 0} (host : Host R) (a : SendAnswers R) (options : CacheOptions)
    (req : Header) where
  async_quiet : AtMost releasing 0 (send_async_for_caching host a options req)
  unfolding send_async_for_caching
  async_quiet = ground arith

  pending_quiet :
      (opts : CacheOptions) → AtMost releasing 0 (pending_candidate host a options req opts)
  unfolding pending_candidate
  pending_quiet opts = ground arith

  stale-Settled : (state : ℕ) (e : GoError) → Settled (answer_stale host a options req state e)
  unfolding answer_stale
  stale-Settled state e d = ground arith

  plain-Settled : (r : Result Response) → Settled (answer_plain host a options req r)
  unfolding answer_plain
  plain-Settled r d = ground arith

  cached-Settled : (state : ℕ) (r : Response) → Settled (answer_cached host a options req state r)
  unfolding answer_cached send_async_for_caching
  cached-Settled state r d = ground arith

  unknown_fails :
      (c : Candidate R) (n : ℕ) (opts : WriteOptions)
      → finalize_options host c ≡ ok (unknown n, opts)
      → is_done (apply_and_stream_back a.stored host c).1 ≡ false
  unfolding apply_and_stream_back perform
  unknown_fails c n opts e = rw e refl

  -- A candidate that is stored has ended the transaction.
  stored_once :
      (c : Candidate R)
      → is_done (apply_and_stream_back a.stored host c).1 ≡ true
      → length (storage_actions (apply_and_stream_back a.stored host c).0) ≡ 1
  stored_once c d = elim (Result-cases (finalize_options host c)) [
    | inr (x, e) ↦
        let bad : false ≡ true = rw (stream_back_fails a.stored host c x e) at d in
        absurd (false≢true bad)
    | inl ((action, opts), e) ↦
        by_action action opts e (apply-storage_actions a.stored host c action opts e).0
  ]
    where
      by_action :
          (action : StorageAction) (opts : WriteOptions)
          → finalize_options host c ≡ ok (action, opts)
          → storage_actions (apply_and_stream_back a.stored host c).0 ≡ asked action
          → length (storage_actions (apply_and_stream_back a.stored host c).0) ≡ 1
      by_action (unknown n) opts e q = absurd (ground (arith, unknown_fails c n opts e))
      by_action insert opts e q = ap length q
      by_action update opts e q = ap length q
      by_action do_not_store opts e q = ap length q
      by_action record_uncacheable opts e q = ap length q

  store-Settled : (c : Candidate R) → Settled (store_candidate host a options req c)
  unfolding store_candidate
  store-Settled c = by_run (apply_and_stream_back a.stored host c) (stored_once c)
    where
      by_run :
          (m : Run Call Response)
          → (is_done m.1 ≡ true → length (storage_actions m.0) ≡ 1)
          → Settled (lift_calls m >>= λ r. returns (update_cache_headers req r, false))
      by_run (calls, done r) h d =
          omega (arith, total-append releasing (map storing calls) [], total-storing calls, h refl)
      by_run (calls, failed e) h d = absurd (ground arith)
      by_run (calls, panics) h d = absurd (ground arith)

  missing-Settled : (state : ℕ) → Settled (answer_missing host a options req state)
  unfolding answer_missing
  missing-Settled state = elim (Bool-cases (revalidates state)) [
    | inl e ↦ rw e (
        first-Settled (send_async_for_caching host a options req)
          (λ opts.
            on_error (pending_candidate host a options req opts)
              (answer_stale host a options req state) (store_candidate host a options req))
          async_quiet
          (λ opts.
            on_error-Settled (pending_candidate host a options req opts)
              (answer_stale host a options req state) (store_candidate host a options req)
              (pending_quiet opts) (stale-Settled state) store-Settled))
    | inr e ↦ rw e (
        first-Settled (call send_v3 "send v3" a.sent)
          (λ r. answer_plain host a options req (a.new_response r))
          (of_result-AtMost releasing (send_v3 ∷ []) (annotate "send v3" a.sent) 0 (omega arith))
          (λ r. plain-Settled (a.new_response r)))
  ]

  found-Settled :
      (state : ℕ) (o : Option Response) → Settled (answer_found host a options req state o)
  found-Settled state (some r) = cached-Settled state r
  found-Settled state none = missing-Settled state

  pub with_handle-Settled : Settled (with_handle host a options req)
  unfolding with_handle
  with_handle-Settled =
      first-Settled (call get_state "get state" a.state)
        (λ state.
          of_result (find_in_cache true ∷ []) (get_found_response a.handle true)
          >>= answer_found host a options req state)
        (of_result-AtMost releasing (get_state ∷ []) (annotate "get state" a.state) 0 (omega arith))
        (λ state.
          first-Settled (of_result (find_in_cache true ∷ []) (get_found_response a.handle true))
            (answer_found host a options req state)
            (of_result-AtMost releasing (find_in_cache true ∷ []) (get_found_response a.handle true)
              0 (omega arith))
            (found-Settled state))

-- What the deferred function adds, where the run succeeds.
pub close_kept-Settled :
    (m : Run SendCall Kept)
    → AtMost closing 0 m
    → Settled m
    → is_done (close_kept m).1 ≡ true
    → total closing (close_kept m).0 + total releasing (close_kept m).0 ≡ 1
close_kept-Settled (calls, done (r, true)) h s d = omega (
  arith,
  total-append closing calls (close_lookup ∷ []),
  total-append releasing calls (close_lookup ∷ []),
  s refl,
)
close_kept-Settled (calls, done (r, false)) h s d =
    omega (arith, total-append closing calls [], total-append releasing calls [], s refl)
close_kept-Settled (calls, failed e) h s d = absurd (ground arith)
close_kept-Settled (calls, panics) h s d = absurd (ground arith)
