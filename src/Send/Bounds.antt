-- ===== src/Send/Bounds.antt =====
-- What the parts of `sendWithGuestCache` weigh, for a weight that counts the sending calls at most.
use compute_sdk_go.Common.{
  ℕ, ◌≤◌, ◌≡◌, refl, inl, inr, Bool, true, false, [], ◌∷◌, Option, none, some, arith, Bool-cases,
}
use compute_sdk_go.Abi.Errors.{GoError, Result, annotate}
use compute_sdk_go.Header.{Header}
use compute_sdk_go.HttpCache.Candidate.{Host, CacheOptions, Candidate}
use compute_sdk_go.HttpCache.Found.{Response, get_found_response}
use compute_sdk_go.HttpCache.Run.{done, ◌>>=◌, of_result, returns, call}
use compute_sdk_go.HttpCache.Apply.{apply_and_stream_back}
use compute_sdk_go.Send.Headers.{update_cache_headers}
use compute_sdk_go.Send.Guest.{
  SendCall, send_v3, send_async, close_lookup, storing, get_state, suggest_request, set_options,
  wait, prepare, choose_stale, start_background, lookup, find_in_cache, SendAnswers, lift_calls,
  on_error, revalidates, mask, hooked, send_async_for_caching, pending_candidate,
  start_revalidation, answer_cached, answer_stale, store_candidate, answer_plain, answer_missing,
  answer_found, with_handle,
}
use compute_sdk_go.Send.Weights.{
  AtMost, first-AtMost, second-AtMost, of_result-AtMost, on_error-AtMost, lift_calls-AtMost,
}

-- The calls but those that send, look up, start the background and close.
abbrev pub is_other : SendCall → Bool
is_other send_v3 = false
is_other send_async = false
is_other close_lookup = false
is_other start_background = false
is_other (lookup k) = false
is_other _ = true

module _ {R : Type 0} (host : Host R) (a : SendAnswers R) (options : CacheOptions) (req : Header)
    (w : SendCall → ℕ) (s : ℕ) (v3 : w send_v3 ≤ s) (async : w send_async ≤ s)
    (others : (c : SendCall) → is_other c ≡ true → w c ≡ 0) where
  quiet :
      {A : Type 0} (c : SendCall) (r : Result A)
      → is_other c ≡ true
      → AtMost w 0 (of_result (c ∷ []) r)
  quiet c r o = of_result-AtMost w (c ∷ []) r 0 (omega (arith, others c o))

  silent : {A : Type 0} (r : Result A) (n : ℕ) → AtMost w n (of_result [] r)
  silent r n = of_result-AtMost w [] r n (omega arith)

  hooked-AtMost : AtMost w 0 (hooked host a options req)
  hooked-AtMost =
      elim (a.before_send)
        as (λ b. AtMost w 0 (elim b [ none ↦ returns options | some r ↦ of_result [] r ])) [
          | none ↦ omega arith
          | some r ↦ silent r 0
        ]

  async-AtMost : AtMost w s (send_async_for_caching host a options req)
  unfolding send_async_for_caching
  async-AtMost = ground (arith, async, others suggest_request refl, others set_options refl)

  pub pending-AtMost :
      (opts : CacheOptions) → AtMost w 0 (pending_candidate host a options req opts)
  unfolding pending_candidate
  pending-AtMost opts = ground (arith, others wait refl, others prepare refl)

  stale-AtMost : (state : ℕ) (e : GoError) → AtMost w 0 (answer_stale host a options req state e)
  unfolding answer_stale
  stale-AtMost state e = ground (arith, others choose_stale refl, others (find_in_cache false) refl)

  store-AtMost : (c : Candidate R) → AtMost w 0 (store_candidate host a options req c)
  unfolding store_candidate
  store-AtMost c =
      first-AtMost w (lift_calls (apply_and_stream_back a.stored host c))
        (λ r. returns (update_cache_headers req r, false)) 0
        (lift_calls-AtMost w (apply_and_stream_back a.stored host c) (λ k. others (storing k) refl))
        (λ r. omega arith)

  plain-AtMost : (r : Result Response) → AtMost w 0 (answer_plain host a options req r)
  unfolding answer_plain
  plain-AtMost r = ground arith

  revalidation-AtMost :
      w start_background ≡ 0
      → (state : ℕ) → AtMost w s (start_revalidation host a options req state)
  revalidation-AtMost bg state = elim (Bool-cases (revalidates state)) [
    | inl e ↦
        rw (e, start_revalidation)
          (second-AtMost w (send_async_for_caching host a options req)
            (λ opts. (start_background ∷ [], done false)) s async-AtMost
            (λ opts. omega (arith, bg)))
    | inr e ↦ rw (e, start_revalidation) (omega arith)
  ]

  cached-AtMost :
      w start_background ≡ 0
      → (state : ℕ) (r : Response) → AtMost w s (answer_cached host a options req state r)
  unfolding answer_cached
  cached-AtMost bg state r =
      second-AtMost w (start_revalidation host a options req state)
        (λ kept. returns (update_cache_headers req (mask state r), kept)) s
        (revalidation-AtMost bg state) (λ kept. omega arith)

  pub missing-AtMost : (state : ℕ) → AtMost w s (answer_missing host a options req state)
  unfolding answer_missing
  missing-AtMost state = elim (Bool-cases (revalidates state)) [
    | inl e ↦ rw e (
        second-AtMost w (send_async_for_caching host a options req)
          (λ opts.
            on_error (pending_candidate host a options req opts)
              (answer_stale host a options req state) (store_candidate host a options req))
          s async-AtMost
          (λ opts.
            on_error-AtMost w (pending_candidate host a options req opts)
              (answer_stale host a options req state) (store_candidate host a options req)
              (pending-AtMost opts) (stale-AtMost state) store-AtMost))
    | inr e ↦ rw e (
        second-AtMost w (call send_v3 "send v3" a.sent)
          (λ r. answer_plain host a options req (a.new_response r)) s
          (of_result-AtMost w (send_v3 ∷ []) (annotate "send v3" a.sent) s (omega (arith, v3)))
          (λ r. plain-AtMost (a.new_response r)))
  ]

  found-AtMost :
      w start_background ≡ 0
      → (state : ℕ) (o : Option Response) → AtMost w s (answer_found host a options req state o)
  found-AtMost bg state (some r) = cached-AtMost bg state r
  found-AtMost bg state none = missing-AtMost state

  pub with_handle-AtMost : w start_background ≡ 0 → AtMost w s (with_handle host a options req)
  unfolding with_handle
  with_handle-AtMost bg =
      first-AtMost w (call get_state "get state" a.state)
        (λ state.
          of_result (find_in_cache true ∷ []) (get_found_response a.handle true)
          >>= answer_found host a options req state)
        s (quiet get_state (annotate "get state" a.state) refl)
        (λ state.
          first-AtMost w (of_result (find_in_cache true ∷ []) (get_found_response a.handle true))
            (answer_found host a options req state) s
            (quiet (find_in_cache true) (get_found_response a.handle true) refl)
            (found-AtMost bg state))
