-- ===== src/Send/Guest.antt =====
-- fsthttp/request.go: `sendWithGuestCache`, as a run that records its host calls in order. What the
-- host answers, and the hooks of the program, are the parameter `SendAnswers`.
use compute_sdk_go.Common.{
  ℕ, Bool, true, false, not, ◌&&◌, [], ◌∷◌, ◌++◌, map, Option, none, some, ◌==◌, if◌then◌else◌,
  Bytes, is_empty, length,
}
use compute_sdk_go.Abi.Status.{has, lookup_must_insert_or_update, lookup_usable_if_error}
use compute_sdk_go.Abi.Errors.{GoError, Result, ok, err, annotate}
use compute_sdk_go.Header.{Header}
use compute_sdk_go.HttpCache.Candidate.{Body, Host, CacheOptions, Candidate, new_candidate}
use compute_sdk_go.HttpCache.Found.{Handle, Response, get_found_response}
use compute_sdk_go.HttpCache.Run.{Run, done, failed, panics, ◌>>=◌, returns, of_result, call}
use compute_sdk_go.HttpCache.Apply.{Call, Answers, apply_and_stream_back, apply_in_background}
use compute_sdk_go.Send.Headers.{update_cache_headers}

-- The host calls; `storing` is a call of the candidate that is stored.
pub data SendCall : Type 0 where
  check_cacheable send_v3 get_state suggest_request set_options : SendCall
  send_async wait prepare choose_stale start_background close_lookup : SendCall
  -- with the key that overrides the cache key, where it is not empty
  lookup : Bytes → SendCall
  -- with `wasHit`
  find_in_cache : Bool → SendCall
  storing : Call → SendCall

pub record SendAnswers (R : Type 0) : Type 0 where
  pub cacheable : Result Bool
  -- `SendV3`, and `newResponse` on its response.
  pub sent : Result R
  pub new_response : R → Result Response
  pub looked_up : Result (Unit {0})
  pub state : Result ℕ
  pub handle : Handle
  pub stale_handle : Handle
  -- `HTTPCacheGetSuggestedBackendRequest` and `newRequestFromHandle`
  pub suggested : Result (Unit {0})
  -- The hook `BeforeSend`: nil, or its answer, with the cache options that it leaves.
  pub before_send : Option (Result CacheOptions)
  pub options_set : Result (Unit {0})
  pub sent_async : Result (Unit {0})
  -- `Wait`
  pub arrived : Result (R × Body)
  -- The hook `AfterSend`.
  pub after_send : Option (Candidate R → Result (Candidate R))
  pub stored : Answers

-- `ErrRequestCollapse`
abbrev pub request_collapse : GoError
request_collapse = GoError.plain "error during request collapse"

abbrev pub lift_calls : {A : Type 0} → Run Call A → Run SendCall A
lift_calls (calls, o) = (map storing calls, o)

-- `if err != nil`, with code for the error.
abbrev pub on_error :
    {A B : Type 0}
    → Run SendCall A
    → (GoError → Run SendCall B)
    → (A → Run SendCall B)
    → Run SendCall B
on_error (calls, done a) g f = (calls ++ (f a).0, (f a).1)
on_error (calls, failed e) g f = (calls ++ (g e).0, (g e).1)
on_error (calls, panics) g f = (calls, panics)

-- What is returned, and whether `cacheHandle` is still set then.
abbrev pub Kept : Type 0
Kept = Response × Bool

-- The deferred function: it closes the handle unless that has been set to nil.
abbrev pub close_kept : Run SendCall Kept → Run SendCall Response
close_kept (calls, done (r, kept)) = (calls ++ (if kept then close_lookup ∷ [] else []), done r)
close_kept (calls, failed e) = (calls ++ close_lookup ∷ [], failed e)
close_kept (calls, panics) = (calls ++ close_lookup ∷ [], panics)

abbrev pub revalidates : ℕ → Bool
revalidates state = has state lookup_must_insert_or_update

abbrev pub usable_if_error : ℕ → Bool
usable_if_error state = has state lookup_usable_if_error

abbrev pub mask : ℕ → Response → Response
mask state r =
    if usable_if_error state then record r { masked_error = some request_collapse } else r

module _ {R : Type 0} (host : Host R) (a : SendAnswers R) (options : CacheOptions)
    (req : Header) where
  abbrev pub hooked : Run SendCall CacheOptions
  hooked = elim (a.before_send) [ none ↦ returns options | some r ↦ of_result [] r ]

  unfoldable pub send_async_for_caching : Run SendCall CacheOptions
  send_async_for_caching = call suggest_request "get suggested backend request" a.suggested >>= λ _.
      hooked >>= λ opts. of_result (set_options ∷ []) a.options_set >>= λ _.
      call send_async "send async" a.sent_async >>= λ _. returns opts

  abbrev pub after : Candidate R → Run SendCall (Candidate R)
  after c = elim (a.after_send) [
    | none ↦ returns c
    | some fn ↦ of_result [] (annotate "after send" (fn c))
  ]

  -- `newCandidateFromPendingBackendCaching`
  unfoldable pub pending_candidate : CacheOptions → Run SendCall (Candidate R)
  pending_candidate opts = of_result (wait ∷ []) a.arrived >>= λ p.
      call prepare "new candidate" (new_candidate host opts p.0 p.1) >>= after

  -- The goroutine: without a candidate it returns at once, and the error of the storing is dropped.
  unfoldable pub revalidate_in_background : CacheOptions → Run SendCall (Unit {0})
  unfolding pending_candidate
  revalidate_in_background opts = pending_candidate opts >>= λ c.
      ((lift_calls (apply_in_background a.stored host c)).0 ++ close_lookup ∷ [], done tt)

  -- A response from the cache; the result tells whether the handle is kept.
  abbrev pub start_revalidation : ℕ → Run SendCall Bool
  start_revalidation state =
      if revalidates state
      then (send_async_for_caching >>= λ opts. (start_background ∷ [], done false))
      else returns true

  unfoldable pub answer_cached : ℕ → Response → Run SendCall Kept
  unfolding send_async_for_caching update_cache_headers
  answer_cached state r =
      start_revalidation state >>= λ kept. returns (update_cache_headers req (mask state r), kept)

  abbrev pub with_masked : GoError → Option Response → Run SendCall Kept
  with_masked e none = ([], panics)
  with_masked e (some r) =
      returns (update_cache_headers req (record r { masked_error = some e }), true)

  -- The stale response, where the backend has failed.
  unfoldable pub answer_stale : ℕ → GoError → Run SendCall Kept
  unfolding update_cache_headers
  answer_stale state e =
      if usable_if_error state
      then (of_result (choose_stale ∷ find_in_cache false ∷ [])
            (get_found_response a.stale_handle false)
          >>= with_masked e)
      else ([], failed e)

  unfoldable pub store_candidate : Candidate R → Run SendCall Kept
  unfolding update_cache_headers
  store_candidate c = lift_calls (apply_and_stream_back a.stored host c) >>= λ r.
      returns (update_cache_headers req r, false)

  -- The request as it is, without the cache.
  unfoldable pub answer_plain : Result Response → Run SendCall Kept
  unfolding update_cache_headers
  answer_plain response = of_result [] response >>= λ r. returns (update_cache_headers req r, true)

  unfoldable pub answer_missing : ℕ → Run SendCall Kept
  unfolding send_async_for_caching pending_candidate answer_stale store_candidate answer_plain
  answer_missing state =
      if revalidates state
      then (send_async_for_caching >>= λ opts.
          on_error (pending_candidate opts) (answer_stale state) store_candidate)
      else (call send_v3 "send v3" a.sent >>= λ r. answer_plain (a.new_response r))

  abbrev pub answer_found : ℕ → Option Response → Run SendCall Kept
  answer_found state (some r) = answer_cached state r
  answer_found state none = answer_missing state

  -- All behind the lookup.
  unfoldable pub with_handle : Run SendCall Kept
  unfolding answer_cached answer_missing
  with_handle = call get_state "get state" a.state >>= λ state.
      of_result (find_in_cache true ∷ []) (get_found_response a.handle true) >>= answer_found state

  abbrev pub bad_key : Bytes → Bool
  bad_key key = not (is_empty key) && not (length key == 32)

  -- The annotation of the first error does not wrap it.
  abbrev pub checked : Result Bool → Result Bool
  checked (ok b) = ok b
  checked (err e) = err (GoError.plain "request not cacheable")

  abbrev pub first_of : Kept → Run SendCall Response
  first_of p = returns p.0

  unfoldable pub send_with_guest_cache : Bytes → Run SendCall Response
  unfolding with_handle answer_plain
  send_with_guest_cache key = of_result (check_cacheable ∷ []) (checked a.cacheable) >>= λ yes.
      if not yes
      then (call send_v3 "send v3" a.sent >>= λ r.
          answer_plain (annotate "construct response" (a.new_response r)) >>= first_of)
      else if bad_key key
      then ([], failed (GoError.plain "bad length for OverrideKey"))
      else (call (lookup key) "cache transaction lookup" a.looked_up >>= λ _.
          close_kept with_handle)
