-- ===== src/Send/Accounting.antt =====
-- The backend is asked once at most, and the cache handle of the lookup is closed where it has to be.
use compute_sdk_go.Common.{
  ℕ, ◌+◌, ◌≤◌, ◌≡◌, refl, inl, inr, true, false, List, [], ◌∷◌, ◌++◌, some, arith, Bool-cases,
  if◌then◌else◌, Bytes,
}
use compute_sdk_go.Abi.Errors.{GoError, Result, Result-cases, ok, err, annotate}
use compute_sdk_go.Header.{Header}
use compute_sdk_go.HttpCache.Candidate.{Host, CacheOptions, Candidate}
use compute_sdk_go.HttpCache.Found.{Response, get_found_response}
use compute_sdk_go.HttpCache.Run.{Run, done, failed, panics, ◌>>=◌, call}
use compute_sdk_go.HttpCache.Transactions.{is_ok}
use compute_sdk_go.HttpCache.Apply.{apply_in_background}
use compute_sdk_go.Send.Headers.{update_cache_headers}
use compute_sdk_go.Send.Guest.{
  SendCall, send_v3, close_lookup, check_cacheable, lookup, SendAnswers, Kept, close_kept,
  answer_plain, answer_cached, with_handle, send_with_guest_cache, bad_key, first_of, revalidates,
  pending_candidate, revalidate_in_background, lift_calls, mask,
}
use compute_sdk_go.Send.Weights.{
  total, total-append, AtMost, first-AtMost, of_result-AtMost, lift_calls-AtMost, to_backend,
  closing, handing_on, looking_up,
}
use compute_sdk_go.Send.Bounds.{pending-AtMost}
use compute_sdk_go.Send.Handles.{
  other-closing, is_done, HandedOnce, close_kept-weight, close_kept-closing, close_kept-handing_on,
  kept_of_failed, with_handle-to_backend, with_handle-closing, with_handle-looking_up,
  with_handle-HandedOnce,
}
use compute_sdk_go.Send.Released.{releasing, Settled, with_handle-Settled, close_kept-Settled}

-- The handles that lookups gave.
abbrev pub granted {ℓ} : {A : Type ℓ} → Result A → List SendCall → ℕ
granted looked_up calls = if is_ok looked_up then total looking_up calls else 0

-- What a run does with the handle of its lookup: it closes it or hands it on to the background,
-- once at most; where it fails, it closes the handle that it was given; and where it succeeds, it
-- closes it, hands it on, or uses it up by a call that stores, one of these and once.
pub record Accounted {A : Type 0} (looked_up : Result (Unit {0})) (run : Run SendCall A)
    : Type 0 where
  pub once : total closing run.0 + total handing_on run.0 ≤ granted looked_up run.0
  pub on_failure : is_done run.1 ≡ false → total closing run.0 ≡ granted looked_up run.0
  pub on_success :
      is_done run.1 ≡ true → total closing run.0 + total releasing run.0 ≡ granted looked_up run.0

looked-Accounted :
    (k : Bytes) (r : Result (Unit {0})) (m : Run SendCall Kept)
    → AtMost closing 0 m
    → AtMost looking_up 0 m
    → HandedOnce m
    → Settled m
    → Accounted r (call (lookup k) "cache transaction lookup" r >>= λ _. close_kept m)
looked-Accounted k (err e) m c l h s = record {
  once = omega arith;
  on_failure = λ f. omega arith;
  on_success = λ d. absurd (ground arith);
}
looked-Accounted k (ok u) m c l h s =
    let cl = close_kept-closing m c in
    let ho = close_kept-handing_on m in
    let lu = close_kept-weight looking_up 0 m refl l in
    record {
      once = ground arith;
      on_failure = λ f. let t = kept_of_failed m f in ground arith;
      on_success = λ d. let t = close_kept-Settled m c s d in omega arith;
    }

plain-Accounted :
    {R : Type 0} (host : Host R) (a : SendAnswers R) (options : CacheOptions) (req : Header)
    → Accounted a.looked_up (
        call send_v3 "send v3" a.sent >>= λ r.
        answer_plain host a options req (annotate "construct response" (a.new_response r))
        >>= first_of host a options req)
unfolding answer_plain
plain-Accounted host a options req = record {
  once = ground arith;
  on_failure = λ f. ground arith;
  on_success = λ d. ground arith;
}

prefixed-Accounted :
    {A : Type 0} (r : Result (Unit {0})) (m : Run SendCall A)
    → Accounted r m
    → Accounted r (check_cacheable ∷ m.0, m.1)
prefixed-Accounted r m h =
    let once = h.once in
    record {
      once = ground arith;
      on_failure = λ f. let g = h.on_failure f in ground arith;
      on_success = λ d. let g = h.on_success d in ground arith;
    }

module _ {R : Type 0} (host : Host R) (a : SendAnswers R) (options : CacheOptions)
    (req : Header) where
  checked_key-Accounted :
      (key : Bytes)
      → Accounted a.looked_up (
          if bad_key host a options req key
          then ([], failed (GoError.plain "bad length for OverrideKey"))
          else (call (lookup key) "cache transaction lookup" a.looked_up >>= λ _.
              close_kept (with_handle host a options req)))
  checked_key-Accounted key = elim (Bool-cases (bad_key host a options req key)) [
    | inl e ↦ rw e (record {
      once = ground arith;
      on_failure = λ f. ground arith;
      on_success = λ d. ground arith;
    })
    | inr e ↦ rw e (
        looked-Accounted key a.looked_up (with_handle host a options req)
          (with_handle-closing host a options req) (with_handle-looking_up host a options req)
          (with_handle-HandedOnce host a options req) (with_handle-Settled host a options req))
  ]

  -- `sendWithGuestCache` closes the cache handle of its lookup or hands it on to the background
  -- revalidation, never both and never twice; whenever it fails after the lookup has given a handle,
  -- by an error or by a nil dereference, it has closed that handle; and whenever it succeeds then, it
  -- has done one of three things once: closed the handle, handed it on, or ended its transaction by a
  -- call that stores the response or tells the cache that it is not stored.
  pub send_with_guest_cache-Accounted :
      (key : Bytes) → Accounted a.looked_up (send_with_guest_cache host a options req key)
  unfolding send_with_guest_cache
  send_with_guest_cache-Accounted key = elim (Result-cases (a.cacheable)) [
    | inr (x, e) ↦ rw e (record {
      once = ground arith;
      on_failure = λ f. ground arith;
      on_success = λ d. ground arith;
    })
    | inl (true, e) ↦ rw e (prefixed-Accounted a.looked_up _ (checked_key-Accounted key))
    | inl (false, e) ↦ rw e (prefixed-Accounted a.looked_up _ (plain-Accounted host a options req))
  ]

  plain-once : AtMost to_backend 1 (
      call send_v3 "send v3" a.sent >>= λ r.
      answer_plain host a options req (annotate "construct response" (a.new_response r))
      >>= first_of host a options req)
  unfolding answer_plain
  plain-once = ground arith

  checked_key-once :
      (key : Bytes)
      → AtMost to_backend 1 (
          if bad_key host a options req key
          then ([], failed (GoError.plain "bad length for OverrideKey"))
          else (call (lookup key) "cache transaction lookup" a.looked_up >>= λ _.
              close_kept (with_handle host a options req)))
  checked_key-once key = elim (Bool-cases (bad_key host a options req key)) [
    | inl e ↦ rw e (omega arith)
    | inr e ↦ rw e (
        first-AtMost to_backend (call (lookup key) "cache transaction lookup" a.looked_up)
          (λ _. close_kept (with_handle host a options req)) 1
          (of_result-AtMost to_backend (lookup key ∷ [])
            (annotate "cache transaction lookup" a.looked_up) 0 (omega arith))
          (λ _.
            close_kept-weight to_backend 1 (with_handle host a options req) refl
              (with_handle-to_backend host a options req)))
  ]

  -- `sendWithGuestCache` sends one request to the backend at most, in whatever way the host and the
  -- hooks answer.
  pub send_with_guest_cache-once :
      (key : Bytes) → AtMost to_backend 1 (send_with_guest_cache host a options req key)
  unfolding send_with_guest_cache
  send_with_guest_cache-once key = elim (Result-cases (a.cacheable)) [
    | inr (x, e) ↦ rw e (omega arith)
    | inl (true, e) ↦ rw e (omega (arith, checked_key-once key))
    | inl (false, e) ↦ rw e (omega (arith, plain-once))
  ]

  -- For a cacheable request whose key is empty or has 32 bytes, and whose lookup succeeds: a response
  -- that the cache has and that need not be revalidated is returned as it is, but for the headers
  -- and for the masked error, and no request goes to the backend.
  pub send_with_guest_cache-hit :
      (key : Bytes) (state : ℕ) (r : Response)
      → a.cacheable ≡ ok true
      → bad_key host a options req key ≡ false
      → a.looked_up ≡ ok tt
      → a.state ≡ ok state
      → get_found_response a.handle true ≡ ok (some r)
      → revalidates state ≡ false
      → ((send_with_guest_cache host a options req key).1
          ≡ done (update_cache_headers req (mask state r)))
        × (total to_backend (send_with_guest_cache host a options req key).0 ≡ 0)
  unfolding send_with_guest_cache with_handle answer_cached
  send_with_guest_cache-hit key state r c k l s f v =
      rw c (rw k (rw l (rw s (rw f (rw v (refl, rw l refl))))))

  closed_behind :
      (m : Run SendCall (Candidate R))
      → AtMost closing 0 m
      → total closing
          (m >>= λ c.
            ((lift_calls (apply_in_background a.stored host c)).0 ++ close_lookup ∷ [], done tt)).0
        ≡ (if is_done m.1 then 1 else 0)
  closed_behind (calls, done c) h =
      let stored = (lift_calls (apply_in_background a.stored host c)).0 in
      let quiet = lift_calls-AtMost closing (apply_in_background a.stored host c) (λ k. refl) in
      omega (
        arith,
        total-append closing calls (stored ++ close_lookup ∷ []),
        total-append closing stored (close_lookup ∷ []),
        quiet,
      )
  closed_behind (calls, failed e) h = omega arith
  closed_behind (calls, panics) h = omega arith

  -- The background revalidation closes the handle that it got if and only if it makes a candidate
  -- of the backend's response: after an error of the backend or of `AfterSend` the handle stays
  -- open.
  pub revalidate_in_background-closing :
      (opts : CacheOptions)
      → total closing (revalidate_in_background host a options req opts).0
        ≡ (if is_done (pending_candidate host a options req opts).1 then 1 else 0)
  unfolding revalidate_in_background
  revalidate_in_background-closing opts =
      closed_behind (pending_candidate host a options req opts)
        (pending-AtMost host a options req closing 0 (omega arith) (omega arith) other-closing opts)
