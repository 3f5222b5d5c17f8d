-- ===== src/Send/Handles.antt =====
-- What `sendWithGuestCache` does with the handle of the lookup behind the lookup.
use compute_sdk_go.Common.{
  ℕ, ◌+◌, ◌≤◌, ◌≡◌, refl, Bool, true, false, [], ◌∷◌, Option, none, some, arith, if◌then◌else◌,
}
use compute_sdk_go.Abi.Errors.{annotate}
use compute_sdk_go.Header.{Header}
use compute_sdk_go.HttpCache.Candidate.{Host, CacheOptions}
use compute_sdk_go.HttpCache.Found.{Response, get_found_response}
use compute_sdk_go.HttpCache.Run.{Run, Outcome, done, failed, panics, ◌>>=◌, of_result, call}
use compute_sdk_go.Send.Guest.{
  SendCall, close_lookup, get_state, find_in_cache, SendAnswers, Kept, close_kept,
  send_async_for_caching, answer_cached, answer_missing, answer_found, with_handle,
}
use compute_sdk_go.Send.Weights.{
  total, total-append, AtMost, of_result-AtMost, to_backend, closing, handing_on, looking_up,
}
use compute_sdk_go.Send.Bounds.{is_other, missing-AtMost, with_handle-AtMost}

abbrev pub is_done : {A : Type 0} → Outcome A → Bool
is_done (done a) = true
is_done _ = false

-- Whether the handle is still set when the function returns.
abbrev pub kept : Outcome Kept → Bool
kept (done (r, b)) = b
kept _ = true

pub other-to_backend : (c : SendCall) → is_other c ≡ true → to_backend c ≡ 0
other-to_backend c h = ground arith

pub other-closing : (c : SendCall) → is_other c ≡ true → closing c ≡ 0
other-closing c h = ground arith

other-handing_on : (c : SendCall) → is_other c ≡ true → handing_on c ≡ 0
other-handing_on c h = ground arith

other-looking_up : (c : SendCall) → is_other c ≡ true → looking_up c ≡ 0
other-looking_up c h = ground arith

-- The handle is handed on once at most, and only if it is not kept.
abbrev pub HandedOnce : Run SendCall Kept → Type 0
HandedOnce m = total handing_on m.0 + (if kept m.1 then 1 else 0) ≤ 1

first-HandedOnce :
    {A : Type 0} (m : Run SendCall A) (f : A → Run SendCall Kept)
    → AtMost handing_on 0 m
    → ((x : A) → HandedOnce (f x))
    → HandedOnce (m >>= f)
first-HandedOnce (calls, done x) f h k = ground (arith, total-append handing_on calls (f x).0, k x)
first-HandedOnce (calls, failed e) f h k = omega arith
first-HandedOnce (calls, panics) f h k = omega arith

handed_of_none : (m : Run SendCall Kept) → AtMost handing_on 0 m → HandedOnce m
handed_of_none m h = ground arith

pub close_kept-weight :
    (w : SendCall → ℕ) (n : ℕ) (m : Run SendCall Kept)
    → w close_lookup ≡ 0
    → AtMost w n m
    → AtMost w n (close_kept m)
close_kept-weight w n (calls, done (r, true)) z h =
    omega (arith, total-append w calls (close_lookup ∷ []))
close_kept-weight w n (calls, done (r, false)) z h = omega (arith, total-append w calls [])
close_kept-weight w n (calls, failed e) z h =
    omega (arith, total-append w calls (close_lookup ∷ []))
close_kept-weight w n (calls, panics) z h = omega (arith, total-append w calls (close_lookup ∷ []))

-- What the deferred function adds.
pub close_kept-closing :
    (m : Run SendCall Kept)
    → AtMost closing 0 m
    → total closing (close_kept m).0 ≡ (if kept m.1 then 1 else 0)
close_kept-closing (calls, done (r, true)) h =
    omega (arith, total-append closing calls (close_lookup ∷ []))
close_kept-closing (calls, done (r, false)) h = omega (arith, total-append closing calls [])
close_kept-closing (calls, failed e) h =
    omega (arith, total-append closing calls (close_lookup ∷ []))
close_kept-closing (calls, panics) h = omega (arith, total-append closing calls (close_lookup ∷ []))

pub close_kept-handing_on :
    (m : Run SendCall Kept) → total handing_on (close_kept m).0 ≡ total handing_on m.0
close_kept-handing_on (calls, done (r, true)) =
    omega (arith, total-append handing_on calls (close_lookup ∷ []))
close_kept-handing_on (calls, done (r, false)) = omega (arith, total-append handing_on calls [])
close_kept-handing_on (calls, failed e) =
    omega (arith, total-append handing_on calls (close_lookup ∷ []))
close_kept-handing_on (calls, panics) =
    omega (arith, total-append handing_on calls (close_lookup ∷ []))

pub kept_of_failed : (m : Run SendCall Kept) → is_done (close_kept m).1 ≡ false → kept m.1 ≡ true
kept_of_failed (calls, done (r, b)) h = cc
kept_of_failed (calls, failed e) h = refl
kept_of_failed (calls, panics) h = refl

module _ {R : Type 0} (host : Host R) (a : SendAnswers R) (options : CacheOptions)
    (req : Header) where
  pub with_handle-to_backend : AtMost to_backend 1 (with_handle host a options req)
  with_handle-to_backend =
      with_handle-AtMost host a options req to_backend 1 (omega arith) (omega arith)
        other-to_backend refl

  pub with_handle-closing : AtMost closing 0 (with_handle host a options req)
  with_handle-closing =
      with_handle-AtMost host a options req closing 0 (omega arith) (omega arith) other-closing refl

  pub with_handle-looking_up : AtMost looking_up 0 (with_handle host a options req)
  with_handle-looking_up =
      with_handle-AtMost host a options req looking_up 0 (omega arith) (omega arith)
        other-looking_up refl

  answer_cached-HandedOnce :
      (state : ℕ) (r : Response) → HandedOnce (answer_cached host a options req state r)
  unfolding answer_cached send_async_for_caching
  answer_cached-HandedOnce state r = ground arith

  answer_found-HandedOnce :
      (state : ℕ) (o : Option Response) → HandedOnce (answer_found host a options req state o)
  answer_found-HandedOnce state (some r) = answer_cached-HandedOnce state r
  answer_found-HandedOnce state none = handed_of_none (answer_missing host a options req state) (
      missing-AtMost host a options req handing_on 0 (omega arith) (omega arith) other-handing_on
        state)

  pub with_handle-HandedOnce : HandedOnce (with_handle host a options req)
  unfolding with_handle
  with_handle-HandedOnce =
      first-HandedOnce (call get_state "get state" a.state)
        (λ state.
          of_result (find_in_cache true ∷ []) (get_found_response a.handle true)
          >>= answer_found host a options req state)
        (of_result-AtMost handing_on (get_state ∷ []) (annotate "get state" a.state) 0
          (omega arith))
        (λ state.
          first-HandedOnce (of_result (find_in_cache true ∷ []) (get_found_response a.handle true))
            (answer_found host a options req state)
            (of_result-AtMost handing_on (find_in_cache true ∷ [])
              (get_found_response a.handle true) 0 (omega arith))
            (answer_found-HandedOnce state))
