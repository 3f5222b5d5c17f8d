-- ===== src/Send/Dispatch/Again.antt =====
-- A second `Send` behind one that failed to set the options of the request.
use compute_sdk_go.Common.{◌≡◌, refl, sym, ap, ◌∙◌, true, false, not, [], ◌∷◌, none}
use mathlib.Core.Path.{subst}
use compute_sdk_go.Abi.Errors.{GoError, ok}
use compute_sdk_go.HttpCache.Run.{Run, Outcome, done, failed, panics}
use compute_sdk_go.Send.Dispatch.{
  State, Call, choose_cache, send_async, poll, Request, Answers, Step, goes_on, attempts,
  keep_if_done, request_attempts, body_attempts, option_attempts, make_request, make_body,
  construct_abi_request, set_abi_request_options, prepare, send_prepared, send_to_host, send,
}

abbrev pub fresh : State
fresh = record { has_req = false; has_body = false; sent = false }

abbrev pub made : State
made = record { has_req = true; has_body = true; sent = false }

-- How a step ends, and its state.
abbrev EndsIn : {A : Type 0} → Outcome A → State → Run Call A × State → Type 0
EndsIn o t x = (x.0.1 ≡ o) × (x.1 ≡ t)

keep_done :
    (x : Run Call (Unit {0})) (s t : State)
    → x.1 ≡ done tt
    → EndsIn (done tt) t (keep_if_done x s t)
keep_done (calls, done u) s t h = (h, refl)
keep_done (calls, failed e) s t h = cc
keep_done (calls, panics) s t h = cc

goes_done :
    {B : Type 0} (x : Run Call (Unit {0}) × State) (t u : State) (o : Outcome B)
    (f : Unit {0} → Step B)
    → EndsIn (done tt) t x
    → EndsIn o u (f tt t)
    → EndsIn o u (goes_on x.0 x.1 f)
goes_done ((calls, done v), s) t u o f h k = subst (λ w. EndsIn o u (f tt w)) (sym h.1) k
goes_done ((calls, failed e), s) t u o f h k = cc
goes_done ((calls, panics), s) t u o f h k = cc

goes_failed :
    {A B : Type 0} (x : Run Call A × State) (t : State) (e : GoError) (f : A → Step B)
    → EndsIn (failed e) t x
    → EndsIn (failed e) t (goes_on x.0 x.1 f)
goes_failed ((calls, done a), s) t e f h = cc
goes_failed ((calls, failed x), s) t e f h = (cc, h.1)
goes_failed ((calls, panics), s) t e f h = cc

module _ {R : Type 0} (a : Answers R) (r : Request) (e : GoError) where
  construct_made :
      (attempts (request_attempts a r)).1 ≡ done tt
      → (attempts (body_attempts a r)).1 ≡ done tt
      → EndsIn (done tt) made (construct_abi_request a r fresh)
  unfolding construct_abi_request
  construct_made req body =
      goes_done (make_request a r fresh) (record fresh { has_req = true }) made (done tt)
        (λ _. make_body a r)
        (keep_done (attempts (request_attempts a r)) fresh (record fresh { has_req = true }) req)
        (keep_done (attempts (body_attempts a r)) (record fresh { has_req = true }) made body)

  prepare_failed :
      EndsIn (done tt) made (construct_abi_request a r fresh)
      → (attempts (option_attempts a r)).1 ≡ failed e
      → EndsIn (failed e) made (prepare a r fresh)
  unfolding prepare
  prepare_failed c f =
      goes_done (construct_abi_request a r fresh) made made (failed e)
        (λ _. set_abi_request_options a r) c (f, refl)

-- When the first `Send` has made the request of the host and its body, and then fails to set an
-- option, a header or the cache key, it returns that error. A second `Send` that is not to use the
-- image optimizer nor the cache in the guest then sends the request with no further option set.
pub send_again :
    {R : Type 0} (a b : Answers R) (r q : Request) (e : GoError)
    → (attempts (request_attempts a r)).1 ≡ done tt
    → (attempts (body_attempts a r)).1 ≡ done tt
    → (attempts (option_attempts a r)).1 ≡ failed e
    → q.image_query ≡ none
    → b.use_guest ≡ ok false
    → b.sent_async ≡ ok tt
    → ((send a r fresh).0.1 ≡ failed e)
      × ((send b q (send a r fresh).1).0.0 ≡ choose_cache ∷ send_async (not q.has_size) ∷ poll ∷ [])
unfolding send send_to_host
send_again a b r q e req body opts image guest sent =
    (first.0, ap (λ t. (send b q t).0.0) first.1 ∙ second)
  where
    first : EndsIn (failed e) made (send a r fresh)
    first =
        goes_failed (prepare a r fresh) made e (λ _. send_prepared a r r.image_query)
          (prepare_failed a r e (construct_made a r e req body) opts)

    second : (send b q made).0.0 ≡ choose_cache ∷ send_async (not q.has_size) ∷ poll ∷ []
    second = rw image (rw (guest, goes_on) (rw (sent, goes_on) refl))
