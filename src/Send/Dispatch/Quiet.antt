-- ===== src/Send/Dispatch/Quiet.antt =====
-- The preparation of a request in `Send` sends nothing.
use compute_sdk_go.Common.{
  ℕ, suc, ◌+◌, ◌≡◌, refl, ◌∙◌, inl, inr, Bool, true, not, ◌&&◌, List, [], ◌∷◌, ◌++◌, arith, Bytes,
  is_empty, length, ◌==◌, Bool-cases,
}
use compute_sdk_go.Abi.Errors.{ok, err}
use compute_sdk_go.Header.{keys}
use compute_sdk_go.HttpCache.Run.{Run, done, failed, panics}
use compute_sdk_go.Send.Dispatch.{
  State, Call, new_request, set_method, set_uri, new_body, set_decompress, set_framing,
  set_cache_override, set_header, send_to_image_opto, choose_cache, send_with_guest_cache,
  send_async, poll, Request, Answers, Step, goes_on, ◌>>=◌, Attempt, tries, refuses, attempts,
  keep_if_done, header_attempts, key_attempts, request_attempts, body_attempts, option_attempts,
  make_request, make_body, construct_abi_request, set_abi_request_options, prepare,
}

-- How often the calls send the request by way of the cache of the host.
abbrev pub sends : List Call → ℕ
sends [] = 0
sends (send_async b ∷ cs) = suc (sends cs)
sends (_ ∷ cs) = sends cs

pub sends-append : (xs ys : List Call) → sends (xs ++ ys) ≡ sends xs + sends ys
sends-append [] ys = omega arith
sends-append (send_async b ∷ xs) ys = omega (arith, sends-append xs ys)
sends-append (new_request ∷ xs) ys = sends-append xs ys
sends-append (set_method ∷ xs) ys = sends-append xs ys
sends-append (set_uri ∷ xs) ys = sends-append xs ys
sends-append (new_body ∷ xs) ys = sends-append xs ys
sends-append (set_decompress b ∷ xs) ys = sends-append xs ys
sends-append (set_framing b ∷ xs) ys = sends-append xs ys
sends-append (set_cache_override c ∷ xs) ys = sends-append xs ys
sends-append (set_header k vs ∷ xs) ys = sends-append xs ys
sends-append (send_to_image_opto q ∷ xs) ys = sends-append xs ys
sends-append (choose_cache ∷ xs) ys = sends-append xs ys
sends-append (send_with_guest_cache ∷ xs) ys = sends-append xs ys
sends-append (poll ∷ xs) ys = sends-append xs ys

-- Attempts that send nothing.
abbrev Harmless : List Attempt → Type 0
Harmless [] = Unit {0}
Harmless (tries c context x ∷ xs) = (sends (c ∷ []) ≡ 0) × Harmless xs
Harmless (refuses e ∷ xs) = Harmless xs

Harmless-append : (xs ys : List Attempt) → Harmless xs → Harmless ys → Harmless (xs ++ ys)
Harmless-append [] ys h k = k
Harmless-append (tries c context x ∷ xs) ys h k = (h.0, Harmless-append xs ys h.1 k)
Harmless-append (refuses e ∷ xs) ys h k = Harmless-append xs ys h k

sends-attempts : (xs : List Attempt) → Harmless xs → sends (attempts xs).0 ≡ 0
unfolding attempts
sends-attempts [] h = refl
sends-attempts (refuses e ∷ xs) h = refl
sends-attempts (tries c context (err e) ∷ xs) h = h.0
sends-attempts (tries c context (ok u) ∷ xs) h =
    sends-append (c ∷ []) (attempts xs).0 ∙ omega (arith, h.0, sends-attempts xs h.1)

-- Code that sends nothing, and does not touch `sent`.
abbrev pub Quiet : {A : Type 0} → Step A → Type 0
Quiet m = (s : State) → (sends (m s).0.0 ≡ 0) × ((m s).1.sent ≡ s.sent)

Quiet-bind :
    {A B : Type 0} (m : Step A) (f : A → Step B)
    → Quiet m
    → ((a : A) → Quiet (f a))
    → Quiet (m >>= f)
Quiet-bind m f q k s = through (m s).0 (m s).1 f s.sent (q s) k
  where
    through :
        {A B : Type 0} (x : Run Call A) (t : State) (f : A → Step B) (sent : Bool)
        → (sends x.0 ≡ 0) × (t.sent ≡ sent)
        → ((a : A) → Quiet (f a))
        → (sends (goes_on x t f).0.0 ≡ 0) × ((goes_on x t f).1.sent ≡ sent)
    through (calls, done a) t f sent h k =
        (sends-append calls (f a t).0.0 ∙ omega (arith, (k a t).0, h.0), (k a t).1 ∙ h.1)
    through (calls, failed e) t f sent h k = h
    through (calls, panics) t f sent h k = h

keep_if_done-sends :
    (x : Run Call (Unit {0})) (s t : State)
    → sends x.0 ≡ 0
    → t.sent ≡ s.sent
    → (sends (keep_if_done x s t).0.0 ≡ 0) × ((keep_if_done x s t).1.sent ≡ s.sent)
keep_if_done-sends (calls, done a) s t h k = (h, k)
keep_if_done-sends (calls, failed e) s t h k = (h, refl)
keep_if_done-sends (calls, panics) s t h k = (h, refl)

module _ {R : Type 0} (a : Answers R) (r : Request) where
  Harmless-headers : (ks : List Bytes) → Harmless (header_attempts a r ks)
  Harmless-headers [] = tt
  Harmless-headers (k ∷ ks) = (refl, Harmless-headers ks)

  Harmless-key : Harmless (key_attempts a r)
  Harmless-key = elim (Bool-cases (is_empty r.override_key)) [
    | inl e ↦ rw e tt
    | inr e ↦ elim (Bool-cases (length r.override_key == 32)) [
      | inl f ↦ rw e (rw f (refl, tt))
      | inr f ↦ rw e (rw f tt)
    ]
  ]

  Harmless-options : Harmless (option_attempts a r)
  Harmless-options = (
    refl,
    (
      refl,
      (
        refl,
        Harmless-append (header_attempts a r (keys r.header)) (key_attempts a r)
            (Harmless-headers (keys r.header)) Harmless-key,
      ),
    ),
  )

  Harmless-body : Harmless (body_attempts a r)
  Harmless-body = elim (Bool-cases r.is_abi) [ inl e ↦ rw e tt | inr e ↦ rw e (refl, tt) ]

  Quiet-make_request : Quiet (make_request a r)
  Quiet-make_request s = elim (Bool-cases s.has_req) [
    | inl e ↦ rw e (refl, refl)
    | inr e ↦
        let q =
          keep_if_done-sends (attempts (request_attempts a r)) s (record s { has_req = true })
            (sends-attempts (request_attempts a r) (refl, (refl, (refl, tt)))) refl in
        ground (arith, q)
  ]

  Quiet-make_body : Quiet (make_body a r)
  Quiet-make_body s = elim (Bool-cases s.has_body) [
    | inl e ↦ rw e (refl, refl)
    | inr e ↦
        let q =
          keep_if_done-sends (attempts (body_attempts a r)) s (record s { has_body = true })
            (sends-attempts (body_attempts a r) Harmless-body) refl in
        ground (arith, q)
  ]

  Quiet-construct : Quiet (construct_abi_request a r)
  unfolding construct_abi_request
  Quiet-construct =
      Quiet-bind (make_request a r) (λ _. make_body a r) Quiet-make_request (λ _. Quiet-make_body)

  Quiet-options : Quiet (set_abi_request_options a r)
  Quiet-options s = (sends-attempts (option_attempts a r) Harmless-options, refl)

  pub Quiet-prepare : Quiet (prepare a r)
  unfolding prepare
  Quiet-prepare s = elim (Bool-cases (not s.has_req && not s.has_body)) [
    | inl e ↦ rw e (
        Quiet-bind (construct_abi_request a r) (λ _. set_abi_request_options a r) Quiet-construct
          (λ _. Quiet-options) s)
    | inr e ↦ rw e (refl, refl)
  ]
