-- ===== src/Send/Dispatch/Once.antt =====
-- `Send` sends a request by way of the cache of the host once at most.
use compute_sdk_go.Common.{
  ℕ, ◌+◌, ◌≤◌, ◌≡◌, refl, ◌∙◌, inl, inr, Bool, true, false, not, List, [], ◌∷◌, ◌++◌, Option, none,
  some, arith, Bytes, Bool-cases,
}
use compute_sdk_go.Abi.Errors.{Result, ok, err}
use compute_sdk_go.HttpCache.Run.{Run, done, failed, panics}
use compute_sdk_go.Send.Dispatch.{
  State, Call, choose_cache, send_async, Request, Answers, goes_on, prepare, wait_for_response,
  begun, outcome, send_chosen, send_prepared, send_to_host, send,
}
use compute_sdk_go.Send.Dispatch.Quiet.{sends, sends-append, Quiet-prepare}

-- The number of a Boolean.
abbrev pub one_if : Bool → ℕ
one_if false = 0
one_if true = 1

one_if_le : (b : Bool) → one_if b ≤ 1
one_if_le true = omega arith
one_if_le false = omega arith

module _ {R : Type 0} (a : Answers R) (r : Request) where
  -- A run that sends just where it sets `sent`.
  abbrev Balanced : Run Call R × State → Type 0
  Balanced x = sends x.0.0 ≡ one_if x.1.sent

  Balanced-chosen : (b : Bool) (s : State) → s.sent ≡ false → Balanced (send_chosen a r b s)
  unfolding send_to_host
  Balanced-chosen true s e = rw e refl
  Balanced-chosen false s e = by_begun a.sent_async
    where
      by_begun :
          (x : Result (Unit {0}))
          → Balanced (
              goes_on
                (send_async (not r.has_size) ∷ [], begun a r x)
                (record s { sent = true })
                (λ _. wait_for_response a r))
      by_begun (ok u) = refl
      by_begun (err x) = refl

  Balanced-prepared :
      (image : Option (Result Bytes)) (s : State)
      → s.sent ≡ false
      → Balanced (send_prepared a r image s)
  Balanced-prepared (some (err x)) s e = rw e refl
  Balanced-prepared (some (ok q)) s e = rw e refl
  Balanced-prepared none s e = by_choice a.use_guest
    where
      by_choice :
          (x : Result Bool) → Balanced (goes_on (choose_cache ∷ [], outcome x) s (send_chosen a r))
      by_choice (ok b) = Balanced-chosen b s e
      by_choice (err x) = rw e refl

  Balanced-after :
      (x : Run Call (Unit {0})) (s : State)
      → sends x.0 ≡ 0
      → s.sent ≡ false
      → Balanced (goes_on x s (λ _. send_prepared a r r.image_query))
  Balanced-after (calls, done u) s h e =
      sends-append calls (send_prepared a r r.image_query s).0.0
      ∙ omega (arith, h, Balanced-prepared r.image_query s e)
  Balanced-after (calls, failed x) s h e = rw e h
  Balanced-after (calls, panics) s h e = rw e h

  send-Balanced : (s : State) → sends (send a r s).0.0 + one_if s.sent ≡ one_if (send a r s).1.sent
  unfolding send
  send-Balanced s = elim (Bool-cases s.sent) [
    | inl e ↦ rw e refl
    | inr e ↦
        let q = Quiet-prepare a r s in
        let b = Balanced-after (prepare a r s).0 (prepare a r s).1 q.0 (q.1 ∙ e) in
        ground (arith, b, e)
  ]

-- The calls of `Send` on one request, again and again, with its fields changed at will between them.
unfoldable pub send_each : {R : Type 0} → List (Answers R × Request) → State → List Call × State
unfolding send
send_each [] s = ([], s)
send_each ((a, r) ∷ more) s =
    let (x, t) = send a r s in let (calls, u) = send_each more t in (x.0 ++ calls, u)

-- By way of the cache of the host, a request is sent at most once, however often `Send` is called on
-- it, whatever the host answers and whatever is changed in between: a call that sends it marks it as
-- sent, and nothing else does.
pub sends-send_each :
    {R : Type 0} (tries : List (Answers R × Request)) (s : State)
    → (sends (send_each tries s).0 + one_if s.sent ≡ one_if (send_each tries s).1.sent)
      × (sends (send_each tries s).0 ≤ 1)
unfolding send_each
sends-send_each [] s = (omega arith, omega arith)
sends-send_each ((a, r) ∷ more) s =
    let now = send-Balanced a r s in
    let later = (sends-send_each more (send a r s).1).0 in
    let both = sends-append (send a r s).0.0 (send_each more (send a r s).1).0 in
    let few = one_if_le (send_each more (send a r s).1).1.sent in
    (omega (arith, now, later, both), omega (arith, now, later, both, few))
