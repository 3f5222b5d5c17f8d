-- ===== src/HttpCache/Transactions.antt =====
-- Every candidate ends its cache transaction once, in the way of its storage action.
use compute_sdk_go.Common.{
  ℕ, ◌+◌, ◌≡◌, refl, ap, ◌∙◌, ◌≢◌, ◌⊎◌, inl, inr, Bool, true, false, Option, none, some, List, [],
  ◌∷◌, ◌++◌, append-nil, arith, if◌then◌else◌, Bytes,
}
use compute_sdk_go.Abi.Errors.{GoError, Result, Result-cases, ok, err}
use compute_sdk_go.HttpCache.{
  StorageAction, insert, update, do_not_store, record_uncacheable, unknown,
}
use compute_sdk_go.HttpCache.Options.{WriteOptions}
use compute_sdk_go.HttpCache.Apply.{
  Call, insert_and_stream_back, insert_only, update_and_return_fresh, update_only, abandon,
  record_not_cacheable, close_handle, Answers, perform, perform_in_background, settle,
  apply_and_stream_back, apply_in_background,
}
use compute_sdk_go.HttpCache.Run.{done, failed, panics, Run, ◌>>=◌}
use compute_sdk_go.HttpCache.Candidate.{Host, Candidate}
use compute_sdk_go.HttpCache.Found.{Response}
use compute_sdk_go.HttpCache.Finalize.{finalize_options}

-- The calls that end a cache transaction, as the storage action that they carry out.
abbrev pub ended_by : Call → List StorageAction
ended_by (insert_and_stream_back o) = insert ∷ []
ended_by (insert_only o) = insert ∷ []
ended_by (update_and_return_fresh o) = update ∷ []
ended_by (update_only o) = update ∷ []
ended_by abandon = do_not_store ∷ []
ended_by (record_not_cacheable o) = record_uncacheable ∷ []
ended_by _ = []

-- The storage actions that a run carries out, in order.
abbrev pub storage_actions : List Call → List StorageAction
storage_actions [] = []
storage_actions (c ∷ cs) = ended_by c ++ storage_actions cs

-- What an action asks for: itself, and nothing for a number that names no action.
abbrev pub asked : StorageAction → List StorageAction
asked (unknown n) = []
asked action = action ∷ []

module _ (a : Answers) (opts : WriteOptions) (transform : Option (Bytes → Bytes)) where
  perform-actions :
      (action : StorageAction) → storage_actions (perform a action opts transform).0 ≡ asked action
  unfolding perform
  perform-actions insert = ground arith
  perform-actions _ = ground arith

  perform_in_background-actions :
      (action : StorageAction)
      → storage_actions (perform_in_background a action opts transform).0 ≡ asked action
  unfolding perform_in_background
  perform_in_background-actions insert = ground arith
  perform_in_background-actions _ = ground arith

-- Calls that give a new handle, and calls that close it.
abbrev pub opened : List Call → ℕ
opened [] = 0
opened (insert_and_stream_back o ∷ cs) = 1 + opened cs
opened (update_and_return_fresh o ∷ cs) = 1 + opened cs
opened (_ ∷ cs) = opened cs

abbrev pub closed : List Call → ℕ
closed [] = 0
closed (close_handle ∷ cs) = 1 + closed cs
closed (_ ∷ cs) = closed cs

abbrev pub is_ok {ℓ} : {A : Type ℓ} → Result A → Bool
is_ok (ok x) = true
is_ok (err e) = false

-- The handles that were given: none by a call that fails.
abbrev pub given : Answers → List Call → ℕ
given a calls = if is_ok a.transaction then opened calls else 0

module _ (a : Answers) (opts : WriteOptions) (transform : Option (Bytes → Bytes)) where
  perform-handles :
      (action : StorageAction)
      → closed (perform a action opts transform).0 ≡ given a (perform a action opts transform).0
  unfolding perform
  perform-handles insert = ground arith
  perform-handles _ = ground arith

  pub perform_nil :
      (action : StorageAction)
      → (perform a action opts transform).1 ≡ done none
      → (asked action ≡ []) ⊎ (a.found ≡ ok none)
  unfolding perform
  perform_nil insert h = ground arith
  perform_nil update h = ground arith
  perform_nil do_not_store h = ground arith
  perform_nil record_uncacheable h = ground arith
  perform_nil (unknown n) h = inl refl

  pub perform-no_panic : (action : StorageAction) → (perform a action opts transform).1 ≢ panics
  unfolding perform
  perform-no_panic insert h = ground arith
  perform-no_panic _ h = ground arith

bind-calls :
    {A B : Type 0} (m : Run Call A) (f : A → Run Call B)
    → ((x : A) → (f x).0 ≡ [])
    → (m >>= f).0 ≡ m.0
bind-calls (calls, done x) f h = rw (h x) (append-nil calls)
bind-calls (calls, failed e) f h = refl
bind-calls (calls, panics) f h = refl

settle-calls : (action : StorageAction) (r : Option Response) → (settle action r).0 ≡ []
settle-calls action none = refl
settle-calls action (some r) = refl

module _ {R : Type 0} (a : Answers) (host : Host R) (c : Candidate R) where
  -- What the run does once the options are final.
  stream_back-calls :
      (action : StorageAction) (opts : WriteOptions)
      → finalize_options host c ≡ ok (action, opts)
      → (apply_and_stream_back a host c).0 ≡ (perform a action opts c.body_transform).0
  unfolding apply_and_stream_back
  stream_back-calls action opts e =
      rw e
        (bind-calls (perform a action opts c.body_transform) (settle action) (settle-calls action))

  background-calls :
      (action : StorageAction) (opts : WriteOptions)
      → finalize_options host c ≡ ok (action, opts)
      → (apply_in_background a host c).0 ≡ (perform_in_background a action opts c.body_transform).0
  unfolding apply_in_background
  background-calls action opts e = rw e refl

  pub stream_back_fails :
      (x : GoError)
      → finalize_options host c ≡ err x
      → apply_and_stream_back a host c ≡ ([], failed (GoError.wrap "finalize options" x))
  unfolding apply_and_stream_back
  stream_back_fails x e = rw e

  -- A candidate whose options are final ends its cache transaction by one host call, of the kind of
  -- its storage action, in the foreground and in the background, whatever the host answers; a
  -- number that names no action makes no such call.
  pub apply-storage_actions :
      (action : StorageAction) (opts : WriteOptions)
      → finalize_options host c ≡ ok (action, opts)
      → (storage_actions (apply_and_stream_back a host c).0 ≡ asked action)
        × (storage_actions (apply_in_background a host c).0 ≡ asked action)
  apply-storage_actions action opts e = (
    ap storage_actions (stream_back-calls action opts e)
        ∙ perform-actions a opts c.body_transform action,
    ap storage_actions (background-calls action opts e)
        ∙ perform_in_background-actions a opts c.body_transform action,
  )

  -- Every cache handle that the run is given is closed again, once, on every path: after an error
  -- of the body or of the lookup too. If the transaction call fails, there is none.
  pub apply_and_stream_back-closes :
      closed (apply_and_stream_back a host c).0 ≡ given a (apply_and_stream_back a host c).0
  apply_and_stream_back-closes = elim (Result-cases (finalize_options host c)) [
    | inl ((action, opts), e) ↦
        rw (stream_back-calls action opts e) (perform-handles a opts c.body_transform action)
    | inr (x, e) ↦ rw (stream_back_fails x e) (ground arith)
  ]
