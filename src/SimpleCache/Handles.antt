-- ===== src/SimpleCache/Handles.antt =====
-- The handles of `GetOrSet`: that of the transaction, and that of the writer.
use compute_sdk_go.Common.{
  ℕ, ◌+◌, ◌≡◌, refl, sym, ap, ◌∙◌, Bool, true, false, List, [], ◌∷◌, ◌++◌, ◌==◌, if◌then◌else◌,
  Option, none, some, Bytes, arith, inl, inr, Option-cases, Bool-cases,
}
use compute_sdk_go.Abi.Errors.{GoError, Result, ok, err, to_error, Result-cases}
use compute_sdk_go.CoreCache.{other, done, fails, done≢fails, Try-cases, Found, Call, close_entry}
use compute_sdk_go.CoreCache.Options.{LookupOptions, no_lookup_options, abi_lookup_options}
use compute_sdk_go.CoreCache.Lookups.{Cache, fastly_fails}
use compute_sdk_go.CoreCache.Transactions.{
  Step, TransactionHost, Transaction, begun, new_transaction, must_insert_or_update, get_found,
  insert_and_stream_back, close,
}
use compute_sdk_go.CoreCache.Transactions.Runs.{
  closings, closings-append, Fresh, Kept, one_if, idle-Kept, insert_and_stream_back-Kept,
  get_found-Kept,
}
use compute_sdk_go.SimpleCache.{
  CacheEntry, Writer, io_copy, copied, inserted, write_entry, Got, write_options, set, get_in,
  get_or_set,
}

same_handle : (w : ℕ) → ◌≡◌ {A = ℕ} (if w == w then 1 else 0) 1
same_handle w = ground arith

copied-calls :
    (writer : Writer) (w : ℕ) (f : Found) (h : ℕ) (p : Bytes × Option GoError)
    → closings h (copied writer w f p).calls ≡ 0
copied-calls writer w f h (bs, some x) = refl
copied-calls writer w f h (bs, none) = elim (Option-cases (to_error (writer.close_status w))) [
  | inr (x, p) ↦ rw (p, copied) refl
  | inl p ↦ rw (p, copied) refl
]

write_entry-calls :
    (writer : Writer) (entry : CacheEntry) (w : ℕ) (f : Found) (h : ℕ)
    → closings h (write_entry writer entry w f).calls ≡ 0
unfolding write_entry
write_entry-calls writer entry w f h = copied-calls writer w f h (io_copy writer w entry)

-- The deferred `Close` of the transaction is the only one.
closed_once :
    (host : TransactionHost) (t t' : Transaction) (cs : List Call)
    → Kept false t (record { transaction = t'; calls = cs })
    → t.ended ≡ false
    → closings t.abi_entry.h (cs ++ (close host t').calls) ≡ 1
unfolding close
closed_once host t t' cs k e =
    let e' : t'.ended ≡ false = k.when_ended ∙ rw e refl in
    let c : (close host t').calls ≡ close_entry t'.abi_entry.h ∷ [] = rw (close, e') refl in
    rw (c, k.same_entry)
      (closings-append t.abi_entry.h cs (close_entry t.abi_entry.h ∷ [])
        ∙ once (k.closed ∙ ap one_if e'))
  where
    once :
        closings t.abi_entry.h cs + one_if t.ended ≡ 0
        → closings t.abi_entry.h cs + (if t.abi_entry.h == t.abi_entry.h then 1 else 0) ≡ 1
    once z = omega (arith, z, same_handle t.abi_entry.h)

-- Calls that do not close the entry may follow.
more-Kept :
    (t t' : Transaction) (cs more : List Call)
    → Kept false t (record { transaction = t'; calls = cs })
    → closings t.abi_entry.h more ≡ 0
    → Kept false t (record { transaction = t'; calls = cs ++ more })
more-Kept t t' cs more k z = record {
  same_entry = k.same_entry;
  same_key = k.same_key;
  same_state = k.same_state;
  same_found = k.same_found;
  when_ended = k.when_ended;
  closed = rw (closings-append t.abi_entry.h cs more, z) (omega (arith, k.closed));
}

begun_open : (t u : Transaction) → done t ≡ done u → u.ended ≡ false → t.ended ≡ false
begun_open t u e z = let q : t ≡ u = cc in ap (λ x. x.ended) q ∙ z

new_transaction-ended :
    (cache : Cache) (key : Bytes) (opts : LookupOptions) (t : Transaction)
    → (new_transaction cache key opts).result ≡ done t
    → t.ended ≡ false
unfolding new_transaction
new_transaction-ended cache key opts t h =
    elim (Result-cases (abi_lookup_options cache.requests opts)) [
      | inr (x, q) ↦
          let n : (new_transaction cache key opts).result ≡ fails (other x) =
            rw (new_transaction, q) refl in
          absurd (done≢fails (sym h ∙ n))
      | inl (abi, q) ↦
          let a = cache.transaction_lookup key abi in
          elim (Option-cases (to_error a.status)) [
            | inr (x, p) ↦
                let n : (new_transaction cache key opts).result ≡ fastly_fails x =
                  rw (new_transaction, q, p) refl in
                absurd (done≢fails (sym h ∙ n))
            | inl p ↦ elim (Option-cases (to_error a.value.get_state.status)) [
              | inr (x, r) ↦
                  let n : (new_transaction cache key opts).result ≡ fastly_fails x =
                    rw (new_transaction, q, p, r) refl in
                  absurd (done≢fails (sym h ∙ n))
              | inl r ↦
                  let n : (new_transaction cache key opts).result ≡ done (begun key opts a.value) =
                    rw (new_transaction, q, p, r) refl in
                  begun_open t (begun key opts a.value) (sym h ∙ n) refl
            ]
          ]
    ]

module _ (cache : Cache) (host : TransactionHost) (writer : Writer) (sha256 : Bytes → Bytes)
    (pop : Bytes) where
  -- What `GetOrSet` does with the transaction: its entry is closed once, and the function has run.
  record Closes (ran : Bool) (t : Transaction) (g : Got) : Type 0 where
    once : closings t.abi_entry.h g.calls ≡ 1
    runs : g.set_run ≡ ran

  inserted-Closes :
      (entry : CacheEntry) (t : Transaction) (s : Step (ℕ × Found))
      → Kept false t (record { transaction = s.after; calls = s.calls })
      → t.ended ≡ false
      → Closes true t (inserted cache host writer sha256 pop entry s)
  inserted-Closes entry t s k e = elim (Try-cases s.result) [
    | inr (x, q) ↦
        rw (q, inserted) (record { once = closed_once host t s.after s.calls k e; runs = refl })
    | inl ((w, f), q) ↦
        rw (q, inserted)
          (record {
            once =
                closed_once host t s.after (s.calls ++ (write_entry writer entry w f).calls)
                  (more-Kept t s.after s.calls (write_entry writer entry w f).calls k
                    (write_entry-calls writer entry w f t.abi_entry.h))
                  e;
            runs = refl;
          })
  ]

  set-Closes :
      (set_fn : Result CacheEntry) (t : Transaction)
      → Fresh host t.abi_entry.h
      → t.ended ≡ false
      → Closes true t (set cache host writer sha256 pop set_fn t)
  unfolding set
  set-Closes (err x) t h e = record {
    once = closed_once host t t [] (idle-Kept t [] refl) e;
    runs = refl;
  }
  set-Closes (ok entry) t h e =
      let o = write_options sha256 pop t.key entry.ttl in
      inserted-Closes entry t (insert_and_stream_back cache host o t)
        (insert_and_stream_back-Kept cache host o t h) e

  get_in-Closes :
      (t : Transaction) → t.ended ≡ false → Closes false t (get_in cache host writer sha256 pop t)
  unfolding get_in
  get_in-Closes t e =
      let s = get_found t in
      elim (Try-cases s.result) [
        | inr (x, q) ↦
            rw (get_in, q)
              (record {
                once = closed_once host t s.after s.calls (get_found-Kept t) e;
                runs = refl;
              })
        | inl (f, q) ↦
            rw (get_in, q)
              (record {
                once = closed_once host t s.after s.calls (get_found-Kept t) e;
                runs = refl;
              })
      ]

  -- In the transaction `t` that `GetOrSet` begins, it runs the function if the transaction must insert
  -- or update and does not otherwise, and on every path it closes the entry of the transaction
  -- once; where the host gives no new entry the handle of the transaction.
  pub get_or_set-closings :
      (key : Bytes) (set_fn : Result CacheEntry) (t : Transaction)
      → (new_transaction cache key no_lookup_options).result ≡ done t
      → Fresh host t.abi_entry.h
      → let g = get_or_set cache host writer sha256 pop key set_fn in
        (closings t.abi_entry.h g.calls ≡ 1) × (g.set_run ≡ must_insert_or_update t)
  unfolding get_or_set
  get_or_set-closings key set_fn t n h =
      let e = new_transaction-ended cache key no_lookup_options t n in
      elim (Bool-cases (must_insert_or_update t)) [
        | inl m ↦ let c = set-Closes set_fn t h e in rw (get_or_set, n, m) (c.once, c.runs)
        | inr m ↦ let c = get_in-Closes t e in rw (get_or_set, n, m) (c.once, c.runs)
      ]
