-- ===== src/CoreCache/Transactions/Runs.antt =====
-- Any sequence of operations on a transaction.
use compute_sdk_go.Common.{
  ℕ, suc, ◌+◌, ◌≡◌, refl, ap, ◌∙◌, Bool, true, false, ◌||◌, List, [], ◌∷◌, ◌++◌, some, ◌==◌,
  if◌then◌else◌, arith, inl, inr, Option-cases, Bool-cases,
}
use compute_sdk_go.Abi.Status.{lookup_found}
use compute_sdk_go.Abi.Errors.{to_error, Result-cases}
use compute_sdk_go.CoreCache.{
  Found, new_found, has_bit, Try-cases, Call, close_entry, cancel, close_body, abandon_body,
  write_body, drain_body,
}
use compute_sdk_go.CoreCache.Options.{WriteOptions, AbiWriteOptions, abi_write_options}
use compute_sdk_go.CoreCache.Lookups.{Cache}
use compute_sdk_go.CoreCache.Transactions.{
  TransactionHost, Transaction, Step, get_found, insert, insert_and_stream_back, update,
  cancel_transaction, close, stream_back,
}

-- The operations of a transaction.
pub data Op : Type 0 where
  op_found op_cancel op_close : Op
  op_insert op_stream_back op_update : WriteOptions → Op

pub record After : Type 0 where
  pub transaction : Transaction
  pub calls : List Call

abbrev pub after {ℓ} : {A : Type ℓ} → Step A → After
after s = record { transaction = s.after; calls = s.calls }

module _ (cache : Cache) (host : TransactionHost) where
  unfoldable pub run_op : Op → Transaction → After
  unfolding get_found insert insert_and_stream_back update cancel_transaction close
  run_op op_found t = after (get_found t)
  run_op op_cancel t = after (cancel_transaction host t)
  run_op op_close t = after (close host t)
  run_op (op_insert w) t = after (insert cache host w t)
  run_op (op_stream_back w) t = after (insert_and_stream_back cache host w t)
  run_op (op_update w) t = after (update cache host w t)

  unfoldable pub run_ops : List Op → Transaction → After
  unfolding run_op
  run_ops [] t = record { transaction = t; calls = [] }
  run_ops (o ∷ os) t =
      let s = run_op o t in
      let rest = run_ops os s.transaction in record rest { calls = s.calls ++ rest.calls }

-- How often the entry `h` is closed.
abbrev pub closings : ℕ → List Call → ℕ
closings h [] = 0
closings h (close_entry k ∷ cs) = let rest = closings h cs in if k == h then suc rest else rest
closings h (_ ∷ cs) = closings h cs

-- The host gives no new entry the handle of the transaction.
abbrev pub Fresh : TransactionHost → ℕ → Type 0
Fresh host h = (w : AbiWriteOptions) → ((host.insert_and_stream_back h w).value.1.h == h) ≡ false

abbrev pub one_if : Bool → ℕ
one_if true = 1
one_if false = 0

abbrev pub is_close : Op → Bool
is_close op_close = true
is_close _ = false

abbrev pub any_close : List Op → Bool
any_close [] = false
any_close (o ∷ os) = is_close o || any_close os

-- What an operation, or several, keep of a transaction.
pub record Kept (ends : Bool) (t : Transaction) (a : After) : Type 0 where
  pub same_entry : a.transaction.abi_entry ≡ t.abi_entry
  pub same_key : a.transaction.key ≡ t.key
  pub same_state : a.transaction.state ≡ t.state
  -- the object that was found is the one that is found again
  pub same_found : (f : Found) → t.found ≡ some f → a.transaction.found ≡ some f
  -- a transaction that has ended stays so
  pub when_ended : a.transaction.ended ≡ (t.ended || ends)
  -- the entry is closed by the operation that ends the transaction, and by no other
  pub closed : closings t.abi_entry.h a.calls + one_if t.ended ≡ one_if a.transaction.ended

-- An operation that leaves the transaction as it is and does not close its entry.
pub idle-Kept :
    (t : Transaction) (cs : List Call)
    → closings t.abi_entry.h cs ≡ 0
    → Kept false t (record { transaction = t; calls = cs })
idle-Kept t cs z = record {
  same_entry = refl;
  same_key = refl;
  same_state = refl;
  same_found = λ f e. e;
  when_ended = ground arith;
  closed = omega (arith, z);
}

insert-Kept :
    (cache : Cache) (host : TransactionHost) (w : WriteOptions) (t : Transaction)
    → Kept false t (after (insert cache host w t))
unfolding insert
insert-Kept cache host w t = elim (Result-cases (abi_write_options cache.requests w)) [
  | inr (x, q) ↦ rw (q, insert) (idle-Kept t [] refl)
  | inl (abi, q) ↦ elim (Option-cases (to_error (host.insert t.abi_entry.h abi).status)) [
    | inr (x, p) ↦ rw (q, insert, p) (idle-Kept t [] refl)
    | inl p ↦ rw (q, insert, p) (idle-Kept t [] refl)
  ]
]

update-Kept :
    (cache : Cache) (host : TransactionHost) (w : WriteOptions) (t : Transaction)
    → Kept false t (after (update cache host w t))
unfolding update
update-Kept cache host w t = elim (Result-cases (abi_write_options cache.requests w)) [
  | inr (x, q) ↦ rw (q, update) (idle-Kept t [] refl)
  | inl (abi, q) ↦ rw (q, update) (idle-Kept t [] refl)
]

pub insert_and_stream_back-Kept :
    (cache : Cache) (host : TransactionHost) (w : WriteOptions) (t : Transaction)
    → Fresh host t.abi_entry.h
    → Kept false t (after (insert_and_stream_back cache host w t))
unfolding insert_and_stream_back
insert_and_stream_back-Kept cache host w t h =
    elim (Result-cases (abi_write_options cache.requests w)) [
      | inr (x, q) ↦ rw (q, insert_and_stream_back) (idle-Kept t [] refl)
      | inl (abi, q) ↦
          let a = host.insert_and_stream_back t.abi_entry.h abi in
          elim (Option-cases (to_error a.status)) [
            | inr (x, p) ↦ rw (q, insert_and_stream_back, p) (idle-Kept t [] refl)
            | inl p ↦ elim (Try-cases (stream_back t.key a.value.1)) [
              | inl (f, r) ↦ rw (q, insert_and_stream_back, p, r) (idle-Kept t [] refl)
              | inr (x, r) ↦
                  rw (q, insert_and_stream_back, p, r)
                    (idle-Kept t (abandon_body a.value.0 ∷ close_entry a.value.1.h ∷ [])
                      (rw (h abi) refl))
            ]
          ]
    ]

pub get_found-Kept : (t : Transaction) → Kept false t (after (get_found t))
unfolding get_found
get_found-Kept t = elim (Bool-cases (has_bit t.state lookup_found)) [
  | inr b ↦ rw (get_found, b) (idle-Kept t [] refl)
  | inl b ↦ elim (Option-cases t.found) [
    | inr (f, o) ↦ simp (get_found, b, o) (idle-Kept t [] refl)
    | inl o ↦ elim (Try-cases (new_found t.key t.abi_entry t.state t.opts.from t.opts.to)) [
      | inr (x, n) ↦ simp (get_found, b, o, n) (idle-Kept t [] refl)
      | inl (f, n) ↦
          simp (get_found, b, o, n)
            (record {
              same_entry = refl;
              same_key = refl;
              same_state = refl;
              same_found = λ g e. cc;
              when_ended = ground arith;
              closed = omega arith;
            })
    ]
  ]
]

close-Kept : (host : TransactionHost) (t : Transaction) → Kept true t (after (close host t))
unfolding close
close-Kept host t = elim (Bool-cases t.ended) [
  | inl e ↦
      simp (close, e)
        (record {
          same_entry = refl;
          same_key = refl;
          same_state = refl;
          same_found = λ f o. o;
          when_ended = ground arith;
          closed = ground arith;
        })
  | inr e ↦
      simp (close, e)
        (record {
          same_entry = refl;
          same_key = refl;
          same_state = refl;
          same_found = λ f o. o;
          when_ended = ground arith;
          closed = ground arith;
        })
]

run_op-Kept :
    (cache : Cache) (host : TransactionHost) (o : Op) (t : Transaction)
    → Fresh host t.abi_entry.h
    → Kept (is_close o) t (run_op cache host o t)
unfolding run_op
run_op-Kept cache host op_found t h = get_found-Kept t
run_op-Kept cache host op_cancel t h =
    unfold cancel_transaction in idle-Kept t (cancel t.abi_entry.h ∷ []) refl
run_op-Kept cache host op_close t h = close-Kept host t
run_op-Kept cache host (op_insert w) t h = insert-Kept cache host w t
run_op-Kept cache host (op_stream_back w) t h = insert_and_stream_back-Kept cache host w t h
run_op-Kept cache host (op_update w) t h = update-Kept cache host w t

pub closings-append :
    (h : ℕ) (xs ys : List Call) → closings h (xs ++ ys) ≡ closings h xs + closings h ys
closings-append h [] ys = omega arith
closings-append h (close_entry k ∷ xs) ys = ground (arith, closings-append h xs ys)
closings-append h (cancel k ∷ xs) ys = closings-append h xs ys
closings-append h (close_body k ∷ xs) ys = closings-append h xs ys
closings-append h (abandon_body k ∷ xs) ys = closings-append h xs ys
closings-append h (drain_body k ∷ xs) ys = closings-append h xs ys
closings-append h (write_body k bs ∷ xs) ys = closings-append h xs ys

or_assoc : (a b c : Bool) → ((a || b) || c) ≡ (a || (b || c))
or_assoc a b c = ground arith

-- Whatever is done with a transaction, in any order, it keeps its entry, key and state, and the
-- object that it has found once; it has ended just if it had before or a `Close` is among the
-- operations, and its entry is closed once then and not at all otherwise, however often `Close` is
-- called; where the host gives no new entry the handle of the transaction.
pub run_ops-Kept :
    (cache : Cache) (host : TransactionHost) (os : List Op) (t : Transaction)
    → Fresh host t.abi_entry.h
    → Kept (any_close os) t (run_ops cache host os t)
unfolding run_ops
run_ops-Kept cache host [] t h = idle-Kept t [] refl
run_ops-Kept cache host (o ∷ os) t h =
    let s = run_op cache host o t in
    let k = run_op-Kept cache host o t h in
    let r = run_ops-Kept cache host os s.transaction (rw k.same_entry h) in
    let e : s.transaction.abi_entry.h ≡ t.abi_entry.h = ap (λ x. x.h) k.same_entry in
    let c = rw e at r.closed in
    record {
      same_entry = r.same_entry ∙ k.same_entry;
      same_key = r.same_key ∙ k.same_key;
      same_state = r.same_state ∙ k.same_state;
      same_found = λ f q. r.same_found f (k.same_found f q);
      when_ended =
          r.when_ended
          ∙ (ap (λ b. b || any_close os) k.when_ended
              ∙ or_assoc t.ended (is_close o) (any_close os));
      closed =
          rw (closings-append t.abi_entry.h s.calls (run_ops cache host os s.transaction).calls)
            (omega (arith, c, k.closed));
    }
