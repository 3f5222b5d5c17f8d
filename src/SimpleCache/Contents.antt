-- ===== src/SimpleCache/Contents.antt =====
-- What `GetOrSet` returns, against the objects that the cache holds.
use mathlib.Core.Path.{subst}
use compute_sdk_go.Common.{
  sym, ℕ, ◌≡◌, refl, ap, ◌∙◌, Bool, true, false, Option, none, some, Bytes, arith, List, [], ◌∷◌,
  ◌++◌, append-nil, ◌==◌, ==_iff, if◌then◌else◌, length, take,
}
use compute_sdk_go.Common.Int.{ℤ}
use compute_sdk_go.Abi.Status.{lookup_found, lookup_must_insert_or_update}
use compute_sdk_go.Abi.Errors.{ok, to_error}
use compute_sdk_go.Abi.Answers.{Answer, first_refused, judged, answered}
use compute_sdk_go.CoreCache.{done, Entry, Found, Call, close_body, write_body, new_found, has_bit}
use compute_sdk_go.CoreCache.Fields.{new_found_lem, found_of, field_tests, refused_with}
use compute_sdk_go.CoreCache.Options.{
  AbiLookupOptions, AbiWriteOptions, no_lookup_options, write_options_with, abi_lookup_options,
  abi_write_options,
}
use compute_sdk_go.CoreCache.Lookups.{Cache, returns}
use compute_sdk_go.CoreCache.Transactions.{
  TransactionHost, Transaction, begun, new_transaction, must_insert_or_update, get_found,
  insert_and_stream_back, stream_back, keeps, close,
}
use compute_sdk_go.SimpleCache.{
  CacheEntry, Writer, io_copy, copy_end, copied, inserted, and_closes, write_entry, Got,
  write_options, set, get_in, get_or_set,
}
use compute_sdk_go.SimpleCache.Writing.{abandonings}

-- An entry that has been found, with a body.
pub record Object (e : Entry) : Type 0 where
  pub state_ok : e.get_state.status ≡ 0
  pub is_found : has_bit e.get_state.value lookup_found ≡ true
  pub fields_ok : first_refused (field_tests e 0 0) ≡ none
  pub body_ok : (e.get_body none none).status ≡ 0

-- The bytes that calls write by way of the handle `w`.
abbrev pub written_to : ℕ → List Call → Bytes
written_to w [] = []
written_to w (write_body k bs ∷ cs) =
    let rest = written_to w cs in if k == w then bs ++ rest else rest
written_to w (_ ∷ cs) = written_to w cs

-- The options of the lookups of `GetOrSet`.
abbrev pub plain_lookup : AbiLookupOptions
plain_lookup = record { request = none; always_use_requested_range = true }

-- A host that holds the objects of `store`: it answers with the object of the key where there is one,
-- whose body no call changes; and else it asks for one, takes the bytes that are written, and gives an
-- entry whose body holds what the calls write, unless they abandon it. `contents` has what a body holds
-- behind calls.
pub record Reflects (store : Bytes → Option Bytes) (contents : List Call → ℕ → Bytes)
    (cache : Cache) (host : TransactionHost) (writer : Writer) : Type 0 where
  pub opens : (key : Bytes) → (cache.transaction_lookup key plain_lookup).status ≡ 0
  pub hits :
      (key c : Bytes)
      → store key ≡ some c
      → let e = (cache.transaction_lookup key plain_lookup).value in
        Object e
        × (has_bit e.get_state.value lookup_must_insert_or_update ≡ false)
        × ((cs : List Call) → contents cs (e.get_body none none).value ≡ c)
  pub misses :
      (key : Bytes)
      → store key ≡ none
      → let e = (cache.transaction_lookup key plain_lookup).value in
        (e.get_state.status ≡ 0) × (has_bit e.get_state.value lookup_must_insert_or_update ≡ true)
  pub takes :
      (key : Bytes) (o : AbiWriteOptions)
      → store key ≡ none
      → let a = host.insert_and_stream_back (cache.transaction_lookup key plain_lookup).value.h o in
        (a.status ≡ 0)
        × Object a.value.1
        × ((bs : Bytes) → writer.write a.value.0 bs ≡ (length bs, none))
        × (writer.close_status a.value.0 ≡ 0)
        × ((cs : List Call)
            → abandonings a.value.0 cs ≡ 0
            → contents cs (a.value.1.get_body none none).value ≡ written_to a.value.0 cs)

-- The outcome: a body that holds `c` behind the calls.
abbrev pub Returns : (List Call → ℕ → Bytes) → Bytes → Bool → Got → Type 0
Returns contents c ran g =
    (b : ℕ) × (g.result ≡ done (some b)) × (contents g.calls b ≡ c) × (g.set_run ≡ ran)

new_found-Object :
    (key : Bytes) (e : Entry) (state : ℕ)
    → Object e
    → (f : Found) × (new_found key e state 0 0 ≡ done f)
      × (f.body ≡ some (e.get_body none none).value)
new_found-Object key e state o = (
  found_of key e state 0 0,
  new_found_lem key e state 0 0
      ∙ ap (judged refused_with (done (found_of key e state 0 0))) o.fields_ok,
  body_found (e.get_body none none) o.body_ok,
)
  where
    body_found : (a : Answer ℕ) → a.status ≡ 0 → answered none some a ≡ some a.value
    body_found a z = ground arith

to_error_of_ok : (s : ℕ) → s ≡ 0 → to_error s ≡ none
unfolding to_error
to_error_of_ok s e = ground arith

begins :
    (cache : Cache) (key : Bytes)
    → let a = cache.transaction_lookup key plain_lookup in
      a.status ≡ 0
      → a.value.get_state.status ≡ 0
      → (new_transaction cache key no_lookup_options).result
        ≡ done (begun key no_lookup_options a.value)
unfolding new_transaction abi_lookup_options
begins cache key p q =
    let a = cache.transaction_lookup key plain_lookup in
    rw (new_transaction, to_error_of_ok a.status p, to_error_of_ok a.value.get_state.status q) refl

-- The object that is read back while it is written.
stream_back-Object :
    (key : Bytes) (e : Entry)
    → Object e
    → (f : Found) × (stream_back key e ≡ done f) × (f.body ≡ some (e.get_body none none).value)
unfolding stream_back
stream_back-Object key e o =
    let (f, n, b) = new_found-Object key e e.get_state.value o in
    (f, rw (stream_back, to_error_of_ok e.get_state.status o.state_ok) n, b)

get_found-Object :
    (key : Bytes) (e : Entry)
    → Object e
    → (f : Found) × ((get_found (begun key no_lookup_options e)).result ≡ done f)
      × (f.body ≡ some (e.get_body none none).value)
unfolding get_found
get_found-Object key e o =
    let (f, n, b) = new_found-Object key e e.get_state.value o in
    (f, rw (get_found, o.is_found, n) refl, b)

insert-Object :
    (cache : Cache) (host : TransactionHost) (sha256 : Bytes → Bytes) (pop : Bytes) (ttl : ℤ)
    (t : Transaction)
    → let a =
        host.insert_and_stream_back t.abi_entry.h
          (write_options_with (write_options sha256 pop t.key ttl) none) in
      a.status ≡ 0
      → Object a.value.1
      → (f : Found) × (insert_and_stream_back cache host (write_options sha256 pop t.key ttl) t
          ≡ keeps t [] (done (a.value.0, f)))
        × (f.body ≡ some (a.value.1.get_body none none).value)
unfolding insert_and_stream_back abi_write_options
insert-Object cache host sha256 pop ttl t z o =
    let a =
      host.insert_and_stream_back t.abi_entry.h
        (write_options_with (write_options sha256 pop t.key ttl) none) in
    let (f, n, b) = stream_back-Object t.key a.value.1 o in
    (f, rw (insert_and_stream_back, to_error_of_ok a.status z, n) refl, b)

take_all : (bs : Bytes) → take (length bs) bs ≡ bs
take_all [] = refl
take_all (b ∷ bs) = ap (λ l. b ∷ l) (take_all bs)

io_copy-whole :
    (writer : Writer) (w : ℕ) (entry : CacheEntry)
    → writer.write w entry.body ≡ (length entry.body, none)
    → entry.read_error ≡ none
    → io_copy writer w entry ≡ (entry.body, none)
unfolding io_copy
io_copy-whole writer w entry h k =
    ap (copy_end entry) h
    ∙ rw (take_all entry.body, (==_iff (length entry.body) (length entry.body)).1 refl, k) refl

write_entry-whole :
    (writer : Writer) (w : ℕ) (entry : CacheEntry) (f : Found)
    → io_copy writer w entry ≡ (entry.body, none)
    → writer.close_status w ≡ 0
    → write_entry writer entry w f
      ≡ returns (write_body w entry.body ∷ close_body w ∷ close_body w ∷ []) (done f.body)
unfolding write_entry
write_entry-whole writer w entry f c z =
    ap (copied writer w f) c ∙ rw (copied, to_error_of_ok (writer.close_status w) z) refl

-- What the deferred `Close` of the transaction adds does not write to a body.
abandonings-close :
    (host : TransactionHost) (t : Transaction) (w : ℕ) → abandonings w (close host t).calls ≡ 0
unfolding close
abandonings-close host t w = ground arith

written_to-close :
    (host : TransactionHost) (t : Transaction) (w : ℕ) → written_to w (close host t).calls ≡ []
unfolding close
written_to-close host t w = ground arith

written_whole : (w : ℕ) (bs rest : Bytes) → rest ≡ [] → (if w == w then bs ++ rest else rest) ≡ bs
written_whole w bs rest e =
    let same_handle : (w == w) ≡ true = (==_iff w w).1 refl in rw (same_handle, e) (append-nil bs)

module _ (contents : List Call → ℕ → Bytes) (cache : Cache) (host : TransactionHost)
    (writer : Writer) (sha256 : Bytes → Bytes) (pop : Bytes) where
  get_in-Returns :
      (key : Bytes) (e : Entry) (c : Bytes)
      → Object e
      → ((cs : List Call) → contents cs (e.get_body none none).value ≡ c)
      → Returns contents c false
          (get_in cache host writer sha256 pop (begun key no_lookup_options e))
  unfolding get_in
  get_in-Returns key e c o h =
      let (f, q, b) = get_found-Object key e o in
      rw (get_in, q) ((e.get_body none none).value, ap done b, h _, refl)

  set-Returns :
      (entry : CacheEntry) (t : Transaction)
      → let a =
          host.insert_and_stream_back t.abi_entry.h
            (write_options_with (write_options sha256 pop t.key entry.ttl) none) in
        a.status ≡ 0
        → Object a.value.1
        → io_copy writer a.value.0 entry ≡ (entry.body, none)
        → writer.close_status a.value.0 ≡ 0
        → ((cs : List Call)
            → abandonings a.value.0 cs ≡ 0
            → contents cs (a.value.1.get_body none none).value ≡ written_to a.value.0 cs)
        → Returns contents entry.body true (set cache host writer sha256 pop (ok entry) t)
  unfolding set
  set-Returns entry t z o p q h =
      let a =
        host.insert_and_stream_back t.abi_entry.h
          (write_options_with (write_options sha256 pop t.key entry.ttl) none) in
      let (f, i, b) = insert-Object cache host sha256 pop entry.ttl t z o in
      let wrote =
        write_body a.value.0 entry.body ∷ close_body a.value.0 ∷ close_body a.value.0 ∷ [] in
      let e : set cache host writer sha256 pop (ok entry) t
          ≡ record { calls = wrote ++ (close host t).calls; set_run = true; result = done f.body } =
        ap (inserted cache host writer sha256 pop entry) i
        ∙ ap (λ r. and_closes cache host writer sha256 pop t r.calls true r.result)
            (write_entry-whole writer a.value.0 entry f p q) in
      subst (Returns contents entry.body true) (sym e) (
        (a.value.1.get_body none none).value,
        ap done b,
        h (wrote ++ (close host t).calls) (abandonings-close host t a.value.0)
            ∙ written_whole a.value.0 entry.body (written_to a.value.0 (close host t).calls)
                (written_to-close host t a.value.0),
        refl,
      )

  -- A cache that holds objects answers `GetOrSet` as a map does: with the object of the key, and
  -- without running the function, where there is one; and else the function runs, and the body that is
  -- returned holds the bytes of the body that the function has given, if this can be read to its end.
  pub get_or_set-Reflects :
      (store : Bytes → Option Bytes) (key : Bytes) (entry : CacheEntry)
      → Reflects store contents cache host writer
      → entry.read_error ≡ none
      → let g = get_or_set cache host writer sha256 pop key (ok entry) in
        ((c : Bytes) → store key ≡ some c → Returns contents c false g)
        × (store key ≡ none → Returns contents entry.body true g)
  unfolding get_or_set must_insert_or_update
  get_or_set-Reflects store key entry r readable =
      let e = (cache.transaction_lookup key plain_lookup).value in
      let t = begun key no_lookup_options e in
      (
        (λ c s.
            let (o, m, k) = r.hits key c s in
            let n = begins cache key (r.opens key) o.state_ok in
            let u : must_insert_or_update t ≡ false = m in
            rw (get_or_set, n, u) (get_in-Returns key e c o k)),
        (λ s.
            let (z, m) = r.misses key s in
            let n = begins cache key (r.opens key) z in
            let u : must_insert_or_update t ≡ true = m in
            let (a, o, p, q, k) =
              r.takes key (write_options_with (write_options sha256 pop key entry.ttl) none) s in
            rw (get_or_set, n, u)
              (set-Returns entry t a o (io_copy-whole writer _ entry (p entry.body) readable) q k)),
      )
