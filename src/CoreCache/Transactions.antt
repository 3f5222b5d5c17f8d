-- ===== src/CoreCache/Transactions.antt =====
-- cache/core/core.go: `Transaction`, which coordinates the users of one key.
pub mod Runs
use compute_sdk_go.Common.{
  ℕ, Bool, true, false, not, ◌&&◌, List, [], ◌∷◌, ◌++◌, Option, none, some, if◌then◌else◌, Bytes,
}
use compute_sdk_go.Abi.Status.{lookup_found, lookup_must_insert_or_update}
use compute_sdk_go.Abi.Errors.{GoError, ok, err, to_error, is_fastly_error}
use compute_sdk_go.Abi.Answers.{Answer}
use compute_sdk_go.CoreCache.{
  Error, not_found, other, Try, done, fails, mapped, map_fastly_error, Entry, Found, new_found,
  has_bit, Call, close_entry, cancel, close_body, abandon_body,
}
use compute_sdk_go.CoreCache.Options.{
  LookupOptions, abi_lookup_options, WriteOptions, AbiWriteOptions, abi_write_options,
}
use compute_sdk_go.CoreCache.Lookups.{Cache, Returned, returns, fastly_fails}

-- The host, for an entry of a transaction: the statuses of the calls, and for the insertion the
-- handle of the body, and with it, where it streams back, the new entry.
pub record TransactionHost : Type 0 where
  pub insert : ℕ → AbiWriteOptions → Answer ℕ
  pub insert_and_stream_back : ℕ → AbiWriteOptions → Answer (ℕ × Entry)
  pub update : ℕ → AbiWriteOptions → ℕ
  pub cancel : ℕ → ℕ
  pub close : ℕ → ℕ

pub record Transaction : Type 0 where
  pub abi_entry : Entry
  pub key : Bytes
  pub state : ℕ
  pub opts : LookupOptions
  pub found : Option Found
  pub ended : Bool

abbrev pub begun : Bytes → LookupOptions → Entry → Transaction
begun key opts e = record {
  abi_entry = e;
  key = key;
  state = e.get_state.value;
  opts = opts;
  found = none;
  ended = false;
}

-- `NewTransaction`
unfoldable pub new_transaction : Cache → Bytes → LookupOptions → Returned Transaction
unfolding to_error map_fastly_error abi_lookup_options
new_transaction cache key opts = elim (abi_lookup_options cache.requests opts) [
  | err x ↦ returns [] (fails (other x))
  | ok abi ↦
      let a = cache.transaction_lookup key abi in
      elim (to_error a.status) [
        | some x ↦ returns [] (fastly_fails x)
        | none ↦ elim (to_error a.value.get_state.status) [
          | some x ↦ returns (close_entry a.value.h ∷ []) (fastly_fails x)
          | none ↦ returns [] (done (begun key opts a.value))
        ]
      ]
]

-- The transaction after an operation, the calls that gave handles back, and the result.
pub record Step {ℓ} (A : Type ℓ) : Type ℓ where
  pub after : Transaction
  pub calls : List Call
  pub result : Try A

abbrev pub keeps {ℓ} : {A : Type ℓ} → Transaction → List Call → Try A → Step A
keeps t cs r = record { after = t; calls = cs; result = r }

-- `Found`
unfoldable pub get_found : Transaction → Step Found
unfolding map_fastly_error new_found has_bit
get_found t =
    if has_bit t.state lookup_found
    then elim t.found [
      | some f ↦ keeps t [] (done f)
      | none ↦ elim (new_found t.key t.abi_entry t.state t.opts.from t.opts.to) [
        | fails x ↦ keeps t [] (fails (map_fastly_error x))
        | done f ↦ keeps (record t { found = some f }) [] (done f)
      ]
    ]
    else keeps t [] (fails not_found)

-- `MustInsert`
unfoldable pub must_insert : Transaction → Bool
unfolding has_bit
must_insert t = not (has_bit t.state lookup_found) && has_bit t.state lookup_must_insert_or_update

-- `MustInsertOrUpdate`
unfoldable pub must_insert_or_update : Transaction → Bool
unfolding has_bit
must_insert_or_update t = has_bit t.state lookup_must_insert_or_update

-- `Insert`
unfoldable pub insert : Cache → TransactionHost → WriteOptions → Transaction → Step ℕ
unfolding to_error map_fastly_error abi_write_options
insert cache host opts t = elim (abi_write_options cache.requests opts) [
  | err x ↦ keeps t [] (fails (other x))
  | ok abi ↦
      let a = host.insert t.abi_entry.h abi in
      elim (to_error a.status) [
        | some x ↦ keeps t [] (fastly_fails x)
        | none ↦ keeps t [] (done a.value)
      ]
]

-- The object that is read back while it is written.
unfoldable pub stream_back : Bytes → Entry → Try Found
unfolding to_error map_fastly_error new_found
stream_back key e = elim (to_error e.get_state.status) [
  | some x ↦ fastly_fails x
  | none ↦ new_found key e e.get_state.value 0 0
]

-- `InsertAndStreamBack`: the handle of the body that takes the object, and the object.
unfoldable pub insert_and_stream_back :
    Cache → TransactionHost → WriteOptions → Transaction → Step (ℕ × Found)
unfolding to_error map_fastly_error abi_write_options stream_back
insert_and_stream_back cache host opts t = elim (abi_write_options cache.requests opts) [
  | err x ↦ keeps t [] (fails (other x))
  | ok abi ↦
      let a = host.insert_and_stream_back t.abi_entry.h abi in
      elim (to_error a.status) [
        | some x ↦ keeps t [] (fastly_fails x)
        | none ↦
            let (w, e) = a.value in
            elim (stream_back t.key e) [
              | fails x ↦ keeps t (abandon_body w ∷ close_entry e.h ∷ []) (fails x)
              | done f ↦ keeps t [] (done (w, f))
            ]
      ]
]

-- A nil error is mapped to nil.
abbrev pub finished : ℕ → Try (Unit {0})
finished s = elim (to_error s) [ some x ↦ fastly_fails x | none ↦ done tt ]

-- `Update`
unfoldable pub update : Cache → TransactionHost → WriteOptions → Transaction → Step (Unit {0})
unfolding to_error map_fastly_error abi_write_options
update cache host opts t = elim (abi_write_options cache.requests opts) [
  | err x ↦ keeps t [] (fails (other x))
  | ok abi ↦ keeps t [] (finished (host.update t.abi_entry.h abi))
]

-- `Cancel`
unfoldable pub cancel_transaction : TransactionHost → Transaction → Step (Unit {0})
unfolding to_error map_fastly_error
cancel_transaction host t =
    keeps t (cancel t.abi_entry.h ∷ []) (finished (host.cancel t.abi_entry.h))

-- `Close`, whose error is not mapped.
unfoldable pub close : TransactionHost → Transaction → Step (Unit {0})
unfolding to_error
close host t =
    if t.ended
    then keeps t [] (done tt)
    else keeps (record t { ended = true }) (close_entry t.abi_entry.h ∷ [])
        (elim (to_error (host.close t.abi_entry.h)) [ some x ↦ fails (other x) | none ↦ done tt ])
