-- ===== src/SimpleCache.antt =====
-- cache/simple/simple.go: reading, writing and purging one object, on top of cache/core.
pub mod Writing
pub mod Handles
pub mod Contents
pub mod Purging
mod Tests
use compute_sdk_go.Common.{
  ℕ, Bool, true, false, List, [], ◌∷◌, ◌++◌, Option, none, some, if◌then◌else◌, Bytes, hex_key,
  take, length, ◌==◌,
}
use compute_sdk_go.Common.Int.{ℤ, pos}
use compute_sdk_go.Abi.Errors.{GoError, Result, ok, err, to_error}
use compute_sdk_go.CoreCache.{
  Error, other, Try, done, fails, Found, Call, close_body, abandon_body, write_body,
  map_fastly_error,
}
use compute_sdk_go.CoreCache.Options.{WriteOptions, no_lookup_options}
use compute_sdk_go.CoreCache.Lookups.{Cache, Returned, returns, lookup}
use compute_sdk_go.CoreCache.Transactions.{
  Step, TransactionHost, Transaction, new_transaction, must_insert_or_update, get_found,
  insert_and_stream_back, close,
}

-- `Get`: the handle in the body that it returns.
unfoldable pub get : Cache → Bytes → Returned (Option ℕ)
unfolding lookup
get cache key =
    let r = lookup cache key no_lookup_options in
    elim r.result [ fails x ↦ returns r.calls (fails x) | done f ↦ returns r.calls (done f.body) ]

pub data PurgeScope : Type 0 where
  purge_scope_pop purge_scope_global : PurgeScope

-- `SurrogateKeyForCacheKey`, with the digest and the value of the variable FASTLY_POP.
unfoldable pub surrogate_key_for_cache_key : (Bytes → Bytes) → Bytes → Bytes → PurgeScope → Bytes
surrogate_key_for_cache_key sha256 pop key purge_scope_pop = hex_key (sha256 (key ++ pop))
surrogate_key_for_cache_key sha256 pop key purge_scope_global = hex_key (sha256 key)

-- `Purge`: the key that the host is asked to purge, and its status.
unfoldable pub purge :
    (Bytes → ℕ) → (Bytes → Bytes) → Bytes → Bytes → PurgeScope → Bytes × Option GoError
unfolding to_error surrogate_key_for_cache_key
purge purge_surrogate_key sha256 pop key scope =
    let sk = surrogate_key_for_cache_key sha256 pop key scope in
    (sk, to_error (purge_surrogate_key sk))

abbrev pub write_options : (Bytes → Bytes) → Bytes → Bytes → ℤ → WriteOptions
write_options sha256 pop key ttl = record {
  ttl = ttl;
  request_headers = [];
  vary = [];
  initial_age = pos 0;
  stale_while_revalidate = pos 0;
  surrogate_keys =
      surrogate_key_for_cache_key sha256 pop key purge_scope_pop
      ∷ surrogate_key_for_cache_key sha256 pop key purge_scope_global
      ∷ [];
  length = 0;
  user_metadata = [];
  sensitive_data = false;
}

-- The bytes that the body of the entry gives, and the error at its end, where it is not the end of file.
pub record CacheEntry : Type 0 where
  pub body : Bytes
  pub read_error : Option GoError
  pub ttl : ℤ

-- What the writer of the object answers: how many bytes it takes, with an error, and the status of its
-- `Close`.
pub record Writer : Type 0 where
  pub write : ℕ → Bytes → ℕ × Option GoError
  pub close_status : ℕ → ℕ

abbrev pub first_error : Option GoError → Option GoError → Option GoError
first_error none e = e
first_error (some x) e = some x

abbrev pub short_write : GoError
short_write = GoError.plain "short write"

-- Of the entry's bytes, those that the writer has taken, and the error: of the writer, of a short write,
-- or else of the reader.
abbrev pub copy_end : CacheEntry → ℕ × Option GoError → Bytes × Option GoError
copy_end e (n, x) =
    (take n e.body, first_error x (if n == length e.body then e.read_error else some short_write))

-- `io.Copy(w, e.Body)`, with all its writes together.
unfoldable pub io_copy : Writer → ℕ → CacheEntry → Bytes × Option GoError
io_copy writer w e = copy_end e (writer.write w e.body)

-- Behind the copy: what has been written, and the error; the deferred `Close` comes last.
abbrev pub copied : Writer → ℕ → Found → Bytes × Option GoError → Returned (Option ℕ)
copied writer w f (bs, some e) =
    returns (write_body w bs ∷ abandon_body w ∷ close_body w ∷ []) (fails (other e))
copied writer w f (bs, none) = elim (to_error (writer.close_status w)) [
  | some e ↦
      returns (write_body w bs ∷ close_body w ∷ abandon_body w ∷ close_body w ∷ [])
        (fails (other e))
  | none ↦ returns (write_body w bs ∷ close_body w ∷ close_body w ∷ []) (done f.body)
]

-- The object is written by way of the handle `w`.
unfoldable pub write_entry : Writer → CacheEntry → ℕ → Found → Returned (Option ℕ)
unfolding to_error io_copy
write_entry writer entry w f = copied writer w f (io_copy writer w entry)

-- What `GetOrSet` returns, its calls, and whether it has run `setFn`.
pub record Got : Type 0 where
  pub calls : List Call
  pub set_run : Bool
  pub result : Try (Option ℕ)

-- `GetOrSet` in the transaction `t`, whose deferred `Close` comes last.
module _ (cache : Cache) (host : TransactionHost) (writer : Writer) (sha256 : Bytes → Bytes)
    (pop : Bytes) where
  abbrev pub and_closes : Transaction → List Call → Bool → Try (Option ℕ) → Got
  and_closes t cs run r = record { calls = cs ++ (close host t).calls; set_run = run; result = r }

  -- Behind `InsertAndStreamBack`.
  abbrev pub inserted : CacheEntry → Step (ℕ × Found) → Got
  inserted entry s = elim s.result [
    | fails x ↦ and_closes s.after s.calls true (fails x)
    | done (w, f) ↦
        let r = write_entry writer entry w f in
        and_closes s.after (s.calls ++ r.calls) true r.result
  ]

  unfoldable pub set : Result CacheEntry → Transaction → Got
  unfolding insert_and_stream_back write_entry close
  set (err e) t = and_closes t [] true (fails (other e))
  set (ok entry) t =
      inserted entry
        (insert_and_stream_back cache host (write_options sha256 pop t.key entry.ttl) t)

  unfoldable pub get_in : Transaction → Got
  unfolding get_found close
  get_in t =
      let s = get_found t in
      elim s.result [
        | fails x ↦ and_closes s.after s.calls false (fails x)
        | done f ↦ and_closes s.after s.calls false (done f.body)
      ]

  -- `GetOrSet`; `set_fn` is what the function returns where it is run, an entry or an error.
  unfoldable pub get_or_set : Bytes → Result CacheEntry → Got
  unfolding new_transaction must_insert_or_update set get_in
  get_or_set key set_fn =
      let n = new_transaction cache key no_lookup_options in
      elim n.result [
        | fails x ↦ record { calls = n.calls; set_run = false; result = fails x }
        | done t ↦ if must_insert_or_update t then set set_fn t else get_in t
      ]
