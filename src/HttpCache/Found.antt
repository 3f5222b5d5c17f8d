-- ===== src/HttpCache/Found.antt =====
-- fsthttp/cache.go: options and responses that are read from a cache handle; fsthttp/response.go:
-- what a response tells of its place in the cache. The host's answers are a parameter.
use compute_sdk_go.Common.{
  ℕ, ◌+◌, ◌-◌, ◌%◌, ◌^◌, Bool, true, false, not, ◌&&◌, Option, none, some, if◌then◌else◌, Bytes,
}
use compute_sdk_go.Abi.Status.{status_none}
use compute_sdk_go.Abi.Errors.{GoError, Result, ok, err, ◌>>=◌, annotate, has_status}
use compute_sdk_go.HttpCache.{
  StorageAction, insert, update, do_not_store, record_uncacheable, unknown,
}
use compute_sdk_go.Header.{Header}
use compute_sdk_go.HttpCache.Seconds.{u64ns_to_u32s}
use compute_sdk_go.HttpCache.Options.{WriteOptions, over, zero_abi, flush_to_abi}

-- What the `HTTPCacheGet…` functions answer for one handle.
pub record Handle : Type 0 where
  pub found_response : Result (Unit {0})
  pub hits : Result ℕ
  pub max_age_ns : Result ℕ
  pub vary_rule : Result Bytes
  pub age_ns : Result ℕ
  pub stale_while_revalidate_ns : Result ℕ
  pub surrogate_keys : Result Bytes
  pub object_length : Result ℕ
  pub sensitive_data : Result Bool
  pub stale_if_error_ns : Result ℕ
  -- `newResponse` on it: the header.
  pub new_response : Result Header

-- `cacheResponse` in `Response`.
pub record CacheResponse : Type 0 where
  pub options : WriteOptions
  pub storage_action : StorageAction
  pub hits : ℕ

-- The fields of `Response` that this part of the code sets.
pub record Response : Type 0 where
  pub cache_response : CacheResponse
  pub header : Header
  pub masked_error : Option GoError

-- No length is no error.
abbrev pub length_of : Result ℕ → Result (Option ℕ)
length_of (ok n) = ok (some n)
length_of (err e) = if has_status status_none e then ok none else err (GoError.wrap "get length" e)

abbrev pub with_read_length : Option ℕ → WriteOptions → WriteOptions
with_read_length (some n) opts = record opts { use_length = true; body_length = n }
with_read_length none opts = record opts { use_length = false; body_length = 0 }

unfoldable pub load_from_handle : Handle → WriteOptions → Result WriteOptions
load_from_handle h opts = do
  max_age ← annotate "get max age" h.max_age_ns
  vary ← annotate "get vary rule" h.vary_rule
  age ← annotate "get age" h.age_ns
  swr ← annotate "get stale while revalidate" h.stale_while_revalidate_ns
  surrogate ← annotate "get surrogate keys" h.surrogate_keys
  ln ← length_of h.object_length
  sensitive ← annotate "get sensitive data" h.sensitive_data
  sie ← annotate "get stale if error" h.stale_if_error_ns
  ok (
      with_read_length ln (record opts {
        max_age = u64ns_to_u32s max_age;
        vary = vary;
        age = u64ns_to_u32s age;
        stale_while_revalidate = u64ns_to_u32s swr;
        surrogate = surrogate;
        sensitive = sensitive;
        stale_if_error = u64ns_to_u32s sie;
      }))

-- `cacheStorageActionInvalid`
abbrev pub invalid_action : StorageAction
invalid_action = unknown 0xffff

abbrev read_hits : Bool → Handle → Result ℕ
read_hits was_hit h = if was_hit then annotate "get hits" h.hits else ok 0

abbrev load_response : Handle → Bool → Result (Option Response)
load_response h was_hit = do
  n ← read_hits was_hit h
  opts ← annotate "load cache options from handle" (load_from_handle h (over zero_abi))
  header ← annotate "new response" h.new_response
  ok (
      some (record {
        cache_response = record {
          options = flush_to_abi opts;
          storage_action = invalid_action;
          hits = n;
        };
        header = header;
        masked_error = none;
      }))

-- `httpCacheGetFoundResponse`; `ok none` where the cache has no response.
unfoldable pub get_found_response : Handle → Bool → Result (Option Response)
unfolding load_from_handle flush_to_abi
get_found_response h was_hit = elim (h.found_response) [
  | err e ↦ if has_status status_none e then ok none else err (GoError.wrap "get found response" e)
  | ok u ↦ load_response h was_hit
]

unfoldable pub was_written_to_cache : Response → Bool
was_written_to_cache r = elim (r.cache_response.storage_action) [
  | insert ↦ true
  | update ↦ true
  | _ ↦ false
]

unfoldable pub from_cache : Response → Bool
unfolding was_written_to_cache
from_cache r = not (was_written_to_cache r) && elim (r.cache_response.storage_action) [
  | do_not_store ↦ false
  | record_uncacheable ↦ false
  | _ ↦ true
]

-- A getter of `Response`: nothing for a response that has just been stored.
abbrev unless_written : ℕ → Response → Option ℕ
unless_written n r = if was_written_to_cache r then none else some n

-- `uint32` subtraction.
unfoldable pub response_ttl : Response → Option ℕ
unfolding was_written_to_cache
response_ttl r =
    unless_written
      ((r.cache_response.options.max_age + 2 ^ 32 - r.cache_response.options.age) % 2 ^ 32) r

unfoldable pub response_age : Response → Option ℕ
unfolding was_written_to_cache
response_age r = unless_written r.cache_response.options.age r

unfoldable pub response_stale_while_revalidate : Response → Option ℕ
unfolding was_written_to_cache
response_stale_while_revalidate r = unless_written r.cache_response.options.stale_while_revalidate r

unfoldable pub response_stale_if_error : Response → Option ℕ
unfolding was_written_to_cache
response_stale_if_error r = unless_written r.cache_response.options.stale_if_error r
