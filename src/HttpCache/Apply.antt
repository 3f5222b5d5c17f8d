-- ===== src/HttpCache/Apply.antt =====
-- fsthttp/cache.go: `applyAndStreamBack` and `applyInBackground`, as runs that record their host
-- calls in order. What each call answers is the parameter `Answers`.
use compute_sdk_go.Common.{Bool, true, false, [], ◌∷◌, Option, none, some, Bytes}
use Prim.Native.String.{String}
use compute_sdk_go.Abi.Errors.{Result, annotate}
use compute_sdk_go.HttpCache.{
  StorageAction, insert, update, do_not_store, record_uncacheable, unknown,
}
use compute_sdk_go.HttpCache.Options.{WriteOptions}
use compute_sdk_go.HttpCache.Candidate.{Host, Candidate}
use compute_sdk_go.HttpCache.Found.{Response}
use compute_sdk_go.HttpCache.Finalize.{finalize_options}
use compute_sdk_go.HttpCache.Run.{Run, done, panics, ◌>>=◌, returns, of_result, call, deferred}

-- The host calls. `HTTPCacheTransactionInsert`, `…Update` and so on carry the options.
pub data Call : Type 0 where
  insert_and_stream_back : WriteOptions → Call
  insert_only : WriteOptions → Call
  update_and_return_fresh : WriteOptions → Call
  update_only : WriteOptions → Call
  abandon : Call
  record_not_cacheable : WriteOptions → Call
  copy_transformed : Call
  append_body : Call
  close_body : Call
  -- with `transformForClient`
  find_response : Bool → Call
  close_handle : Call

pub record Answers : Type 0 where
  pub transaction : Result (Unit {0})
  pub copy : Result (Unit {0})
  pub append : Result (Unit {0})
  -- `httpCacheGetFoundResponse`
  pub found : Result (Option Response)
  -- `newResponse`
  pub fresh_response : Result Response

-- `resp.cacheResponse.storageAction = action`, through a response that may be nil.
abbrev pub settle : StorageAction → Option Response → Run Call Response
settle action none = ([], panics)
settle action (some r) =
    returns (record r { cache_response = record (r.cache_response) { storage_action = action } })

module _ (a : Answers) where
  -- The body of the response, or what the transformation makes of it. The text is the one of the
  -- error of `Append`.
  unfoldable pub write_body : String → Option (Bytes → Bytes) → Run Call (Unit {0})
  write_body context (some fn) =
      call copy_transformed "bodyTransform: io.Copy" a.copy >>= λ _. (close_body ∷ [], done tt)
  write_body context none = call append_body context a.append >>= λ _. (close_body ∷ [], done tt)

  -- `newResponseFromCandidate`
  abbrev fresh : WriteOptions → Run Call (Option Response)
  fresh opts = of_result [] (annotate "newResponse" a.fresh_response) >>= λ r.
      returns (some (record r { cache_response = record (r.cache_response) { options = opts } }))

  unfoldable pub perform :
      StorageAction → WriteOptions → Option (Bytes → Bytes) → Run Call (Option Response)
  unfolding write_body
  perform insert opts transform =
      call (insert_and_stream_back opts) "cache transaction insert and stream back" a.transaction
      >>= λ _. deferred close_handle (
          write_body "body.Append" transform >>= λ _.
          call (find_response false) "cache get found response" a.found)
  perform update opts transform =
      call (update_and_return_fresh opts) "cache transaction update and return fresh" a.transaction
      >>= λ _. deferred close_handle (call (find_response true) "cache get found response" a.found)
  perform do_not_store opts transform =
      call abandon "cache transaction abandon" a.transaction >>= λ _. fresh opts
  perform record_uncacheable opts transform =
      call (record_not_cacheable opts) "cache transaction record not cacheable" a.transaction
      >>= λ _. fresh opts
  perform (unknown n) opts transform = returns none

  unfoldable pub perform_in_background :
      StorageAction → WriteOptions → Option (Bytes → Bytes) → Run Call (Unit {0})
  unfolding write_body
  perform_in_background insert opts transform =
      call (insert_only opts) "cache transaction insert" a.transaction >>= λ _.
      write_body "body.Append()" transform
  perform_in_background update opts transform =
      call (update_only opts) "cache transaction update" a.transaction
  perform_in_background do_not_store opts transform =
      call abandon "cache transaction abandon" a.transaction
  perform_in_background record_uncacheable opts transform =
      call (record_not_cacheable opts) "cache transaction record not cacheable" a.transaction
  perform_in_background (unknown n) opts transform = returns tt

  module _ {R : Type 0} (host : Host R) where
    unfoldable pub apply_and_stream_back : Candidate R → Run Call Response
    unfolding perform
    apply_and_stream_back c =
        of_result [] (annotate "finalize options" (finalize_options host c)) >>= λ p.
        perform p.0 p.1 c.body_transform >>= settle p.0

    unfoldable pub apply_in_background : Candidate R → Run Call (Unit {0})
    unfolding perform_in_background
    apply_in_background c = of_result [] (finalize_options host c) >>= λ p.
        perform_in_background p.0 p.1 c.body_transform
