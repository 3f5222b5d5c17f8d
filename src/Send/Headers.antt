-- ===== src/Send/Headers.antt =====
-- fsthttp/response.go: `updateFastlyCacheHeaders`.
use compute_sdk_go.Common.{ℕ, Bool, ◌&&◌, ◌==◌, if◌then◌else◌, codes, is_empty}
use compute_sdk_go.Common.Int.{decimal}
use compute_sdk_go.Header.{Header, get, add, del}
use compute_sdk_go.HttpCache.Found.{Response}

abbrev with_hits : ℕ → Header → Header
with_hits hits h =
    if hits == 0
    then add (codes "x-cache-hits") (codes "0") (add (codes "x-cache") (codes "MISS") h)
    else add (codes "x-cache-hits") (decimal hits) (add (codes "x-cache") (codes "HIT") h)

-- `shouldRemoveSurrogateHeaders`, by the header of the request.
abbrev pub hides_surrogates : Header → Bool
hides_surrogates req =
    is_empty (get (codes "fastly-ff") req) && is_empty (get (codes "fastly-debug") req)

unfoldable pub update_cache_headers : Header → Response → Response
unfolding add del get
update_cache_headers req r =
    let h = with_hits r.cache_response.hits r.header in
    record r {
      header =
          if hides_surrogates req
          then del (codes "surrogate-control") (del (codes "surrogate-key") h)
          else h;
    }
