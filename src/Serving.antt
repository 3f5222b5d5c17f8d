-- ===== src/Serving.antt =====
-- fsthttp/handle.go: `serve`, `Serve` and `ServeMany`.
pub mod Bounds
mod Tests
use Prim.Native.String.{String}
use compute_sdk_go.Common.{
  ℕ, zero, suc, Bool, true, false, not, ◌&&◌, ◌||◌, List, [], ◌∷◌, Option, none, some, ltb,
  if◌then◌else◌,
}
use compute_sdk_go.Common.Int.{ℤ, pos, negsuc}
use compute_sdk_go.Abi.Status.{status_none}
use compute_sdk_go.Abi.Errors.{GoError, Result, ok, err, wrap, annotate, ◌>>=◌, has_status}
use compute_sdk_go.Writer.{Host, Writer, close}

-- The end of `serve`, behind the handler; an error is a panic.
unfoldable pub respond : Host → Writer → Result Writer
respond host w = elim w.send_err [
  | some e ↦ err (wrap "send response downstream" e)
  | none ↦ ok (close host w).0
]

-- `serve`, with what `newClientRequest` and `newResponseWriter` return; an error is a panic.
unfoldable pub serve {ℓ} :
    {R : Type ℓ} → Host → Result R → Result Writer → (R → Writer → Writer) → Result Writer
unfolding respond
serve host client writer handle = annotate "create client Request" client >>= λ r.
    annotate "create client ResponseWriter" writer >>= λ w. respond host (handle r w)

-- Durations are in nanoseconds; `none` is a nil function.
pub record ServeManyOptions : Type 0 where
  pub next_timeout : ℤ
  pub max_lifetime : ℤ
  pub max_requests : ℤ
  pub continue : Option (ℕ → Bool)

abbrev pub nonzero : ℤ → Bool
nonzero (pos zero) = false
nonzero (pos (suc n)) = true
nonzero (negsuc n) = true

-- `n > limit`
abbrev pub exceeds : ℕ → ℤ → Bool
exceeds n (pos limit) = ltb limit n
exceeds n (negsuc limit) = true

abbrev pub declines : Option (ℕ → Bool) → ℕ → Bool
declines none count = false
declines (some continue) count = not (continue count)

-- What the world around answers in the round of a request with a number: the time since the start,
-- the promise of the next request, what waiting for it gives, and the parts of `serve`.
pub record World {ℓ} (R : Type ℓ) : Type ℓ where
  pub downstream : Result ℕ
  pub since : ℕ → ℕ
  pub next_request : ℕ → Option ℤ → Result ℕ
  pub wait : ℕ → ℕ → Result ℕ
  pub response_host : ℕ → Host
  pub client_request : ℕ → ℕ → Result R
  pub response_writer : ℕ → Result Writer
  pub handler : ℕ → R → Writer → Writer

pub data Ending : Type 0 where
  finished : Ending
  panicked : GoError → Ending
  unfinished : Ending

-- The calls of `serve`, with the number of the request; and how the loop ends, where `unfinished` is
-- that fuel has run out.
pub record Run : Type 0 where
  pub served : List (ℕ × Result Writer)
  pub ending : Ending

abbrev pub ends : Ending → Run
ends e = record { served = []; ending = e }

-- A call of `serve`, before the rest of the run.
abbrev pub goes_on : ℕ → Result Writer → Run → Run
goes_on count (ok w) rest = record { served = (count, ok w) ∷ rest.served; ending = rest.ending }
goes_on count (err e) rest = record { served = (count, err e) ∷ []; ending = panicked e }

-- Behind `promise.Wait`.
abbrev pub waited : Run → (ℕ → Run) → Result ℕ → Run
waited over go (ok handles) = go handles
waited over go (err e) =
    if has_status status_none e then over else ends (panicked (wrap "get client handles" e))

module _ {ℓ} {R : Type ℓ} (world : World R) (opts : ServeManyOptions) where
  -- The tests at the head of the loop.
  unfoldable pub breaks : ℕ → Bool
  breaks count =
      (nonzero opts.max_requests && exceeds count opts.max_requests)
      || (nonzero opts.max_lifetime && exceeds (world.since count) opts.max_lifetime)
      || declines opts.continue count

  abbrev pub timeout : Option ℤ
  timeout = if nonzero opts.next_timeout then some opts.next_timeout else none

  unfoldable pub serve_client : ℕ → ℕ → Result Writer
  serve_client count handles =
      serve (world.response_host count) (world.client_request count handles)
        (world.response_writer count) (world.handler count)

  -- The handles of the next client, or the end.
  unfoldable pub next_client : ℕ → Run → (ℕ → Run) → Run
  next_client count over go = elim (world.next_request count timeout) [
    | err e ↦ ends (panicked (wrap "get next request promise" e))
    | ok promise ↦ waited over go (world.wait count promise)
  ]

  -- The loop, on fuel, behind `n` requests.
  unfoldable pub serve_rest : ℕ → ℕ → Run
  unfolding breaks next_client serve_client
  serve_rest zero n = ends unfinished
  serve_rest (suc fuel) n =
      let rest = serve_rest fuel (suc n) in
      if breaks (suc n)
      then ends finished
      else next_client (suc n) (ends finished)
          (λ handles. goes_on (suc n) (serve_client (suc n) handles) rest)

  unfoldable pub serve_many : ℕ → Run
  unfolding serve_rest
  serve_many fuel = elim world.downstream [
    | err e ↦ ends (panicked (wrap "get client handles" e))
    | ok handles ↦ goes_on 1 (serve_client 1 handles) (serve_rest fuel 1)
  ]
