-- ===== src/Serving/Bounds.antt =====
-- fsthttp/handle.go: how many requests `ServeMany` serves, and in which state it leaves the responses.
use compute_sdk_go.Common.{
  ℕ, zero, suc, ◌≡◌, refl, ◌≢◌, ◌≤◌, ◌<◌, ◌+◌, arith, Bool, true, false, List, [], ◌∷◌, map, ap,
  if◌then◌else◌, Option, none, some,
}
use compute_sdk_go.Common.Int.{pos}
use compute_sdk_go.Abi.Errors.{GoError, Result, ok, err, has_status, wrap}
use compute_sdk_go.Abi.Status.{status_none}
use compute_sdk_go.Writer.{Host, Writer, close, finish}
use compute_sdk_go.Serving.{
  ServeManyOptions, World, Ending, finished, panicked, unfinished, Run, ends, goes_on, breaks,
  next_client, waited, timeout, serve_client, serve_rest, serve_many, serve, respond,
}

-- The numbers from `n` on.
abbrev pub count_up : ℕ → ℕ → List ℕ
count_up n zero = []
count_up n (suc k) = n ∷ count_up (suc n) k

-- The response is closed, where there was no panic.
abbrev pub IsClosed : Result Writer → Type 0
IsClosed (ok w) = w.closed ≡ true
IsClosed (err e) = Unit {0}

abbrev pub AllClosed : List (ℕ × Result Writer) → Type 0
AllClosed [] = Unit {0}
AllClosed ((n, x) ∷ l) = IsClosed x × AllClosed l

finish-closed : (host : Host) (w : Writer) → (finish host w).0.closed ≡ true
unfolding finish
finish-closed host w = ground arith

closed_behind : (host : Host) (w : Writer) → w.send_err ≡ none → (close host w).0.closed ≡ true
unfolding close
closed_behind host w h = ground (arith, finish-closed host)

-- Behind a handler of any kind the response is closed, or `serve` panics.
respond-IsClosed : (host : Host) (w : Writer) → IsClosed (respond host w)
unfolding respond
respond-IsClosed host w = by_error w.send_err (close host w).0 (closed_behind host w)
  where
    by_error :
        (o : Option GoError) (x : Writer)
        → (o ≡ none → x.closed ≡ true)
        → IsClosed (elim o [ some e ↦ err (wrap "send response downstream" e) | none ↦ ok x ])
    by_error none x h = h refl
    by_error (some e) x h = tt

serve-IsClosed {ℓ} :
    {R : Type ℓ} (host : Host) (client : Result R) (writer : Result Writer)
    (handle : R → Writer → Writer)
    → IsClosed (serve host client writer handle)
unfolding serve
serve-IsClosed host (err e) writer handle = tt
serve-IsClosed host (ok r) (err e) handle = tt
serve-IsClosed host (ok r) (ok w) handle = respond-IsClosed host (handle r w)

-- A run that ends has served the requests from `n` on, at most `most`, and closed their responses.
abbrev pub Serves : ℕ → ℕ → Run → Type 0
Serves n most r =
    (k : ℕ) × (k ≤ most)
    × (map (λ c. c.0) r.served ≡ count_up n k)
    × (r.ending ≢ unfinished)
    × AllClosed r.served

ends-Serves : (n most : ℕ) (e : Ending) → e ≢ unfinished → Serves n most (ends e)
ends-Serves n most e h = (0, omega arith, refl, h, tt)

goes_on-Serves :
    (n most : ℕ) (x : Result Writer) (rest : Run)
    → IsClosed x
    → Serves (suc n) most rest
    → Serves n (suc most) (goes_on n x rest)
goes_on-Serves n most (ok w) rest c (k, few, numbers, ended, closed) =
    (suc k, omega arith, ap (λ l. n ∷ l) numbers, ended, (c, closed))
goes_on-Serves n most (err e) rest c s = (1, omega arith, refl, (λ h. ground arith), (tt, tt))

if-Serves :
    (n most : ℕ) (b : Bool) (x y : Run)
    → Serves n most x
    → Serves n most y
    → Serves n most (if b then x else y)
if-Serves n most true x y h k = h
if-Serves n most false x y h k = k

if_true-Serves :
    (n most : ℕ) (b : Bool) (x y : Run)
    → b ≡ true
    → Serves n most x
    → Serves n most (if b then x else y)
if_true-Serves n most true x y t h = h
if_true-Serves n most false x y t h = absurd (ground arith)

module _ {ℓ} {R : Type ℓ} (world : World R) (opts : ServeManyOptions) where
  next_client-Serves :
      (n most count : ℕ) (go : ℕ → Run)
      → ((handles : ℕ) → Serves n most (go handles))
      → Serves n most (next_client world opts count (ends finished) go)
  unfolding next_client
  next_client-Serves n most count go h = by_promise (world.next_request count (timeout world opts))
    where
      by_wait : (x : Result ℕ) → Serves n most (waited (ends finished) go x)
      by_wait (err e) =
          if-Serves n most (has_status status_none e) _ _
            (ends-Serves n most finished (λ i. ground arith))
            (ends-Serves n most _ (λ i. ground arith))
      by_wait (ok handles) = h handles

      by_promise :
          (x : Result ℕ)
          → Serves n most (elim x [
            | err e ↦ ends (panicked (wrap "get next request promise" e))
            | ok promise ↦ waited (ends finished) go (world.wait count promise)
          ])
      by_promise (err e) = ends-Serves n most _ (λ i. ground arith)
      by_promise (ok promise) = by_wait (world.wait count promise)

  breaks_behind_limit :
      (n : ℕ) {m : ℕ} → opts.max_requests ≡ pos (suc m) → suc m < n → breaks world opts n ≡ true
  unfolding breaks
  breaks_behind_limit n lim h = ground arith

  serve_rest-Serves :
      (fuel n left : ℕ) {m : ℕ}
      → opts.max_requests ≡ pos (suc m)
      → n + left ≡ suc m
      → left < fuel
      → Serves (suc n) left (serve_rest world opts fuel n)
  unfolding serve_rest serve_client
  serve_rest-Serves zero n left lim sum h = absurd (omega arith)
  serve_rest-Serves (suc fuel) n zero lim sum h =
      if_true-Serves (suc n) 0 (breaks world opts (suc n)) (ends finished) _
        (breaks_behind_limit (suc n) lim (omega arith))
        (ends-Serves (suc n) 0 finished (λ i. ground arith))
  serve_rest-Serves (suc fuel) n (suc left) lim sum h =
      if-Serves (suc n) (suc left) (breaks world opts (suc n)) (ends finished) _
        (ends-Serves (suc n) (suc left) finished (λ i. ground arith))
        (next_client-Serves (suc n) (suc left) (suc n) _ (λ handles.
          goes_on-Serves (suc n) left _ _ (serve-IsClosed _ _ _ _)
            (serve_rest-Serves fuel (suc n) left lim (omega arith) (omega arith))))

  -- With a limit on the requests, that many rounds are enough for the loop to end. `ServeMany` serves
  -- the requests 1, 2 and so on, no more than the limit, and the response of each is closed unless
  -- `serve` panics.
  pub serve_many-Serves :
      (fuel : ℕ) {m : ℕ}
      → opts.max_requests ≡ pos (suc m)
      → m < fuel
      → Serves 1 (suc m) (serve_many world opts fuel)
  unfolding serve_many serve_client
  serve_many-Serves fuel {m} lim h = by_client world.downstream
    where
      by_client :
          (x : Result ℕ)
          → Serves 1 (suc m) (elim x [
            | err e ↦ ends (panicked (wrap "get client handles" e))
            | ok handles ↦
                goes_on 1 (serve_client world opts 1 handles) (serve_rest world opts fuel 1)
          ])
      by_client (err e) = ends-Serves 1 (suc m) _ (λ i. ground arith)
      by_client (ok handles) =
          goes_on-Serves 1 m _ _ (serve-IsClosed _ _ _ _)
            (serve_rest-Serves fuel 1 m lim (omega arith) h)
