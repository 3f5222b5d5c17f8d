-- ===== src/Send/Poll.antt =====
-- fsthttp/request.go: `copyBody`, which reports on the channel `errc`, and `pendingToABIResponse`,
-- which polls until the response is there. A schedule is the list of the rounds of the loop: what
-- `select` finds ready, or what the host answers to a poll.
use compute_sdk_go.Common.{
  ℕ, zero, suc, ◌+◌, ◌≤◌, ◌≡◌, refl, Bool, true, false, not, ◌&&◌, List, [], ◌∷◌, ◌++◌, Option,
  none, some, arith, ltb, if◌then◌else◌, length,
}
use Prim.Native.String.{String}
use Prim.Native.Nat.{max, min}
use compute_sdk_go.Common.Int.{ℤ, pos, negsuc}
use compute_sdk_go.Abi.Errors.{GoError, Result, ok, err, wrap}

-- `maybeWrap`
abbrev pub maybe_wrap : String → Option GoError → Option GoError
maybe_wrap annotation none = none
maybe_wrap annotation (some e) = some (wrap annotation e)

pub data BodyCall : Type 0 where
  copy close_user_body close_abi_body abandon_abi_body : BodyCall

-- The body of the request: whether it is there and comes from the host; and what `io.Copy`, the
-- closing of the user's body, and `Close` or `Abandon` of the host's body return.
pub record BodyAnswers : Type 0 where
  pub exists : Bool
  pub is_abi : Bool
  pub copied : Option GoError
  pub user_closed : Option GoError
  pub abi_closed : Option GoError
  pub abi_abandoned : Option GoError

abbrev copy_end : BodyAnswers → Option GoError → List BodyCall × List (Option GoError)
copy_end b none = (close_abi_body ∷ [], maybe_wrap "close request body" b.abi_closed ∷ [])
copy_end b (some e) =
    (abandon_abi_body ∷ [], maybe_wrap "abandon request body" b.abi_abandoned ∷ [])

-- The calls of `copyBody`, and what it sends to the channel.
unfoldable pub copy_body : BodyAnswers → List BodyCall × List (Option GoError)
copy_body b =
    if b.exists && not b.is_abi
    then (
      copy ∷ close_user_body ∷ (copy_end b b.copied).0,
      maybe_wrap "copy body" b.copied
          ∷ maybe_wrap "close user body" b.user_closed
          ∷ (copy_end b b.copied).1,
    )
    else (close_abi_body ∷ [], maybe_wrap "close request body" b.abi_closed ∷ [])

-- The durations of the code, in nanoseconds.
abbrev pub millisecond : ℕ
millisecond = 1_000_000

abbrev pub second : ℕ
second = 1_000_000_000

unfoldable pub safe_poll_interval : ℤ → ℕ
safe_poll_interval (negsuc n) = millisecond
safe_poll_interval (pos d) =
    if ltb d millisecond then millisecond else if ltb second d then second else d

-- One round of the loop: the context is done, with its error; a report of `copyBody`; or neither, and
-- the answer of `Poll`, where `ok none` is not done.
pub data Round (R : Type 0) : Type 0 where
  context_done : GoError → Round R
  report : Option GoError → Round R
  polled : Result (Option R) → Round R

-- How long the loop slept in each round, and what it returned; `none` where it goes on.
pub record Polling (R : Type 0) : Type 0 where
  pub sleeps : List ℕ
  pub result : Option (Result R)

module _ {R : Type 0} (interval : ℕ → ℤ) where
  unfoldable pub pending_to_abi_response : ℕ → List (Round R) → Polling R
  unfolding safe_poll_interval
  pending_to_abi_response iter [] = record { sleeps = []; result = none }
  pending_to_abi_response iter (context_done e ∷ later) = record {
    sleeps = [];
    result = some (err e);
  }
  pending_to_abi_response iter (report (some e) ∷ later) = record {
    sleeps = [];
    result = some (err e);
  }
  pending_to_abi_response iter (report none ∷ later) = pending_to_abi_response iter later
  pending_to_abi_response iter (polled (err e) ∷ later) = record {
    sleeps = [];
    result = some (err e);
  }
  pending_to_abi_response iter (polled (ok (some r)) ∷ later) = record {
    sleeps = [];
    result = some (ok r);
  }
  pending_to_abi_response iter (polled (ok none) ∷ later) =
      let rest = pending_to_abi_response (iter + 1) later in
      record { sleeps = safe_poll_interval (interval iter) ∷ rest.sleeps; result = rest.result }

-- What ends the loop, as an outcome of its own.
abbrev pub decides : {R : Type 0} → Round R → Option (Result R)
decides (context_done e) = some (err e)
decides (report none) = none
decides (report (some e)) = some (err e)
decides (polled (err e)) = some (err e)
decides (polled (ok none)) = none
decides (polled (ok (some r))) = some (ok r)

abbrev pub Waiting : {R : Type 0} → List (Round R) → Type 0
Waiting [] = Unit {0}
Waiting (x ∷ xs) = (decides x ≡ none) × Waiting xs

-- The polls of a schedule that were not done.
abbrev pub polls : {R : Type 0} → List (Round R) → ℕ
polls [] = 0
polls (polled a ∷ xs) = suc (polls xs)
polls (_ ∷ xs) = polls xs

-- A duration put between one millisecond and one second; what is negative counts as 0.
abbrev pub clamped : ℤ → ℕ
clamped (negsuc n) = millisecond
clamped (pos d) = max millisecond (min second d)

-- The sleeps of `n` polls from the number `i` on.
abbrev pub sleeps_from : (ℕ → ℤ) → ℕ → ℕ → List ℕ
sleeps_from interval i zero = []
sleeps_from interval i (suc n) = clamped (interval i) ∷ sleeps_from interval (i + 1) n

-- No sleep is shorter than a millisecond or longer than a second.
abbrev pub AllWithin : List ℕ → Type 0
AllWithin [] = Unit {0}
AllWithin (d ∷ ds) = (millisecond ≤ d) × (d ≤ second) × AllWithin ds

-- How often a run ends the body of the host, and whether it abandons it.
abbrev pub endings : List BodyCall → ℕ
endings [] = 0
endings (close_abi_body ∷ cs) = suc (endings cs)
endings (abandon_abi_body ∷ cs) = suc (endings cs)
endings (_ ∷ cs) = endings cs

abbrev pub abandons : List BodyCall → Bool
abandons [] = false
abandons (abandon_abi_body ∷ cs) = true
abandons (_ ∷ cs) = abandons cs

abbrev pub is_some : Option GoError → Bool
is_some none = false
is_some (some e) = true

-- `copyBody` reports each of its calls on the channel, three at most, for which the channel has room,
-- so that it never blocks; and it ends the body of the host once: it abandons the body just where
-- there was a body to copy and the copy has failed.
pub copy_body_reports :
    (b : BodyAnswers)
    → (length (copy_body b).1 ≡ length (copy_body b).0)
      × (length (copy_body b).1 ≤ 3)
      × (endings (copy_body b).0 ≡ 1)
      × (abandons (copy_body b).0 ≡ (b.exists && not b.is_abi && is_some b.copied))
unfolding copy_body
copy_body_reports b = by_copy b.exists b.is_abi b.copied b.user_closed b.abi_closed b.abi_abandoned
  where
    by_copy :
        (e i : Bool) (c u x a : Option GoError)
        → let b : BodyAnswers = record {
          exists = e;
          is_abi = i;
          copied = c;
          user_closed = u;
          abi_closed = x;
          abi_abandoned = a;
        } in
          (length (copy_body b).1 ≡ length (copy_body b).0)
          × (length (copy_body b).1 ≤ 3)
          × (endings (copy_body b).0 ≡ 1)
          × (abandons (copy_body b).0 ≡ (e && not i && is_some c))
    by_copy true false none u x a = (refl, omega arith, refl, refl)
    by_copy true false (some c) u x a = (refl, omega arith, refl, refl)
    by_copy true true c u x a = (refl, omega arith, refl, refl)
    by_copy false i c u x a = (refl, omega arith, refl, refl)

decided :
    {R : Type 0} (interval : ℕ → ℤ) (x : Round R) (later : List (Round R)) (r : Result R)
    → decides x ≡ some r
    → (i : ℕ)
    → pending_to_abi_response interval i (x ∷ later) ≡ record { sleeps = []; result = some r }
unfolding pending_to_abi_response
decided interval (context_done e) later r d i = cc
decided interval (report none) later r d i = cc
decided interval (report (some e)) later r d i = cc
decided interval (polled (err e)) later r d i = cc
decided interval (polled (ok none)) later r d i = cc
decided interval (polled (ok (some q))) later r d i = cc

safe_poll_interval-clamped : (d : ℤ) → safe_poll_interval d ≡ clamped d
unfolding safe_poll_interval
safe_poll_interval-clamped (negsuc n) = refl
safe_poll_interval-clamped (pos d) = ground arith

clamped_bounds : (d : ℤ) → (millisecond ≤ clamped d) × (clamped d ≤ second)
clamped_bounds (negsuc n) = omega arith
clamped_bounds (pos d) = ground arith

sleeps_from-AllWithin : (interval : ℕ → ℤ) (i n : ℕ) → AllWithin (sleeps_from interval i n)
sleeps_from-AllWithin interval i zero = tt
sleeps_from-AllWithin interval i (suc n) =
    let (low, high) = clamped_bounds (interval i) in
    (low, high, sleeps_from-AllWithin interval (i + 1) n)

first_decision :
    {R : Type 0} (interval : ℕ → ℤ) (waiting later : List (Round R)) (x : Round R) (r : Result R)
    → Waiting waiting
    → decides x ≡ some r
    → (i : ℕ)
    → pending_to_abi_response interval i (waiting ++ x ∷ later)
      ≡ record { sleeps = sleeps_from interval i (polls waiting); result = some r }
unfolding pending_to_abi_response
first_decision interval [] later x r w d i = decided interval x later r d i
first_decision interval (report none ∷ xs) later x r w d i =
    first_decision interval xs later x r w.1 d i
first_decision interval (polled (ok none) ∷ xs) later x r w d i =
    rw (first_decision interval xs later x r w.1 d (i + 1), safe_poll_interval-clamped (interval i))
      refl
first_decision interval (context_done e ∷ xs) later x r w d i = cc
first_decision interval (report (some e) ∷ xs) later x r w d i = cc
first_decision interval (polled (err e) ∷ xs) later x r w d i = cc
first_decision interval (polled (ok (some q)) ∷ xs) later x r w d i = cc

-- The loop returns what the first round that decides says, and no later round matters: an error of
-- the context, of the copy of the body or of a poll, or the response. Before that it sleeps once for
-- each poll that was not done, by the intervals from the first on, put between one millisecond and
-- one second, so that no sleep is shorter or longer than these.
pub pending_to_abi_response_first :
    {R : Type 0} (interval : ℕ → ℤ) (waiting later : List (Round R)) (x : Round R) (r : Result R)
    → Waiting waiting
    → decides x ≡ some r
    → (i : ℕ)
    → (pending_to_abi_response interval i (waiting ++ x ∷ later)
        ≡ record { sleeps = sleeps_from interval i (polls waiting); result = some r })
      × AllWithin (pending_to_abi_response interval i (waiting ++ x ∷ later)).sleeps
pending_to_abi_response_first interval waiting later x r w d i =
    let e = first_decision interval waiting later x r w d i in
    (e, rw e (sleeps_from-AllWithin interval i (polls waiting)))
