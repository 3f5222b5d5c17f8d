-- ===== src/Send/Weights.antt =====
-- Counting the calls of a run: a weight for each call, and what the operations of runs do to it.
use compute_sdk_go.Common.{ℕ, ◌+◌, ◌≤◌, ◌≡◌, List, [], ◌∷◌, ◌++◌, map, arith}
use compute_sdk_go.Abi.Errors.{GoError, Result, ok, err}
use compute_sdk_go.HttpCache.Run.{Run, done, failed, panics, ◌>>=◌, of_result}
use compute_sdk_go.HttpCache.Apply.{Call}
use compute_sdk_go.Send.Guest.{
  SendCall, send_v3, send_async, start_background, close_lookup, lookup, storing, lift_calls,
  on_error,
}

abbrev pub total : (SendCall → ℕ) → List SendCall → ℕ
total w [] = 0
total w (c ∷ cs) = w c + total w cs

pub total-append :
    (w : SendCall → ℕ) (xs ys : List SendCall) → total w (xs ++ ys) ≡ total w xs + total w ys
total-append w [] ys = omega arith
total-append w (x ∷ xs) ys = omega (arith, total-append w xs ys)

-- At most `n` on the calls of the run.
abbrev pub AtMost : {A : Type 0} → (SendCall → ℕ) → ℕ → Run SendCall A → Type 0
AtMost w n m = total w m.0 ≤ n

module _ (w : SendCall → ℕ) where
  -- Two runs of which the first, or the second, weighs nothing.
  pub first-AtMost :
      {A B : Type 0} (m : Run SendCall A) (f : A → Run SendCall B) (n : ℕ)
      → AtMost w 0 m
      → ((x : A) → AtMost w n (f x))
      → AtMost w n (m >>= f)
  first-AtMost (calls, done x) f n h k = omega (arith, total-append w calls (f x).0, k x)
  first-AtMost (calls, failed e) f n h k = omega arith
  first-AtMost (calls, panics) f n h k = omega arith

  pub second-AtMost :
      {A B : Type 0} (m : Run SendCall A) (f : A → Run SendCall B) (n : ℕ)
      → AtMost w n m
      → ((x : A) → AtMost w 0 (f x))
      → AtMost w n (m >>= f)
  second-AtMost (calls, done x) f n h k = omega (arith, total-append w calls (f x).0, k x)
  second-AtMost (calls, failed e) f n h k = h
  second-AtMost (calls, panics) f n h k = h

  pub of_result-AtMost :
      {A : Type 0} (calls : List SendCall) (r : Result A) (n : ℕ)
      → total w calls ≤ n
      → AtMost w n (of_result calls r)
  of_result-AtMost calls (ok x) n h = h
  of_result-AtMost calls (err e) n h = h

  pub on_error-AtMost :
      {A B : Type 0} (m : Run SendCall A) (g : GoError → Run SendCall B) (f : A → Run SendCall B)
      → AtMost w 0 m
      → ((e : GoError) → AtMost w 0 (g e))
      → ((x : A) → AtMost w 0 (f x))
      → AtMost w 0 (on_error m g f)
  on_error-AtMost (calls, done x) g f h l k = omega (arith, total-append w calls (f x).0, k x)
  on_error-AtMost (calls, failed e) g f h l k = omega (arith, total-append w calls (g e).0, l e)
  on_error-AtMost (calls, panics) g f h l k = omega arith

  -- The calls of a candidate that is stored weigh nothing.
  pub lift_calls-AtMost :
      {A : Type 0} (m : Run Call A) → ((c : Call) → w (storing c) ≡ 0) → AtMost w 0 (lift_calls m)
  lift_calls-AtMost (calls, o) h = weightless calls
    where
      weightless : (cs : List Call) → total w (map storing cs) ≤ 0
      weightless [] = omega arith
      weightless (c ∷ cs) = omega (arith, h c, weightless cs)

-- Requests to the backend, and the handle of the lookup: given, closed, handed on.
abbrev pub to_backend : SendCall → ℕ
to_backend send_v3 = 1
to_backend send_async = 1
to_backend _ = 0

abbrev pub closing : SendCall → ℕ
closing close_lookup = 1
closing _ = 0

abbrev pub handing_on : SendCall → ℕ
handing_on start_background = 1
handing_on _ = 0

abbrev pub looking_up : SendCall → ℕ
looking_up (lookup k) = 1
looking_up _ = 0
