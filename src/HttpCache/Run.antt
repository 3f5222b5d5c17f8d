-- ===== src/HttpCache/Run.antt =====
-- fsthttp/cache.go and fsthttp/request.go: a run of code that calls the host, with its calls in
-- order and the way in which it ends.
use Prim.Native.String.{String}
use compute_sdk_go.Common.{List, [], ◌∷◌, ◌++◌}
use compute_sdk_go.Abi.Errors.{GoError, Result, ok, err, annotate}

-- `panics` is a nil dereference.
pub data Outcome (A : Type 0) : Type 0 where
  done : A → Outcome A
  failed : GoError → Outcome A
  panics : Outcome A

abbrev pub Run : Type 0 → Type 0 → Type 0
Run C A = List C × Outcome A

module _ {C : Type 0} where
  infixl 5 ◌>>=◌
  abbrev pub ◌>>=◌ : {A B : Type 0} → Run C A → (A → Run C B) → Run C B
  (calls, done a) >>= f = (calls ++ (f a).0, (f a).1)
  (calls, failed e) >>= f = (calls, failed e)
  (calls, panics) >>= f = (calls, panics)

  abbrev pub returns : {A : Type 0} → A → Run C A
  returns a = ([], done a)

  abbrev pub of_result : {A : Type 0} → List C → Result A → Run C A
  of_result calls (ok a) = (calls, done a)
  of_result calls (err e) = (calls, failed e)

  -- A host call, with the annotation of its error.
  abbrev pub call : {A : Type 0} → C → String → Result A → Run C A
  call c context r = of_result (c ∷ []) (annotate context r)

  -- `defer`: the call is made when the rest has ended, however it ends.
  abbrev pub deferred : {A : Type 0} → C → Run C A → Run C A
  deferred c (calls, o) = (calls ++ c ∷ [], o)
