-- ===== src/Message/Asked.antt =====
-- fsthttp/request.go: what `FastlyMeta` returns, and that it is asked for once.
use Prim.Native.String.{String}
use mathlib.Core.Path.{subst}
use compute_sdk_go.Common.{
  sym, ℕ, ◌≡◌, refl, ap, ◌∙◌, Bool, true, false, List, [], ◌∷◌, Option, none, some, arith, ◌==◌,
  if◌then◌else◌, Bytes,
}
use compute_sdk_go.Abi.Status.{status_ok}
use compute_sdk_go.Abi.Errors.{
  GoError, fastly, wrap, Result, ok, err, ◌>>=◌, to_error, is_fastly_error, ignore_none_error,
}
use compute_sdk_go.Abi.Answers.{Answer, answered, missing_or_ok, first_refused}
use compute_sdk_go.Message.Meta.{
  Downstream, FastlyMeta, MetaRequest, local_meta, client_meta, fastly_meta, remember, ask,
}

-- The tests that the answers are put to, in the order of the calls.
abbrev pub tests : Downstream → List (ℕ × Bool)
tests d =
    (d.request_id.status, d.request_id.status == status_ok)
    ∷ (d.h2_fingerprint.status, missing_or_ok d.h2_fingerprint.status)
    ∷ (d.oh_fingerprint.status, missing_or_ok d.oh_fingerprint.status)
    ∷ (d.ddos_detected.status, d.ddos_detected.status == status_ok)
    ∷ (d.fastly_key_is_valid.status, d.fastly_key_is_valid.status == status_ok)
    ∷ []

-- What the answers give; a fingerprint that the host does not have is empty.
abbrev pub filled : Bytes → Downstream → ℕ → FastlyMeta
filled trace_id d n = record {
  sandbox_id = trace_id;
  request_id = d.request_id.value;
  h2 = answered [] (λ s. s) d.h2_fingerprint;
  oh = answered [] (λ s. s) d.oh_fingerprint;
  ddos_detected = d.ddos_detected.value;
  fastly_key_is_valid = d.fastly_key_is_valid.value;
  sandbox_requests = n;
}

-- A result as the first status that fails its test says.
abbrev Reports : FastlyMeta → Result FastlyMeta → Option ℕ → Type 0
Reports m x none = x ≡ ok m
Reports m x (some s) = (e : GoError) × (x ≡ err e) × (is_fastly_error e ≡ some s)

module _ (m : FastlyMeta) (context : String) where
  test-Reports :
      (fine : Bool) (s : ℕ) (rest : Option ℕ) (x : Result FastlyMeta)
      → Reports m x rest
      → Reports m
          (if fine then x else err (wrap context (fastly s)))
          (if fine then rest else some s)
  unfolding is_fastly_error
  test-Reports true s rest x h = h
  test-Reports false s rest x h = (wrap context (fastly s), refl, refl)

  ask-Reports {ℓ} :
      {A : Type ℓ} (z : A) (a : Answer A) (k : A → Result FastlyMeta) (rest : Option ℕ)
      → Reports m (k a.value) rest
      → Reports m
          (ask context (λ e. e) z a >>= k)
          (if a.status == status_ok then rest else some a.status)
  unfolding to_error
  ask-Reports z a k rest h =
      subst (λ x. Reports m x (if a.status == status_ok then rest else some a.status))
        (sym same_answer) (test-Reports (a.status == status_ok) a.status rest _ h)
    where
      same_answer :
          (ask context (λ e. e) z a >>= k)
          ≡ (if a.status == status_ok then k a.value else err (wrap context (fastly a.status)))
      same_answer = ground arith

  ask_ignoring-Reports {ℓ} :
      {A : Type ℓ} (z : A) (a : Answer A) (k : A → Result FastlyMeta) (rest : Option ℕ)
      → Reports m (k (answered z (λ v. v) a)) rest
      → Reports m
          (ask context ignore_none_error z a >>= k)
          (if missing_or_ok a.status then rest else some a.status)
  unfolding to_error is_fastly_error ignore_none_error
  ask_ignoring-Reports z a k rest h =
      subst (λ x. Reports m x (if missing_or_ok a.status then rest else some a.status))
        (sym same_answer) (test-Reports (missing_or_ok a.status) a.status rest _ h)
    where
      same_answer : (ask context ignore_none_error z a >>= k) ≡ (
          if missing_or_ok a.status
          then k (answered z (λ v. v) a)
          else err (wrap context (fastly a.status)))
      same_answer = ground arith

client_meta-Reports :
    (trace_id : Bytes) (d : Downstream) (r : MetaRequest)
    → Reports
        (filled trace_id d r.sandbox_requests)
        (client_meta trace_id d r)
        (first_refused (tests d))
unfolding client_meta
client_meta-Reports trace_id d r =
    let m = filled trace_id d r.sandbox_requests in
    ask-Reports m "get request ID" [] d.request_id _ _ (
      ask_ignoring-Reports m "get H2 fingerprint" [] d.h2_fingerprint _ _ (
        ask_ignoring-Reports m "get OH fingerprint" [] d.oh_fingerprint _ _ (
          ask-Reports m "get ddos detected" false d.ddos_detected _ _
            (ask-Reports m "get fastly key is valid" false d.fastly_key_is_valid _ _ refl))))

asks_host :
    (trace_id : Bytes) (d : Downstream) (r : MetaRequest)
    → r.fastly_meta ≡ none
    → r.has_downstream ≡ true
    → fastly_meta trace_id d r ≡ remember r (client_meta trace_id d r)
unfolding fastly_meta
asks_host trace_id d r new client =
    ap (λ o. elim o [ some m ↦ (r, ok m) | none ↦ remember r (answer r.has_downstream) ]) new
    ∙ ap (λ b. remember r (answer b)) client
  where
    answer : Bool → Result FastlyMeta
    answer b = if b then client_meta trace_id d r else ok (local_meta trace_id r)

-- A client's request for the host's data: where every call succeeds, a missing fingerprint aside, the
-- request keeps what they answer, and every further call returns the same whatever the host would
-- answer then. Where a call fails, the error has the first status that fails, and the request stays as
-- it was, so that the next call asks again.
pub fastly_meta_lem :
    (trace_id : Bytes) (d : Downstream) (r : MetaRequest)
    → r.fastly_meta ≡ none
    → r.has_downstream ≡ true
    → (first_refused (tests d) ≡ none
        → (r' : MetaRequest) × (fastly_meta trace_id d r
            ≡ (r', ok (filled trace_id d r.sandbox_requests)))
          × ((trace_id' : Bytes) (d' : Downstream)
              → fastly_meta trace_id' d' r' ≡ (r', ok (filled trace_id d r.sandbox_requests))))
      × ((s : ℕ)
          → first_refused (tests d) ≡ some s
          → (e : GoError) × (fastly_meta trace_id d r ≡ (r, err e)) × (is_fastly_error e ≡ some s))
unfolding fastly_meta
fastly_meta_lem trace_id d r new client = (
  (λ fine.
      let m = filled trace_id d r.sandbox_requests in
      let e : client_meta trace_id d r ≡ ok m =
        subst (Reports m (client_meta trace_id d r)) fine (client_meta-Reports trace_id d r) in
      (
        record r { fastly_meta = some m },
        asks_host trace_id d r new client ∙ ap (remember r) e,
        λ t' d'. refl,
      )),
  (λ s refused.
      let m = filled trace_id d r.sandbox_requests in
      let (e, x, i) =
        subst (Reports m (client_meta trace_id d r)) refused (client_meta-Reports trace_id d r) in
      (e, asks_host trace_id d r new client ∙ ap (remember r) x, i)),
)
