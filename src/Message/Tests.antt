-- ===== src/Message/Tests.antt =====
-- fsthttp/response.go: the theorem on the header of a response, at a concrete host.
use compute_sdk_go.Common.{
  ℕ, none, false, ◌≡◌, refl, Bool, List, [], ◌∷◌, true, false, some, arith, Bytes, codes, contains,
  same, if◌then◌else◌, drop,
}
use compute_sdk_go.Abi.Errors.{GoError, ok, err, to_error, is_fastly_error, ignore_none_error}
use compute_sdk_go.Abi.Answers.{first_refused}
use compute_sdk_go.Message.Meta.{Downstream, MetaRequest, client_meta, fastly_meta}
use compute_sdk_go.Message.Asked.{tests, filled, fastly_meta_lem}
use compute_sdk_go.Header.{Header, values}
use compute_sdk_go.Values.Contract.{Clear, Honest}
use compute_sdk_go.Values.Sample.{one_by_one, one_by_one-Honest}
use compute_sdk_go.Message.{Source, new_response}
use compute_sdk_go.Message.Read.{Faithful, gathered, new_response-values}

abbrev names : List Bytes
names = codes "etag" ∷ codes "vary" ∷ []

abbrev vals : Bytes → List Bytes
vals k = if same k (codes "etag") then codes "x" ∷ [] else codes "a" ∷ codes "b" ∷ []

abbrev source : Source
source = record { names = one_by_one names; values_of = λ k. one_by_one (vals k) }

names-Clear : Clear names
unfolding contains
names-Clear = (refl, (refl, tt))

vals-Honest : (k : Bytes) → Honest 8 (λ c. drop c (vals k)) (one_by_one (vals k))
unfolding contains
vals-Honest k = by_test (same k (codes "etag"))
  where
    by_test :
        (b : Bool)
        → Honest 8
            (λ c. drop c (if b then codes "x" ∷ [] else codes "a" ∷ codes "b" ∷ []))
            (one_by_one (if b then codes "x" ∷ [] else codes "a" ∷ codes "b" ∷ []))
    by_test true = one_by_one-Honest 8 (codes "x" ∷ []) (omega arith) (omega arith) (refl, tt)
    by_test false =
        one_by_one-Honest 8 (codes "a" ∷ codes "b" ∷ []) (omega arith) (omega arith)
          (refl, (refl, tt))

faithful : Faithful 8 3 names vals source
faithful = record {
  rest_names = λ c. drop c names;
  rest_vals = λ k c. drop c (vals k);
  all_names = refl;
  all_vals = λ k. refl;
  few_names = omega arith;
  few_vals = λ k. ground arith;
  honest_names = one_by_one-Honest 8 names (omega arith) (omega arith) names-Clear;
  honest_vals = vals-Honest;
}

new_response-values_example :
    (h : Header) × (new_response 3 9 source (ok 200) ≡ some (ok (200, h)))
    × ((q : Bytes) → values q h ≡ gathered vals names q)
new_response-values_example = new_response-values 200 faithful (omega arith)

-- A host without fingerprints.
abbrev plain_client : Downstream
plain_client = record {
  request_id = record { status = 0; value = codes "r1" };
  h2_fingerprint = record { status = 10; value = codes "junk" };
  oh_fingerprint = record { status = 10; value = [] };
  ddos_detected = record { status = 0; value = false };
  fastly_key_is_valid = record { status = 0; value = true };
}

abbrev from_client : MetaRequest
from_client = record { fastly_meta = none; sandbox_requests = 3; has_downstream = true }

meta_asked :
    (fastly_meta (codes "t") plain_client from_client).1
    ≡ ok (record {
      sandbox_id = codes "t";
      request_id = codes "r1";
      h2 = [];
      oh = [];
      ddos_detected = false;
      fastly_key_is_valid = true;
      sandbox_requests = 3;
    })
unfolding fastly_meta client_meta to_error is_fastly_error ignore_none_error
meta_asked = refl

fastly_meta_lem_example :
    (first_refused (tests plain_client) ≡ none
      → (r' : MetaRequest) × (fastly_meta (codes "t") plain_client from_client
          ≡ (r', ok (filled (codes "t") plain_client from_client.sandbox_requests)))
        × ((trace_id' : Bytes) (d' : Downstream)
            → fastly_meta trace_id' d' r'
              ≡ (r', ok (filled (codes "t") plain_client from_client.sandbox_requests))))
    × ((s : ℕ)
        → first_refused (tests plain_client) ≡ some s
        → (e : GoError) × (fastly_meta (codes "t") plain_client from_client ≡ (from_client, err e))
          × (is_fastly_error e ≡ some s))
fastly_meta_lem_example = fastly_meta_lem (codes "t") plain_client from_client refl refl
