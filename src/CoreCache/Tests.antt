-- ===== src/CoreCache/Tests.antt =====
-- Runs of the definitions on small inputs, and instances of the theorems about the core cache.
use compute_sdk_go.Common.{
  ℕ, ◌≡◌, refl, true, false, [], ◌∷◌, some, ◌==◌, if◌then◌else◌, codes, contains,
}
use compute_sdk_go.Common.Int.{pos}
use compute_sdk_go.Abi.Errors.{to_error, is_fastly_error, ignore_none_error}
use compute_sdk_go.Abi.Answers.{Answer}
use compute_sdk_go.CoreCache.{
  not_found, limit_exceeded, range_error, fails, Entry, new_found, get_range, map_fastly_error,
  close_wrapper, has_bit,
}
use compute_sdk_go.CoreCache.Options.{Requests, no_lookup_options, abi_lookup_options, WriteOptions}
use compute_sdk_go.CoreCache.Fields.{found_of}
use compute_sdk_go.CoreCache.Lookups.{Cache, lookup, look_into}
use compute_sdk_go.CoreCache.Lookups.Handles.{Settled, opened, lookup-Settled}
use compute_sdk_go.CoreCache.Transactions.{TransactionHost, begun}
use compute_sdk_go.CoreCache.Transactions.Runs.{
  op_found, op_close, op_stream_back, Kept, run_ops, run_ops-Kept,
}

abbrev answer : {A : Type 0} → ℕ → A → Answer A
answer s v = record { status = s; value = v }

-- An entry whose age is answered with the status `s`.
abbrev entry : ℕ → ℕ → ℕ → Entry
entry h state s = record {
  h = h;
  get_state = answer 0 state;
  get_max_age_ns = answer 0 100;
  get_length = answer 10 0;
  get_age_ns = answer s 7;
  get_stale_while_revalidate_ns = answer 10 0;
  get_hits = answer 0 3;
  get_body = λ from to. answer 0 9;
}

abbrev requests : Requests
requests = record { new_request = answer 0 1; set_header_values = λ k vs. 0 }

-- The key "miss" has no object, and the key "" is refused.
abbrev cache : Cache
cache = record {
  requests = requests;
  lookup = λ key opts. elim key [
    | [] ↦ answer 2 (entry 0 0 0)
    | c ∷ cs ↦ answer 0 (entry 5 (if c == b'm' then 0 else 3) 13)
  ];
  transaction_lookup = λ key opts. answer 0 (entry 5 8 0);
  insert = λ key opts. answer 0 6;
}

abbrev host : TransactionHost
host = record {
  insert = λ h w. answer 0 6;
  insert_and_stream_back = λ h w. answer 0 (6, entry 7 3 13);
  update = λ h w. 0;
  cancel = λ h. 0;
  close = λ h. 0;
}

abbrev options : WriteOptions
options = record {
  ttl = pos 60;
  request_headers = [];
  vary = [];
  initial_age = pos 0;
  stale_while_revalidate = pos 0;
  surrogate_keys = [];
  length = 0;
  user_metadata = [];
  sensitive_data = false;
}

fails_with_limit : new_found (codes "k") (entry 5 3 13) 3 0 0 ≡ fails limit_exceeded
unfolding new_found to_error is_fastly_error ignore_none_error map_fastly_error
fails_with_limit = refl

lookup-Settled_example :
    Settled
      (codes "k")
      (opened (cache.lookup (codes "k")) (abi_lookup_options requests no_lookup_options))
      (lookup cache (codes "k") no_lookup_options)
lookup-Settled_example = lookup-Settled cache (codes "k") no_lookup_options

misses : (lookup cache (codes "miss") no_lookup_options).result ≡ fails not_found
unfolding lookup abi_lookup_options look_into has_bit to_error contains
misses = refl

run_ops-Kept_example : Kept true (begun (codes "k") no_lookup_options (entry 5 8 0)) (
    run_ops cache host
      (op_stream_back options ∷ op_close ∷ op_found ∷ op_close ∷ [])
      (begun (codes "k") no_lookup_options (entry 5 8 0)))
run_ops-Kept_example =
    run_ops-Kept cache host (op_stream_back options ∷ op_close ∷ op_found ∷ op_close ∷ [])
      (begun (codes "k") no_lookup_options (entry 5 8 0)) (λ w. refl)

refuses_range : get_range (found_of [] (entry 5 3 0) 3 0 0) 4 2 ≡ fails (range_error 4 2)
unfolding get_range
refuses_range = refl

closes_once : (close_wrapper (close_wrapper (some 4)).1).0 ≡ []
unfolding close_wrapper
closes_once = refl
