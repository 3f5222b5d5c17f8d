-- ===== src/HttpCache/Tests.antt =====
-- fsthttp/cache.go: tests, and the theorems at concrete inputs. A backend response is the text of
-- its `Set-Cookie` header.

use compute_sdk_go.Common.{
  ◌*◌, ◌≡◌, refl, ◌⊎◌, true, false, [], ◌∷◌, some, none, arith, Bytes, codes,
}
use compute_sdk_go.Abi.Errors.{ok}
use compute_sdk_go.HttpCache.{insert, update, record_uncacheable}
use compute_sdk_go.HttpCache.Seconds.{second, u64ns_to_u32s, u32s_to_u64ns}
use compute_sdk_go.HttpCache.Options.{
  AbiWriteOptions, WriteOptions, over, zero_abi, flush_to_abi, load_from_abi,
}
use compute_sdk_go.HttpCache.Candidate.{
  len_body, Host, CacheOptions, Candidate, new_candidate, build_fresh_options,
  suggested_write_options, join_keys,
}
use compute_sdk_go.HttpCache.Finalize.{
  final_action, merged_options, finalize_options, body_has_known_length, suggested_or_fresh,
}
use compute_sdk_go.HttpCache.Found.{Response, was_written_to_cache, invalid_action}
use compute_sdk_go.HttpCache.Apply.{
  Answers, insert_and_stream_back, append_body, close_body, find_response, close_handle,
  apply_and_stream_back, apply_in_background, perform, write_body,
}
use compute_sdk_go.HttpCache.Run.{done, panics}
use compute_sdk_go.HttpCache.Transactions.{
  asked, storage_actions, apply-storage_actions, closed, given, apply_and_stream_back-closes,
}
use compute_sdk_go.HttpCache.Outcome.{apply-panics}
use compute_sdk_go.HttpCache.Freshness.{SameSettings, load_from_abi-flush_to_abi}
use compute_sdk_go.HttpCache.Getters.{Reported, getters-finalize_options}

-- An hour of freshness, ten seconds of age.
abbrev suggested_abi : AbiWriteOptions
suggested_abi = record zero_abi {
  max_age_ns = 3600 * second;
  initial_age_ns = some (10 * second);
  vary_rule = some (codes "accept");
  stale_while_revalidate_ns = some (60 * second);
}

abbrev hourly : Host Bytes
hourly = record {
  prepare_response_for_storage = λ r. ok (insert, r);
  suggested_cache_options = λ r. ok suggested_abi;
  get_state = ok 5;
  get_header_value = λ r name. ok r;
  get_header_values = λ r name. ok (codes "k1" ∷ codes "k2" ∷ []);
  set_header_values = λ r name vals. ok r;
  remove_header = λ r name. ok [];
  set_status_code = λ r code. ok r;
  get_status_code = λ r. ok 200;
}

abbrev defaults : CacheOptions
defaults = record {
  pci = false;
  ttl = 0;
  stale_while_revalidate = 0;
  stale_if_error = 30;
  surrogate_key = codes "k0";
}

abbrev candidate : Candidate Bytes
candidate = record {
  abi_resp = [];
  abi_body = len_body 5;
  suggested_options = none;
  suggested_storage_action = insert;
  override_storage_action = insert;
  use_storage_action = false;
  override_pci = false;
  use_pci = false;
  override_swr = 0;
  use_swr = false;
  override_sie = 30;
  use_sie = true;
  extra_surrogate_keys = codes "k0";
  override_surrogate_keys = [];
  use_surrogate = false;
  override_ttl = 0;
  use_ttl = false;
  override_vary = [];
  use_vary = false;
  body_transform = none;
}

abbrev hour : WriteOptions
hour = record (over suggested_abi) {
  max_age = 3600;
  vary = codes "accept";
  use_vary = true;
  age = 10;
  stale_while_revalidate = 60;
  surrogate = codes "k0 k1 k2";
}

abbrev written : WriteOptions
written =
    record (over (record suggested_abi {
      stale_if_error_ns = some (30 * second);
      surrogate_keys = some (codes "k0 k1 k2");
    })) {
      max_age = 3600;
      vary = codes "accept";
      age = 10;
      stale_while_revalidate = 60;
      stale_if_error = 30;
      surrogate = codes "k0 k1 k2";
      body_length = 5;
      use_length = true;
    }

created : new_candidate hourly defaults [] (len_body 5) ≡ ok candidate
unfolding new_candidate
created = refl

suggestion : build_fresh_options hourly candidate ≡ ok hour
unfolding build_fresh_options suggested_write_options load_from_abi u64ns_to_u32s join_keys
suggestion = refl

finalized : finalize_options hourly candidate ≡ ok (insert, written)
unfolding finalize_options build_fresh_options suggested_write_options load_from_abi u64ns_to_u32s
    join_keys flush_to_abi u32s_to_u64ns merged_options body_has_known_length suggested_or_fresh
    final_action
finalized = refl

abbrev stored : Response
stored = record {
  cache_response = record { options = hour; storage_action = invalid_action; hits = 0 };
  header = [];
  masked_error = none;
}

-- The host carries out all that it is asked for.
abbrev willing : Answers
willing = record {
  transaction = ok tt;
  copy = ok tt;
  append = ok tt;
  found = ok (some stored);
  fresh_response = ok stored;
}

-- The host has lost the response that an update is for.
abbrev forgetful : Answers
forgetful = record willing { found = ok none }

abbrev revalidated : Candidate Bytes
revalidated = record candidate { suggested_storage_action = update }

finalized_update : finalize_options hourly revalidated ≡ ok (update, written)
unfolding finalize_options build_fresh_options suggested_write_options load_from_abi u64ns_to_u32s
    join_keys flush_to_abi u32s_to_u64ns merged_options body_has_known_length suggested_or_fresh
    final_action
finalized_update = refl

abbrev returned : Response
returned = record stored {
  cache_response = record (stored.cache_response) { storage_action = insert };
}

streamed : apply_and_stream_back willing hourly candidate ≡ (
  insert_and_stream_back written
      ∷ append_body
      ∷ close_body
      ∷ find_response false
      ∷ close_handle
      ∷ [],
  done returned,
)
unfolding apply_and_stream_back perform write_body
streamed = rw finalized refl

apply-storage_actions_example :
    (storage_actions (apply_and_stream_back willing hourly candidate).0 ≡ insert ∷ [])
    × (storage_actions (apply_in_background willing hourly candidate).0 ≡ insert ∷ [])
apply-storage_actions_example =
    apply-storage_actions willing hourly candidate insert written finalized

apply_and_stream_back-closes_example :
    closed (apply_and_stream_back willing hourly candidate).0
    ≡ given willing (apply_and_stream_back willing hourly candidate).0
apply_and_stream_back-closes_example = apply_and_stream_back-closes willing hourly candidate

lost : (apply_and_stream_back forgetful hourly revalidated).1 ≡ panics
unfolding apply_and_stream_back perform
lost = rw finalized_update refl

apply-panics_example : (asked update ≡ []) ⊎ (forgetful.found ≡ ok none)
apply-panics_example =
    apply-panics forgetful hourly revalidated update written finalized_update lost

ended : (apply_and_stream_back willing hourly candidate).1 ≡ done returned
unfolding apply_and_stream_back perform write_body
ended = rw finalized refl

load_from_abi-flush_to_abi_example :
    SameSettings (load_from_abi (over (flush_to_abi hour).abi_opts)) hour
load_from_abi-flush_to_abi_example = load_from_abi-flush_to_abi hour (record {
  max_age_fits = omega arith;
  age_fits = omega arith;
  swr_fits = omega arith;
  sie_fits = omega arith;
})

getters-finalize_options_example : Reported hourly candidate written.abi_opts
getters-finalize_options_example =
    getters-finalize_options hourly candidate insert written finalized

abbrev with_cookie : Candidate Bytes
with_cookie = record candidate {
  abi_resp = codes "id=1";
  suggested_storage_action = record_uncacheable;
}

created_with_cookie : new_candidate hourly defaults (codes "id=1") (len_body 5) ≡ ok with_cookie
unfolding new_candidate
created_with_cookie = refl

-- A response of ten seconds that is an hour old.
abbrev old_response : Response
old_response = record stored {
  cache_response = record (stored.cache_response) {
    options = record hour { max_age = 10; age = 3600 };
  };
}

not_written : was_written_to_cache old_response ≡ false
unfolding was_written_to_cache
not_written = refl
