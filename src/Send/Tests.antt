-- ===== src/Send/Tests.antt =====
-- fsthttp/request.go: tests, and the theorems at concrete inputs. A backend response is a number.
use compute_sdk_go.Common.{ℕ, ◌*◌, ◌≡◌, refl, true, false, [], none, some, codes, if◌then◌else◌}
use compute_sdk_go.Abi.Status.{status_none, has}
use compute_sdk_go.Abi.Errors.{GoError, ok, err, is_fastly_error}
use compute_sdk_go.HttpCache.{insert}
use compute_sdk_go.HttpCache.Seconds.{second, u64ns_to_u32s}
use compute_sdk_go.HttpCache.Options.{over, zero_abi, flush_to_abi}
use compute_sdk_go.HttpCache.Candidate.{Host, CacheOptions, opaque_body}
use compute_sdk_go.HttpCache.Found.{Handle, Response, invalid_action, get_found_response}
use compute_sdk_go.HttpCache.Run.{failed}
use compute_sdk_go.Send.Choice.{Request}
use compute_sdk_go.Send.Guest.{
  SendAnswers, send_with_guest_cache, pending_candidate, revalidate_in_background,
}
use compute_sdk_go.Send.Weights.{total, AtMost, to_backend, closing}
use compute_sdk_go.Send.Handles.{is_done}
use compute_sdk_go.Send.Accounting.{
  Accounted, send_with_guest_cache-Accounted, send_with_guest_cache-once,
  revalidate_in_background-closing,
}

abbrev host : Host ℕ
host = record {
  prepare_response_for_storage = λ r. ok (insert, r);
  suggested_cache_options = λ r. ok zero_abi;
  get_state = ok 0;
  get_header_value = λ r name. ok [];
  get_header_values = λ r name. ok [];
  set_header_values = λ r name vals. ok r;
  remove_header = λ r name. ok r;
  set_status_code = λ r code. ok code;
  get_status_code = λ r. ok r;
}

abbrev fresh_handle : Handle
fresh_handle = record {
  found_response = ok tt;
  hits = ok 3;
  max_age_ns = ok (60 * second);
  vary_rule = ok [];
  age_ns = ok second;
  stale_while_revalidate_ns = ok 0;
  surrogate_keys = ok [];
  object_length = err (GoError.fastly status_none);
  sensitive_data = ok false;
  stale_if_error_ns = ok 0;
  new_response = ok [];
}

abbrev empty_handle : Handle
empty_handle = record fresh_handle { found_response = err (GoError.fastly status_none) }

abbrev response : Response
response = record {
  cache_response = record { options = over zero_abi; storage_action = insert; hits = 0 };
  header = [];
  masked_error = none;
}

abbrev defaults : CacheOptions
defaults = record {
  pci = false;
  ttl = 0;
  stale_while_revalidate = 0;
  stale_if_error = 0;
  surrogate_key = [];
}

-- A fresh response in the cache.
abbrev hit : SendAnswers ℕ
hit = record {
  cacheable = ok true;
  sent = ok 200;
  new_response = λ r. ok response;
  looked_up = ok tt;
  state = ok 3;
  handle = fresh_handle;
  stale_handle = empty_handle;
  suggested = ok tt;
  before_send = none;
  options_set = ok tt;
  sent_async = ok tt;
  arrived = ok (200, opaque_body);
  after_send = none;
  stored = record {
    transaction = ok tt;
    copy = ok tt;
    append = ok tt;
    found = ok (some response);
    fresh_response = ok response;
  };
}

-- No response in the cache, and a backend that fails.
abbrev broken : SendAnswers ℕ
broken = record hit { state = ok 8; handle = empty_handle; arrived = err (GoError.plain "refused") }

broken_fails :
    (send_with_guest_cache host broken defaults [] []).1 ≡ failed (GoError.plain "refused")
unfolding send_with_guest_cache get_found_response is_fastly_error has
broken_fails = refl

send_with_guest_cache-Accounted_example :
    Accounted broken.looked_up (send_with_guest_cache host broken defaults [] [])
send_with_guest_cache-Accounted_example = send_with_guest_cache-Accounted host broken defaults [] []

send_with_guest_cache-once_example :
    AtMost to_backend 1 (send_with_guest_cache host broken defaults [] [])
send_with_guest_cache-once_example = send_with_guest_cache-once host broken defaults [] []

revalidate_in_background-closing_example :
    total closing (revalidate_in_background host broken defaults [] defaults).0
    ≡ (if is_done (pending_candidate host broken defaults [] defaults).1 then 1 else 0)
revalidate_in_background-closing_example =
    revalidate_in_background-closing host broken defaults [] defaults

abbrev request : Request
request = record {
  method = codes "GET";
  has_image_options = false;
  pass = false;
  has_before_send = true;
  has_after_send = false;
}

abbrev cached : Response
cached = record response {
  cache_response = record {
    options = flush_to_abi (record (over zero_abi) { max_age = 60; age = 1 });
    storage_action = invalid_action;
    hits = 3;
  };
}

found_cached : get_found_response fresh_handle true ≡ ok (some cached)
unfolding get_found_response is_fastly_error u64ns_to_u32s
found_cached = refl
