-- ===== src/Send/Dispatch/Tests.antt =====
-- fsthttp/request.go: tests of `Send`, of the polling and of the copy of the body, and the theorems
-- at concrete inputs. A response is a number.
use compute_sdk_go.Common.{
  ℕ, ◌+◌, ◌≤◌, ◌≡◌, refl, true, false, not, ◌&&◌, List, [], ◌∷◌, ◌++◌, none, some, codes, length,
}
use compute_sdk_go.Common.Int.{pos}
use compute_sdk_go.Abi.Errors.{ok, plain}
use compute_sdk_go.Cookie.Token.{is_token_rune}
use compute_sdk_go.HttpCache.Run.{failed}
use compute_sdk_go.Send.Poll.{
  BodyAnswers, copy_body, copy_body_reports, endings, abandons, is_some, Round, report, polled,
  pending_to_abi_response, pending_to_abi_response_first, sleeps_from, AllWithin,
}
use compute_sdk_go.Send.Dispatch.{
  choose_cache, send_async, poll, Request, Answers, attempts, option_attempts, send,
}
use compute_sdk_go.Send.Dispatch.Once.{one_if, send_each, sends-send_each}
use compute_sdk_go.Send.Dispatch.Quiet.{sends}
use compute_sdk_go.Send.Dispatch.Again.{fresh, send_again}

abbrev plain_request : Request
plain_request = record {
  header = (codes "Accept", codes "*/*" ∷ []) ∷ [];
  cache = record {
    pass = false;
    pci = false;
    ttl = 0;
    stale_while_revalidate = 0;
    surrogate_key = [];
  };
  override_key = [];
  decompress_gzip = false;
  manual_framing_mode = false;
  image_query = none;
  has_size = true;
  is_abi = false;
}

abbrev willing : Answers ℕ
willing = record {
  request_made = ok tt;
  method_set = ok tt;
  uri_set = ok tt;
  body_made = ok tt;
  decompress_set = ok tt;
  framing_set = ok tt;
  override_set = ok tt;
  header_set = λ k vs. ok tt;
  image_sent = ok 1;
  use_guest = ok false;
  guest_sent = ok 2;
  sent_async = ok tt;
  arrived = ok 3;
}

abbrev bad_key : Request
bad_key = record plain_request { override_key = codes "short" }

abbrev two_tries : List (Answers ℕ × Request)
two_tries = (willing, plain_request) ∷ (willing, plain_request) ∷ []

twice : (send_each two_tries fresh).1.sent ≡ true
unfolding send_each is_token_rune
twice = refl

sends-send_each_example :
    (sends (send_each two_tries fresh).0 + one_if fresh.sent
      ≡ one_if (send_each two_tries fresh).1.sent)
    × (sends (send_each two_tries fresh).0 ≤ 1)
sends-send_each_example = sends-send_each two_tries fresh

-- By way of the cache in the guest, a request can be sent again.
guest_twice :
    let guest = record willing { use_guest = ok true } in
    (send_each ((guest, plain_request) ∷ (guest, plain_request) ∷ []) fresh).1.sent ≡ false
unfolding send_each is_token_rune
guest_twice = refl

refused_key :
    (attempts (option_attempts willing bad_key)).1 ≡ failed (plain "bad length for OverrideKey")
unfolding attempts is_token_rune
refused_key = refl

send_again_example :
    ((send willing bad_key fresh).0.1 ≡ failed (plain "bad length for OverrideKey"))
    × ((send willing plain_request (send willing bad_key fresh).1).0.0
        ≡ choose_cache ∷ send_async false ∷ poll ∷ [])
unfolding attempts
send_again_example =
    send_again willing willing bad_key plain_request (plain "bad length for OverrideKey") refl refl
      refused_key refl refl refl

abbrev broken_copy : BodyAnswers
broken_copy = record {
  exists = true;
  is_abi = false;
  copied = some (plain "EOF");
  user_closed = none;
  abi_closed = none;
  abi_abandoned = none;
}

copy_body_reports_example :
    (length (copy_body broken_copy).1 ≡ length (copy_body broken_copy).0)
    × (length (copy_body broken_copy).1 ≤ 3)
    × (endings (copy_body broken_copy).0 ≡ 1)
    × (abandons (copy_body broken_copy).0 ≡ (true && not false && is_some (some (plain "EOF"))))
copy_body_reports_example = copy_body_reports broken_copy

abbrev rounds : List (Round ℕ)
rounds = polled (ok none) ∷ report none ∷ polled (ok none) ∷ []

pending_to_abi_response_first_example :
    (pending_to_abi_response (λ i. pos (3_000_000 + i)) 0 (rounds ++ polled (ok (some 7)) ∷ [])
      ≡ record { sleeps = sleeps_from (λ i. pos (3_000_000 + i)) 0 2; result = some (ok 7) })
    × AllWithin
        (pending_to_abi_response
          (λ i. pos (3_000_000 + i))
          0
          (rounds ++ polled (ok (some 7)) ∷ [])).sleeps
pending_to_abi_response_first_example =
    pending_to_abi_response_first (λ i. pos (3_000_000 + i)) rounds [] (polled (ok (some 7))) (ok 7)
      (refl, (refl, (refl, tt))) refl 0
