-- ===== src/Send/Dispatch.antt =====
-- fsthttp/request.go: `Send`, with `constructABIRequest` and `setABIRequestOptions`, as a run on the
-- fields of the request that it changes. What the host answers is a parameter; so are the runs of
-- `sendWithGuestCache`, which is one call here, and of `pendingToABIResponse`.
pub mod Quiet
pub mod Once
pub mod Again
mod Tests
use compute_sdk_go.Common.{
  ℕ, ◌+◌, ◌-◌, ◌/◌, ◌%◌, Bool, true, false, not, ◌&&◌, ◌||◌, List, [], ◌∷◌, ◌++◌, Option, none,
  some, ltb, ◌==◌, if◌then◌else◌, Bytes, codes, hex_key, is_empty, length,
}
use Prim.Native.String.{String}
use compute_sdk_go.Abi.Status.{status_inval}
use compute_sdk_go.Abi.Errors.{GoError, Result, ok, err, annotate, has_status, plain, wrap}
use compute_sdk_go.Header.{Header, keys, values}
use compute_sdk_go.HttpCache.Run.{Run, Outcome, done, failed, panics}

-- `CacheOverrideOptions`
pub record CacheOverride : Type 0 where
  pub pass : Bool
  pub pci : Bool
  pub ttl : ℕ
  pub stale_while_revalidate : ℕ
  pub surrogate_key : Bytes

-- The fields of `Request` that `Send` reads. `image_query` is the answer of `QueryString`, where the
-- request has options for the image optimizer. `has_size` is true of the bodies that are not
-- streamed, `is_abi` of those that come from the host.
pub record Request : Type 0 where
  pub header : Header
  pub cache : CacheOverride
  pub override_key : Bytes
  pub decompress_gzip : Bool
  pub manual_framing_mode : Bool
  pub image_query : Option (Result Bytes)
  pub has_size : Bool
  pub is_abi : Bool

-- The fields that it changes: `abi.req`, `abi.body` (are they there?) and `sent`.
pub record State : Type 0 where
  pub has_req : Bool
  pub has_body : Bool
  pub sent : Bool

pub data Call : Type 0 where
  new_request set_method set_uri new_body : Call
  set_decompress set_framing : Bool → Call
  set_cache_override : CacheOverride → Call
  set_header : Bytes → List Bytes → Call
  send_to_image_opto : Bytes → Call
  choose_cache send_with_guest_cache : Call
  -- with `streaming`
  send_async : Bool → Call
  poll : Call

pub record Answers (R : Type 0) : Type 0 where
  pub request_made : Result (Unit {0})
  pub method_set : Result (Unit {0})
  pub uri_set : Result (Unit {0})
  pub body_made : Result (Unit {0})
  pub decompress_set : Result (Unit {0})
  pub framing_set : Result (Unit {0})
  pub override_set : Result (Unit {0})
  pub header_set : Bytes → List Bytes → Result (Unit {0})
  -- `SendToImageOpto` and `newResponse`.
  pub image_sent : Result R
  pub use_guest : Result Bool
  pub guest_sent : Result R
  pub sent_async : Result (Unit {0})
  -- `newResponseFromABIPending`
  pub arrived : Result R

-- Code that may change the state.
abbrev pub Step : Type 0 → Type 0
Step A = State → Run Call A × State

-- What follows a run: more code where it is done.
abbrev pub goes_on : {A B : Type 0} → Run Call A → State → (A → Step B) → Run Call B × State
goes_on (calls, done a) s f = ((calls ++ (f a s).0.0, (f a s).0.1), (f a s).1)
goes_on (calls, failed e) s f = ((calls, failed e), s)
goes_on (calls, panics) s f = ((calls, panics), s)

infixl 5 ◌>>=◌ ◌>>◌
abbrev pub ◌>>=◌ : {A B : Type 0} → Step A → (A → Step B) → Step B
◌>>=◌ m f s = goes_on (m s).0 (m s).1 f

abbrev pub ◌>>◌ : {B : Type 0} → Step (Unit {0}) → Step B → Step B
m >> k = m >>= λ _. k

abbrev pub returns : {A : Type 0} → A → Step A
returns a s = (([], done a), s)

abbrev pub fails : {A : Type 0} → GoError → Step A
fails e s = (([], failed e), s)

abbrev pub outcome : {A : Type 0} → Result A → Outcome A
outcome (ok a) = done a
outcome (err e) = failed e

abbrev pub call : {A : Type 0} → Call → String → Result A → Step A
call c context r s = ((c ∷ [], outcome (annotate context r)), s)

-- A step that changes no state and has no result: a host call with the context of its error, or an
-- error of the code itself.
pub data Attempt : Type 0 where
  tries : Call → String → Result (Unit {0}) → Attempt
  refuses : GoError → Attempt

-- `if err := …; err != nil { return … }`, one after the other.
unfoldable pub attempts : List Attempt → Run Call (Unit {0})
attempts [] = ([], done tt)
attempts (refuses e ∷ more) = ([], failed e)
attempts (tries c context (err e) ∷ more) = (c ∷ [], failed (wrap context e))
attempts (tries c context (ok _) ∷ more) = (c ∷ (attempts more).0, (attempts more).1)

-- A run with the state behind it: `t` where it is done, else `s`.
abbrev pub keep_if_done : Run Call (Unit {0}) → State → State → Run Call (Unit {0}) × State
keep_if_done (calls, done a) s t = ((calls, done a), t)
keep_if_done (calls, failed e) s t = ((calls, failed e), s)
keep_if_done (calls, panics) s t = ((calls, panics), s)

abbrev pub err_backend_not_found : GoError
err_backend_not_found = plain "backend not found"

abbrev pub begin_error : GoError → GoError
begin_error e = if has_status status_inval e then err_backend_not_found else wrap "begin send" e

module _ {R : Type 0} (a : Answers R) (r : Request) where
  abbrev pub request_attempts : List Attempt
  request_attempts =
      tries new_request "construct request" a.request_made
      ∷ tries set_method "set method" a.method_set
      ∷ tries set_uri "set URL" a.uri_set
      ∷ []

  abbrev pub body_attempts : List Attempt
  body_attempts = if r.is_abi then [] else tries new_body "get body" a.body_made ∷ []

  abbrev pub make_request : Step (Unit {0})
  make_request s =
      if s.has_req
      then returns tt s
      else keep_if_done (attempts request_attempts) s (record s { has_req = true })

  abbrev pub make_body : Step (Unit {0})
  make_body s =
      if s.has_body
      then returns tt s
      else keep_if_done (attempts body_attempts) s (record s { has_body = true })

  unfoldable pub construct_abi_request : Step (Unit {0})
  unfolding attempts
  construct_abi_request = make_request >> make_body

  abbrev pub header_attempts : List Bytes → List Attempt
  header_attempts [] = []
  header_attempts (k ∷ ks) =
      tries (set_header k (values k r.header)) "set headers" (a.header_set k (values k r.header))
      ∷ header_attempts ks

  abbrev pub key_attempts : List Attempt
  key_attempts =
      if is_empty r.override_key
      then []
      else if not (length r.override_key == 32)
      then refuses (plain "bad length for OverrideKey") ∷ []
      else (let name = codes "fastly-xqd-cache-key" in
          let vals = hex_key r.override_key ∷ [] in
          tries (set_header name vals) "set headers cache-key" (a.header_set name vals) ∷ [])

  abbrev pub option_attempts : List Attempt
  option_attempts =
      tries (set_decompress r.decompress_gzip) "set auto decompress response" a.decompress_set
        ∷ tries (set_framing r.manual_framing_mode) "set framing headers mode" a.framing_set
        ∷ tries (set_cache_override r.cache) "set cache options" a.override_set
        ∷ header_attempts (keys r.header)
      ++ key_attempts

  abbrev pub set_abi_request_options : Step (Unit {0})
  set_abi_request_options s = (attempts option_attempts, s)

  unfoldable pub prepare : Step (Unit {0})
  unfolding construct_abi_request attempts values
  prepare s =
      if not s.has_req && not s.has_body
      then (construct_abi_request >> set_abi_request_options) s
      else returns tt s

  abbrev pub send_image : Result Bytes → Step R
  send_image (err e) = fails (wrap "send to image optimizer" e)
  send_image (ok query) = call (send_to_image_opto query) "send to image optimizer" a.image_sent

  abbrev pub begun : Result (Unit {0}) → Outcome (Unit {0})
  begun (ok _) = done tt
  begun (err e) = failed (begin_error e)

  -- The part behind the choice of the cache in the host.
  abbrev pub begin_send : Step (Unit {0})
  begin_send s = ((send_async (not r.has_size) ∷ [], begun a.sent_async), record s { sent = true })

  abbrev pub wait_for_response : Step R
  wait_for_response s = ((poll ∷ [], outcome a.arrived), s)

  unfoldable pub send_to_host : Step R
  send_to_host = begin_send >> wait_for_response

  abbrev pub send_chosen : Bool → Step R
  send_chosen true = call send_with_guest_cache "send with guest cache" a.guest_sent
  send_chosen false = send_to_host

  abbrev pub choose : Step Bool
  choose s = ((choose_cache ∷ [], outcome a.use_guest), s)

  abbrev pub send_prepared : Option (Result Bytes) → Step R
  send_prepared (some query) = send_image query
  send_prepared none = choose >>= send_chosen

  unfoldable pub send : Step R
  unfolding prepare send_to_host
  send s =
      if s.sent
      then (([], failed (plain "request already sent")), s)
      else (prepare >> send_prepared r.image_query) s
