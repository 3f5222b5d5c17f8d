-- ===== src/Send/Choice.antt =====
-- fsthttp/request.go: `shouldUseGuestCaching`, which decides between the cache in the guest and the
-- cache of the host. What `HTTPCacheIsRequestCacheable` answers is a parameter.
use compute_sdk_go.Common.{
  ◌≡◌, ◌↔◌, Bool, true, false, not, ◌||◌, arith, if◌then◌else◌, Bytes, codes, same,
}
use compute_sdk_go.Abi.Status.{status_unsupported}
use compute_sdk_go.Abi.Errors.{GoError, Result, ok, err, has_status}

-- The fields of `Request` that the decision reads.
pub record Request : Type 0 where
  pub method : Bytes
  pub has_image_options : Bool
  pub pass : Bool
  pub has_before_send : Bool
  pub has_after_send : Bool

-- `ErrCachingNotSupported`
abbrev pub caching_not_supported : GoError
caching_not_supported = GoError.plain "fsthttp: caching not supported"

unfoldable pub must_use_guest_caching : Request → Bool
must_use_guest_caching r = r.has_before_send || r.has_after_send

-- The answer, and the value of `useGuestCaching` after the call.
abbrev pub Choice : Type 0
Choice = Result Bool × Bool

abbrev refuse_hooks : Request → Bool → Choice
refuse_hooks r flag =
    if must_use_guest_caching r then (err caching_not_supported, flag) else (ok false, flag)

abbrev choose : Request → Result Bool → Choice
choose r (ok true) = (ok true, true)
choose r (ok false) = refuse_hooks r true
choose r (err e) = if has_status status_unsupported e then (ok false, false) else (err e, true)

unfoldable pub should_use_guest_caching : Bool → Request → Result Bool → Choice
unfolding must_use_guest_caching
should_use_guest_caching flag r cacheable =
    if not flag
    then refuse_hooks r false
    else if r.pass
    then (ok false, true)
    else if same r.method (codes "PURGE")
    then (ok false, true)
    else if r.has_image_options
    then (ok false, true)
    else choose r cacheable

-- A request goes through the cache in the guest only if that is switched on, the request neither
-- passes the cache, purges nor goes to the image optimizer, and the host says that it is cacheable;
-- and then it does.
pub should_use_guest_caching_lem :
    (flag : Bool) (r : Request) (cacheable : Result Bool)
    → ((should_use_guest_caching flag r cacheable).0 ≡ ok true) ↔ (
        (flag ≡ true)
        × (r.pass ≡ false)
        × (same r.method (codes "PURGE") ≡ false)
        × (r.has_image_options ≡ false)
        × (cacheable ≡ ok true))
unfolding should_use_guest_caching must_use_guest_caching
should_use_guest_caching_lem flag r cacheable = ground arith

-- Where the host does not support the calls, the first request with hooks is sent without the cache
-- in the guest and without an error, so that the hooks are dropped; the call switches that cache
-- off, and the same request is refused from then on.
pub hooks_dropped_once :
    (r : Request) (e : GoError) (later : Result Bool)
    → r.pass ≡ false
    → same r.method (codes "PURGE") ≡ false
    → r.has_image_options ≡ false
    → must_use_guest_caching r ≡ true
    → has_status status_unsupported e ≡ true
    → (should_use_guest_caching true r (err e) ≡ (ok false, false))
      × (should_use_guest_caching false r later ≡ (err caching_not_supported, false))
unfolding should_use_guest_caching
hooks_dropped_once r e later p m i h s = (ground arith, ground arith)
