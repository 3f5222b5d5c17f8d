-- ===== src/Message/Meta.antt =====
-- fsthttp/request.go: `FastlyMeta`, which a request asks the host for once.
use Prim.Native.String.{String}
use compute_sdk_go.Common.{ℕ, Bool, false, Option, none, some, [], if◌then◌else◌, Bytes}
use compute_sdk_go.Abi.Errors.{GoError, Result, ok, err, annotate, ◌>>=◌, ignore_none_error}
use compute_sdk_go.Abi.Answers.{Answer, checked}

-- The answers of the host to the calls, which are made in the order of the fields.
pub record Downstream : Type 0 where
  pub request_id : Answer Bytes
  pub h2_fingerprint : Answer Bytes
  pub oh_fingerprint : Answer Bytes
  pub ddos_detected : Answer Bool
  pub fastly_key_is_valid : Answer Bool

pub record FastlyMeta : Type 0 where
  pub sandbox_id : Bytes
  pub request_id : Bytes
  pub h2 : Bytes
  pub oh : Bytes
  pub ddos_detected : Bool
  pub fastly_key_is_valid : Bool
  pub sandbox_requests : ℕ

-- The fields of a request that the method uses; the request of the host is there or not.
pub record MetaRequest : Type 0 where
  pub fastly_meta : Option FastlyMeta
  pub sandbox_requests : ℕ
  pub has_downstream : Bool

-- A request that does not come from a client.
unfoldable pub local_meta : Bytes → MetaRequest → FastlyMeta
local_meta trace_id r = record {
  sandbox_id = trace_id;
  request_id = [];
  h2 = [];
  oh = [];
  ddos_detected = false;
  fastly_key_is_valid = false;
  sandbox_requests = r.sandbox_requests;
}

-- A call with a text for its error, which `ignore` lets go or keeps.
abbrev pub ask {ℓ} :
    {A : Type ℓ} → String → (Option GoError → Option GoError) → A → Answer A → Result A
ask context ignore zero_value a = annotate context (checked ignore zero_value (λ v. v) a)

unfoldable pub client_meta : Bytes → Downstream → MetaRequest → Result FastlyMeta
client_meta trace_id d r = ask "get request ID" (λ e. e) [] d.request_id >>= λ id.
    ask "get H2 fingerprint" ignore_none_error [] d.h2_fingerprint >>= λ h2.
    ask "get OH fingerprint" ignore_none_error [] d.oh_fingerprint >>= λ oh.
    ask "get ddos detected" (λ e. e) false d.ddos_detected >>= λ ddos.
    ask "get fastly key is valid" (λ e. e) false d.fastly_key_is_valid >>= λ key_is_valid.
    ok (record {
      sandbox_id = trace_id;
      request_id = id;
      h2 = h2;
      oh = oh;
      ddos_detected = ddos;
      fastly_key_is_valid = key_is_valid;
      sandbox_requests = r.sandbox_requests;
    })

-- `req.fastlyMeta = fastlyMeta`, unless there was an error.
abbrev pub remember : MetaRequest → Result FastlyMeta → MetaRequest × Result FastlyMeta
remember r (ok m) = (record r { fastly_meta = some m }, ok m)
remember r (err e) = (r, err e)

-- `FastlyMeta`, with the variable FASTLY_TRACE_ID of the environment.
unfoldable pub fastly_meta : Bytes → Downstream → MetaRequest → MetaRequest × Result FastlyMeta
fastly_meta trace_id d r = elim r.fastly_meta [
  | some m ↦ (r, ok m)
  | none ↦
      remember r (if r.has_downstream then client_meta trace_id d r else ok (local_meta trace_id r))
]
