-- ===== src/HttpCache/Options.antt =====
-- fsthttp/cache.go: `cacheWriteOptions`, and the host's record of options with its mask
-- (internal/abi/fastly/httpcache_guest.go). A field with a mask bit is an `Option`.
use compute_sdk_go.Common.{ℕ, Bool, true, false, [], Option, none, some, Bytes}
use compute_sdk_go.HttpCache.Seconds.{u64ns_to_u32s, u32s_to_u64ns}

-- `HTTPCacheWriteOptions`
pub record AbiWriteOptions : Type 0 where
  pub max_age_ns : ℕ
  pub vary_rule : Option Bytes
  pub initial_age_ns : Option ℕ
  pub stale_while_revalidate_ns : Option ℕ
  pub surrogate_keys : Option Bytes
  pub object_length : Option ℕ
  pub sensitive_data : Bool
  pub stale_if_error_ns : Option ℕ

pub record WriteOptions : Type 0 where
  pub max_age : ℕ
  pub vary : Bytes
  pub use_vary : Bool
  pub age : ℕ
  pub stale_while_revalidate : ℕ
  pub surrogate : Bytes
  pub body_length : ℕ
  pub use_length : Bool
  pub sensitive : Bool
  pub stale_if_error : ℕ
  pub abi_opts : AbiWriteOptions

abbrev pub zero_abi : AbiWriteOptions
zero_abi = record {
  max_age_ns = 0;
  vary_rule = none;
  initial_age_ns = none;
  stale_while_revalidate_ns = none;
  surrogate_keys = none;
  object_length = none;
  sensitive_data = false;
  stale_if_error_ns = none;
}

-- The options over a host record, all else zero.
abbrev pub over : AbiWriteOptions → WriteOptions
over abi = record {
  max_age = 0;
  vary = [];
  use_vary = false;
  age = 0;
  stale_while_revalidate = 0;
  surrogate = [];
  body_length = 0;
  use_length = false;
  sensitive = false;
  stale_if_error = 0;
  abi_opts = abi;
}

unfoldable pub flush_to_abi : WriteOptions → WriteOptions
flush_to_abi opts = record opts {
  abi_opts = record (opts.abi_opts) {
    max_age_ns = u32s_to_u64ns opts.max_age;
    vary_rule = some opts.vary;
    initial_age_ns = some (u32s_to_u64ns opts.age);
    stale_while_revalidate_ns = some (u32s_to_u64ns opts.stale_while_revalidate);
    surrogate_keys = some opts.surrogate;
    sensitive_data = opts.sensitive;
    stale_if_error_ns = some (u32s_to_u64ns opts.stale_if_error);
  };
}

-- `if ns, ok := …; ok { field = u64nsTou32s(ns) }`
abbrev pub seconds_or : ℕ → Option ℕ → ℕ
seconds_or old none = old
seconds_or old (some ns) = u64ns_to_u32s ns

abbrev pub text_of : Option Bytes → Bytes
text_of none = []
text_of (some s) = s

abbrev pub number_of : Option ℕ → ℕ
number_of none = 0
number_of (some n) = n

abbrev pub is_set {ℓ} : {A : Type ℓ} → Option A → Bool
is_set none = false
is_set (some _) = true

-- A length that the mask leaves out is read as 0.
unfoldable pub load_from_abi : WriteOptions → WriteOptions
load_from_abi opts =
    let abi = opts.abi_opts in
    record opts {
      max_age = u64ns_to_u32s abi.max_age_ns;
      vary = text_of abi.vary_rule;
      use_vary = is_set abi.vary_rule;
      age = seconds_or opts.age abi.initial_age_ns;
      stale_while_revalidate = seconds_or opts.stale_while_revalidate abi.stale_while_revalidate_ns;
      surrogate = text_of abi.surrogate_keys;
      body_length = number_of abi.object_length;
      use_length = is_set abi.object_length;
      sensitive = abi.sensitive_data;
      stale_if_error = seconds_or opts.stale_if_error abi.stale_if_error_ns;
    }
