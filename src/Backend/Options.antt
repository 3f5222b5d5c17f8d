-- ===== src/Backend/Options.antt =====
-- fsthttp/backend.go: the methods of `BackendOptions`; internal/abi/fastly/types.go: those of
-- `BackendConfigOptions`, which they call.
use compute_sdk_go.Common.{
  ℕ, ◌+◌, ◌-◌, ◌*◌, ◌/◌, ◌%◌, ◌^◌, Bool, true, false, not, List, [], ◌∷◌, ◌++◌, Option, none, some,
  ltb, if◌then◌else◌, Bytes, is_empty,
}
use Prim.Native.String.{String}
use compute_sdk_go.Common.Int.{ℤ, pos, negsuc}

-- `BackendConfigOptions`. The five numbers of the end stand under the one bit `keepalive`.
pub record Config : Type 0 where
  pub host_override : Option Bytes
  pub connect_timeout_ms : Option ℕ
  pub first_byte_timeout : Option ℕ
  pub between_bytes_timeout : Option ℕ
  pub use_ssl : Bool
  pub ssl_min_version : Option ℕ
  pub ssl_max_version : Option ℕ
  pub cert_hostname : Option Bytes
  pub ca_cert : Option Bytes
  pub ciphers : Option Bytes
  pub sni_hostname : Option Bytes
  pub dont_pool : Bool
  -- with the handle of the secret
  pub client_cert : Option (Bytes × ℕ)
  pub grpc : Bool
  pub keepalive : Bool
  pub http_keepalive_time_ms : ℕ
  pub tcp_keepalive_enable : ℕ
  pub tcp_keepalive_interval_secs : ℕ
  pub tcp_keepalive_probes : ℕ
  pub tcp_keepalive_time_secs : ℕ

abbrev pub empty_config : Config
empty_config = record {
  host_override = none;
  connect_timeout_ms = none;
  first_byte_timeout = none;
  between_bytes_timeout = none;
  use_ssl = false;
  ssl_min_version = none;
  ssl_max_version = none;
  cert_hostname = none;
  ca_cert = none;
  ciphers = none;
  sni_hostname = none;
  dont_pool = false;
  client_cert = none;
  grpc = false;
  keepalive = false;
  http_keepalive_time_ms = 0;
  tcp_keepalive_enable = 0;
  tcp_keepalive_interval_secs = 0;
  tcp_keepalive_probes = 0;
  tcp_keepalive_time_secs = 0;
}

-- A duration is a number of nanoseconds.
abbrev pub millisecond : ℕ
millisecond = 1_000_000

abbrev pub second : ℕ
second = 1_000_000_000

-- `prim.U32(t.Milliseconds())`: the quotient is rounded towards zero, and then cut to 32 bits.
abbrev pub u32_milliseconds : ℤ → ℕ
u32_milliseconds (pos n) = n / millisecond % 2 ^ 32
u32_milliseconds (negsuc n) = (2 ^ 32 - (n + 1) / millisecond % 2 ^ 32) % 2 ^ 32

-- `maxBackendTimeout`
abbrev pub max_backend_timeout : ℕ
max_backend_timeout = 2 ^ 32 * millisecond

-- `t > maxBackendTimeout`
abbrev pub too_large : ℤ → Bool
too_large (pos n) = ltb max_backend_timeout n
too_large (negsuc n) = false

-- `backendValidationError`
pub record ValidationError : Type 0 where
  pub field : String
  pub reason : String

-- `BackendOptions`
pub record BackendOptions : Type 0 where
  pub abi_opts : Config
  pub errs : List ValidationError

abbrev pub new_backend_options : BackendOptions
new_backend_options = record { abi_opts = empty_config; errs = [] }

-- The calls of the builder.
pub data Op : Type 0 where
  host_override : Bytes → Op
  connect_timeout first_byte_timeout between_bytes_timeout : ℤ → Op
  use_ssl : Bool → Op
  ssl_min_version ssl_max_version : ℕ → Op
  cert_hostname ca_cert ciphers sni_hostname : Bytes → Op
  client_certificate : Bytes → ℕ → Op
  pool_connections : Bool → Op
  http_keepalive_time : ℤ → Op
  tcp_keepalive_enable : Bool → Op
  tcp_keepalive_interval : ℤ → Op
  tcp_keepalive_probes : ℕ → Op
  tcp_keepalive_time : ℤ → Op
  use_grpc : Bool → Op

abbrev pub with_config : (Config → Config) → BackendOptions → BackendOptions
with_config f b = record b { abi_opts = f b.abi_opts }

abbrev pub refuse : String → String → BackendOptions → BackendOptions
refuse field reason b = record b {
  errs = b.errs ++ (record { field = field; reason = reason }) ∷ [];
}

unfoldable pub unless_large : String → ℤ → (Config → Config) → BackendOptions → BackendOptions
unless_large field t f b = if too_large t then refuse field "too large" b else with_config f b

-- An option that needs a text, and switches TLS on.
unfoldable pub unless_blank : String → Bytes → (Config → Config) → BackendOptions → BackendOptions
unless_blank field s f b =
    if is_empty s
    then refuse field "field cannot be blank" b
    else with_config (λ c. f (record c { use_ssl = true })) b

-- `interval < time.Second`
abbrev pub at_least_second : ℤ → ℤ
at_least_second (pos n) = if ltb n second then pos second else pos n
at_least_second (negsuc n) = pos second

-- `u32_seconds` is `prim.U32(t.Seconds())`, which goes by a floating-point number.
module _ (u32_seconds : ℤ → ℕ) where
  unfoldable pub apply : Op → BackendOptions → BackendOptions
  apply (host_override host) b = with_config (λ c. record c { host_override = some host }) b
  apply (connect_timeout t) b =
      unless_large "ConnectTimeout" t
        (λ c. record c { connect_timeout_ms = some (u32_milliseconds t) }) b
  apply (first_byte_timeout t) b =
      unless_large "FirstByteTimeout" t
        (λ c. record c { first_byte_timeout = some (u32_milliseconds t) }) b
  apply (between_bytes_timeout t) b =
      unless_large "BetweenBytesTimeout" t
        (λ c. record c { between_bytes_timeout = some (u32_milliseconds t) }) b
  apply (use_ssl v) b = with_config (λ c. record c { use_ssl = v }) b
  apply (ssl_min_version v) b =
      with_config (λ c. record c { use_ssl = true; ssl_min_version = some v }) b
  apply (ssl_max_version v) b =
      with_config (λ c. record c { use_ssl = true; ssl_max_version = some v }) b
  apply (cert_hostname host) b =
      unless_blank "CertHostname" host (λ c. record c { cert_hostname = some host }) b
  apply (ca_cert cert) b = unless_blank "CACert" cert (λ c. record c { ca_cert = some cert }) b
  apply (ciphers names) b = unless_blank "Ciphers" names (λ c. record c { ciphers = some names }) b
  apply (sni_hostname host) b =
      unless_blank "SNIHostname" host (λ c. record c { sni_hostname = some host }) b
  apply (client_certificate cert key) b =
      unless_blank "ClientCertificate" cert (λ c. record c { client_cert = some (cert, key) }) b
  apply (pool_connections on) b = with_config (λ c. record c { dont_pool = not on }) b
  apply (http_keepalive_time t) b =
      unless_large "HTTPKeepaliveTime" t
        (λ c. record c { keepalive = true; http_keepalive_time_ms = u32_milliseconds t }) b
  apply (tcp_keepalive_enable v) b =
      with_config (λ c. record c { keepalive = true; tcp_keepalive_enable = if v then 1 else 0 }) b
  apply (tcp_keepalive_interval t) b =
      with_config
        (λ c. record c {
          keepalive = true;
          tcp_keepalive_enable = 1;
          tcp_keepalive_interval_secs = u32_seconds (at_least_second t);
        })
        b
  apply (tcp_keepalive_probes n) b =
      if ltb 0 n
      then with_config
          (λ c. record c { keepalive = true; tcp_keepalive_enable = 1; tcp_keepalive_probes = n }) b
      else b
  apply (tcp_keepalive_time t) b =
      unless_large "HTTPKeepaliveTime" t
        (λ c. record c {
          keepalive = true;
          tcp_keepalive_enable = 1;
          tcp_keepalive_time_secs = u32_seconds t;
        })
        b
  apply (use_grpc v) b = with_config (λ c. record c { grpc = v }) b

  unfoldable pub build : List Op → BackendOptions → BackendOptions
  unfolding apply
  build [] b = b
  build (o ∷ os) b = build os (apply o b)
