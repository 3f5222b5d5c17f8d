-- ===== src/Backend/Said.antt =====
-- What the calls of `BackendOptions` ask for, each on its own: the fields that it sets, if it is not
-- refused, and the last word on each field in a run of calls.
use compute_sdk_go.Common.{
  ℕ, zero, suc, not, Bool, true, false, List, [], ◌∷◌, Option, none, some, if◌then◌else◌, Bytes,
  is_empty, leb, ltb, ◌*◌, ◌^◌,
}
use compute_sdk_go.Common.Int.{ℤ, pos, negsuc}
use compute_sdk_go.Backend.Options.{
  Config, u32_milliseconds, Op, host_override, connect_timeout, first_byte_timeout,
  between_bytes_timeout, use_ssl, ssl_min_version, ssl_max_version, cert_hostname, ca_cert, ciphers,
  sni_hostname, client_certificate, pool_connections, http_keepalive_time, tcp_keepalive_enable,
  tcp_keepalive_interval, tcp_keepalive_probes, tcp_keepalive_time, use_grpc,
}

-- Longer than 2^32 milliseconds.
abbrev pub is_over_limit : ℤ → Bool
is_over_limit (pos n) = ltb (2 ^ 32 * 1_000_000) n
is_over_limit (negsuc n) = false

-- A second, or the duration if it is not below that.
abbrev pub raised : ℤ → ℤ
raised (pos n) = pos (if leb 1_000_000_000 n then n else 1_000_000_000)
raised (negsuc n) = pos 1_000_000_000

-- The calls that are refused: a duration that is too large, or a text that is empty.
abbrev pub is_refused : Op → Bool
is_refused (connect_timeout t) = is_over_limit t
is_refused (first_byte_timeout t) = is_over_limit t
is_refused (between_bytes_timeout t) = is_over_limit t
is_refused (http_keepalive_time t) = is_over_limit t
is_refused (tcp_keepalive_time t) = is_over_limit t
is_refused (cert_hostname s) = is_empty s
is_refused (ca_cert s) = is_empty s
is_refused (ciphers s) = is_empty s
is_refused (sni_hostname s) = is_empty s
is_refused (client_certificate s key) = is_empty s
is_refused _ = false

abbrev pub number_refused : List Op → ℕ
number_refused [] = 0
number_refused (o ∷ os) = let rest = number_refused os in if is_refused o then suc rest else rest

-- What a call says of the fields of the configuration; `none` where it says nothing.
pub record Said : Type 0 where
  pub host_override : Option (Option Bytes)
  pub connect_timeout_ms : Option (Option ℕ)
  pub first_byte_timeout : Option (Option ℕ)
  pub between_bytes_timeout : Option (Option ℕ)
  pub use_ssl : Option Bool
  pub ssl_min_version : Option (Option ℕ)
  pub ssl_max_version : Option (Option ℕ)
  pub cert_hostname : Option (Option Bytes)
  pub ca_cert : Option (Option Bytes)
  pub ciphers : Option (Option Bytes)
  pub sni_hostname : Option (Option Bytes)
  pub dont_pool : Option Bool
  pub client_cert : Option (Option (Bytes × ℕ))
  pub grpc : Option Bool
  pub keepalive : Option Bool
  pub http_keepalive_time_ms : Option ℕ
  pub tcp_keepalive_enable : Option ℕ
  pub tcp_keepalive_interval_secs : Option ℕ
  pub tcp_keepalive_probes : Option ℕ
  pub tcp_keepalive_time_secs : Option ℕ

abbrev pub nothing : Said
nothing = record {
  host_override = none;
  connect_timeout_ms = none;
  first_byte_timeout = none;
  between_bytes_timeout = none;
  use_ssl = none;
  ssl_min_version = none;
  ssl_max_version = none;
  cert_hostname = none;
  ca_cert = none;
  ciphers = none;
  sni_hostname = none;
  dont_pool = none;
  client_cert = none;
  grpc = none;
  keepalive = none;
  http_keepalive_time_ms = none;
  tcp_keepalive_enable = none;
  tcp_keepalive_interval_secs = none;
  tcp_keepalive_probes = none;
  tcp_keepalive_time_secs = none;
}

-- An option of TLS also says that TLS is used, and one of the keepalives of TCP that these are on, but
-- for a number of 0 probes, which says nothing. An interval below a second counts as a second.
abbrev pub said : (ℤ → ℕ) → Op → Said
said secs (host_override s) = record nothing { host_override = some (some s) }
said secs (connect_timeout t) = record nothing {
  connect_timeout_ms = some (some (u32_milliseconds t));
}
said secs (first_byte_timeout t) = record nothing {
  first_byte_timeout = some (some (u32_milliseconds t));
}
said secs (between_bytes_timeout t) = record nothing {
  between_bytes_timeout = some (some (u32_milliseconds t));
}
said secs (use_ssl v) = record nothing { use_ssl = some v }
said secs (ssl_min_version v) = record nothing {
  use_ssl = some true;
  ssl_min_version = some (some v);
}
said secs (ssl_max_version v) = record nothing {
  use_ssl = some true;
  ssl_max_version = some (some v);
}
said secs (cert_hostname s) = record nothing { use_ssl = some true; cert_hostname = some (some s) }
said secs (ca_cert s) = record nothing { use_ssl = some true; ca_cert = some (some s) }
said secs (ciphers s) = record nothing { use_ssl = some true; ciphers = some (some s) }
said secs (sni_hostname s) = record nothing { use_ssl = some true; sni_hostname = some (some s) }
said secs (client_certificate s key) = record nothing {
  use_ssl = some true;
  client_cert = some (some (s, key));
}
said secs (pool_connections on) = record nothing { dont_pool = some (not on) }
said secs (http_keepalive_time t) = record nothing {
  keepalive = some true;
  http_keepalive_time_ms = some (u32_milliseconds t);
}
said secs (tcp_keepalive_enable v) = record nothing {
  keepalive = some true;
  tcp_keepalive_enable = some (if v then 1 else 0);
}
said secs (tcp_keepalive_interval t) = record nothing {
  keepalive = some true;
  tcp_keepalive_enable = some 1;
  tcp_keepalive_interval_secs = some (secs (raised t));
}
said secs (tcp_keepalive_probes zero) = nothing
said secs (tcp_keepalive_probes (suc n)) = record nothing {
  keepalive = some true;
  tcp_keepalive_enable = some 1;
  tcp_keepalive_probes = some (suc n);
}
said secs (tcp_keepalive_time t) = record nothing {
  keepalive = some true;
  tcp_keepalive_enable = some 1;
  tcp_keepalive_time_secs = some (secs t);
}
said secs (use_grpc v) = record nothing { grpc = some v }

-- A call that is refused says nothing.
abbrev pub heard : (ℤ → ℕ) → Op → Said
heard secs o = if is_refused o then nothing else said secs o

abbrev pub or_else {ℓ} : {A : Type ℓ} → A → Option A → A
or_else d none = d
or_else d (some a) = a

-- The last word on a question among calls, and `d` where none says anything of it.
abbrev pub last_said {ℓ} : {A : Type ℓ} → (Op → Option A) → List Op → A → A
last_said says [] d = d
last_said says (o ∷ os) d = last_said says os (or_else d (says o))

-- The configuration with the last word on each field.
abbrev pub configured : (ℤ → ℕ) → List Op → Config → Config
configured secs os c = record {
  host_override = last_said (λ o. (heard secs o).host_override) os c.host_override;
  connect_timeout_ms = last_said (λ o. (heard secs o).connect_timeout_ms) os c.connect_timeout_ms;
  first_byte_timeout = last_said (λ o. (heard secs o).first_byte_timeout) os c.first_byte_timeout;
  between_bytes_timeout =
      last_said (λ o. (heard secs o).between_bytes_timeout) os c.between_bytes_timeout;
  use_ssl = last_said (λ o. (heard secs o).use_ssl) os c.use_ssl;
  ssl_min_version = last_said (λ o. (heard secs o).ssl_min_version) os c.ssl_min_version;
  ssl_max_version = last_said (λ o. (heard secs o).ssl_max_version) os c.ssl_max_version;
  cert_hostname = last_said (λ o. (heard secs o).cert_hostname) os c.cert_hostname;
  ca_cert = last_said (λ o. (heard secs o).ca_cert) os c.ca_cert;
  ciphers = last_said (λ o. (heard secs o).ciphers) os c.ciphers;
  sni_hostname = last_said (λ o. (heard secs o).sni_hostname) os c.sni_hostname;
  dont_pool = last_said (λ o. (heard secs o).dont_pool) os c.dont_pool;
  client_cert = last_said (λ o. (heard secs o).client_cert) os c.client_cert;
  grpc = last_said (λ o. (heard secs o).grpc) os c.grpc;
  keepalive = last_said (λ o. (heard secs o).keepalive) os c.keepalive;
  http_keepalive_time_ms =
      last_said (λ o. (heard secs o).http_keepalive_time_ms) os c.http_keepalive_time_ms;
  tcp_keepalive_enable =
      last_said (λ o. (heard secs o).tcp_keepalive_enable) os c.tcp_keepalive_enable;
  tcp_keepalive_interval_secs =
      last_said (λ o. (heard secs o).tcp_keepalive_interval_secs) os c.tcp_keepalive_interval_secs;
  tcp_keepalive_probes =
      last_said (λ o. (heard secs o).tcp_keepalive_probes) os c.tcp_keepalive_probes;
  tcp_keepalive_time_secs =
      last_said (λ o. (heard secs o).tcp_keepalive_time_secs) os c.tcp_keepalive_time_secs;
}
