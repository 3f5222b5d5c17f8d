-- ===== src/Backend/Latest.antt =====
-- A run of the calls of `BackendOptions`, and what `RegisterDynamicBackend` does with its result.
use compute_sdk_go.Common.{
  ℕ, zero, suc, ◌+◌, ◌≡◌, ◌≢◌, refl, ap, sym, ◌∙◌, Bool, true, false, List, [], ◌∷◌, some, ltb,
  ◌==◌, if◌then◌else◌, Bytes, is_empty, arith, length, length-append,
}
use Prim.Native.String.{String}
use compute_sdk_go.Common.Int.{ℤ, pos, negsuc}
use compute_sdk_go.Abi.Status.{status_ok, status_error, status_unsupported}
use compute_sdk_go.Abi.Errors.{to_error, is_fastly_error}
use compute_sdk_go.Backend.Options.{
  Config, BackendOptions, ValidationError, new_backend_options, too_large, at_least_second, Op,
  host_override, connect_timeout, first_byte_timeout, between_bytes_timeout, use_ssl,
  ssl_min_version, ssl_max_version, refuse, with_config, unless_large, unless_blank, cert_hostname,
  ca_cert, ciphers, sni_hostname, client_certificate, pool_connections, http_keepalive_time,
  tcp_keepalive_enable, tcp_keepalive_interval, tcp_keepalive_probes, tcp_keepalive_time, use_grpc,
  apply, build,
}
use compute_sdk_go.Backend.Said.{
  Said, nothing, said, heard, or_else, is_refused, number_refused, is_over_limit, raised,
  configured,
}
use compute_sdk_go.Backend.Config.{
  Host, Outcome, failed, invalid, disallowed, name_in_use, unexpected, populated, new_backend,
  register_config, register_dynamic_backend,
}

-- The fields that one answer sets.
abbrev merged : Said → Config → Config
merged s c = record {
  host_override = or_else c.host_override s.host_override;
  connect_timeout_ms = or_else c.connect_timeout_ms s.connect_timeout_ms;
  first_byte_timeout = or_else c.first_byte_timeout s.first_byte_timeout;
  between_bytes_timeout = or_else c.between_bytes_timeout s.between_bytes_timeout;
  use_ssl = or_else c.use_ssl s.use_ssl;
  ssl_min_version = or_else c.ssl_min_version s.ssl_min_version;
  ssl_max_version = or_else c.ssl_max_version s.ssl_max_version;
  cert_hostname = or_else c.cert_hostname s.cert_hostname;
  ca_cert = or_else c.ca_cert s.ca_cert;
  ciphers = or_else c.ciphers s.ciphers;
  sni_hostname = or_else c.sni_hostname s.sni_hostname;
  dont_pool = or_else c.dont_pool s.dont_pool;
  client_cert = or_else c.client_cert s.client_cert;
  grpc = or_else c.grpc s.grpc;
  keepalive = or_else c.keepalive s.keepalive;
  http_keepalive_time_ms = or_else c.http_keepalive_time_ms s.http_keepalive_time_ms;
  tcp_keepalive_enable = or_else c.tcp_keepalive_enable s.tcp_keepalive_enable;
  tcp_keepalive_interval_secs = or_else c.tcp_keepalive_interval_secs s.tcp_keepalive_interval_secs;
  tcp_keepalive_probes = or_else c.tcp_keepalive_probes s.tcp_keepalive_probes;
  tcp_keepalive_time_secs = or_else c.tcp_keepalive_time_secs s.tcp_keepalive_time_secs;
}

-- What a call that is refused or not does.
record Does (bad : Bool) (s : Said) (b b' : BackendOptions) : Type 0 where
  counts : length b'.errs ≡ (if bad then suc (length b.errs) else length b.errs)
  sets : b'.abi_opts ≡ merged (if bad then nothing else s) b.abi_opts

-- A call that is guarded by a test.
guarded :
    (bad : Bool) (s : Said) (field reason : String) (b b' : BackendOptions)
    → Does false s b b'
    → Does bad s b (if bad then refuse field reason b else b')
guarded false s field reason b b' d = d
guarded true s field reason b b' d = record {
  counts = omega (arith, length-append b.errs (record { field = field; reason = reason } ∷ []));
  sets = refl;
}

is_over_limit-too_large : (t : ℤ) → is_over_limit t ≡ too_large t
is_over_limit-too_large (pos n) = refl
is_over_limit-too_large (negsuc n) = refl

at_least_second-raised : (t : ℤ) → at_least_second t ≡ raised t
at_least_second-raised (pos n) = ground arith
at_least_second-raised (negsuc n) = refl

unless_large-Does :
    (s : Said) (field : String) (t : ℤ) (f : Config → Config) (b : BackendOptions)
    → f b.abi_opts ≡ merged s b.abi_opts
    → Does (is_over_limit t) s b (unless_large field t f b)
unfolding unless_large
unless_large-Does s field t f b e = rw (is_over_limit-too_large t) (
    guarded (too_large t) s field "too large" b (with_config f b)
      (record { counts = refl; sets = e }))

unless_blank-Does :
    (s : Said) (field : String) (text : Bytes) (f : Config → Config) (b : BackendOptions)
    → f (record (b.abi_opts) { use_ssl = true }) ≡ merged s b.abi_opts
    → Does (is_empty text) s b (unless_blank field text f b)
unfolding unless_blank
unless_blank-Does s field text f b e =
    guarded (is_empty text) s field "field cannot be blank" b
      (with_config (λ c. f (record c { use_ssl = true })) b) (record { counts = refl; sets = e })

passed :
    (test : Bool) (s : Said) (b b' : BackendOptions)
    → test ≡ true
    → Does false s b b'
    → Does false s b (if test then b' else b)
passed true s b b' t d = d
passed false s b b' t d = absurd (ground arith)

apply-Does :
    (secs : ℤ → ℕ) (o : Op) (b : BackendOptions)
    → Does (is_refused o) (said secs o) b (apply secs o b)
unfolding apply
apply-Does secs (host_override s) b = record { counts = refl; sets = refl }
apply-Does secs (use_ssl v) b = record { counts = refl; sets = refl }
apply-Does secs (ssl_min_version v) b = record { counts = refl; sets = refl }
apply-Does secs (ssl_max_version v) b = record { counts = refl; sets = refl }
apply-Does secs (pool_connections on) b = record { counts = refl; sets = refl }
apply-Does secs (tcp_keepalive_enable v) b = record { counts = refl; sets = refl }
apply-Does secs (tcp_keepalive_interval t) b = record {
  counts = refl;
  sets =
      ap
        (λ u. record (b.abi_opts) {
          keepalive = true;
          tcp_keepalive_enable = 1;
          tcp_keepalive_interval_secs = secs u;
        })
        (at_least_second-raised t);
}
apply-Does secs (tcp_keepalive_probes zero) b = record { counts = refl; sets = refl }
apply-Does secs (tcp_keepalive_probes (suc n)) b =
    passed (ltb 0 (suc n)) _ b _ (ground arith) (record { counts = refl; sets = refl })
apply-Does secs (use_grpc v) b = record { counts = refl; sets = refl }
apply-Does secs (connect_timeout t) b = unless_large-Does _ _ t _ b refl
apply-Does secs (first_byte_timeout t) b = unless_large-Does _ _ t _ b refl
apply-Does secs (between_bytes_timeout t) b = unless_large-Does _ _ t _ b refl
apply-Does secs (http_keepalive_time t) b = unless_large-Does _ _ t _ b refl
apply-Does secs (tcp_keepalive_time t) b = unless_large-Does _ _ t _ b refl
apply-Does secs (cert_hostname s) b = unless_blank-Does _ _ s _ b refl
apply-Does secs (ca_cert s) b = unless_blank-Does _ _ s _ b refl
apply-Does secs (ciphers s) b = unless_blank-Does _ _ s _ b refl
apply-Does secs (sni_hostname s) b = unless_blank-Does _ _ s _ b refl
apply-Does secs (client_certificate s key) b = unless_blank-Does _ _ s _ b refl

apply-heard :
    (secs : ℤ → ℕ) (o : Op) (b : BackendOptions)
    → (apply secs o b).abi_opts ≡ merged (heard secs o) b.abi_opts
apply-heard secs o b = (apply-Does secs o b).sets

-- After any calls, there is one error for every call that was refused, and every field of the
-- configuration is what the last call said of it that was not refused; where none did, it stays as it
-- was. A call says its argument of its field, a time in the unit of the field. An option of TLS says of
-- TLS that it is used, which only `UseSSL` can take back, and an option of the keepalives of TCP that they
-- are on, which only `TCPKeepaliveEnable` can take back.
pub build_lem :
    (secs : ℤ → ℕ) (os : List Op) (b : BackendOptions)
    → (length (build secs os b).errs ≡ number_refused os + length b.errs)
      × ((build secs os b).abi_opts ≡ configured secs os b.abi_opts)
unfolding build
build_lem secs [] b = (omega arith, refl)
build_lem secs (o ∷ os) b =
    let (c, t) = build_lem secs os (apply secs o b) in
    (
      c ∙ counted (is_refused o) (number_refused os) _ _ (apply-Does secs o b).counts,
      t ∙ ap (configured secs os) (apply-heard secs o b),
    )
  where
    counted :
        (bad : Bool) (n l m : ℕ)
        → l ≡ (if bad then suc m else m)
        → n + l ≡ (if bad then suc n else n) + m
    counted true n l m e = omega arith
    counted false n l m e = omega arith

-- The outcome of a status that the host answers to the call that registers.
abbrev pub outcome_of : ℕ → Outcome → Outcome
outcome_of s made_of =
    if s == status_ok
    then made_of
    else if s == status_unsupported
    then failed disallowed
    else if s == status_error
    then failed name_in_use
    else failed (unexpected s)

register_config-outcome :
    (register : Bytes → Bytes → Config → ℕ) (host : Config → Host) (name target : Bytes)
    (c : Config)
    → (register_config register host name target c).outcome
      ≡ outcome_of (register name target c) (populated (host c) (new_backend name target))
unfolding to_error is_fastly_error
register_config-outcome register host name target c = ground arith

-- What `RegisterDynamicBackend` does with `n` errors in the options.
abbrev pub Registers :
    (Bytes → Bytes → Config → ℕ) → (Config → Host) → Bytes → Bytes → BackendOptions → ℕ → Type 0
Registers register host name target b n =
    let r = register_dynamic_backend register host name target (some b) in
    (n ≢ 0
      → (r.asked ≡ [])
        × ((es : List ValidationError) × (r.outcome ≡ failed (invalid es)) × (length es ≡ n)))
    × (n ≡ 0
        → (r.asked ≡ (name, target, b.abi_opts) ∷ [])
          × (r.outcome
              ≡ outcome_of (register name target b.abi_opts)
                  (populated (host b.abi_opts) (new_backend name target))))

register_by_errs :
    (register : Bytes → Bytes → Config → ℕ) (host : Config → Host) (name target : Bytes)
    (b : BackendOptions) (es : List ValidationError)
    → b.errs ≡ es
    → Registers register host name target b (length es)
unfolding register_dynamic_backend
register_by_errs register host name target b [] e = (
  λ n. absurd (n refl),
  λ z. rw e (refl, register_config-outcome register host name target b.abi_opts),
)
register_by_errs register host name target b (x ∷ es) e =
    (λ n. rw e (refl, (x ∷ es, refl, refl)), λ z. absurd (omega arith))

-- With options that were built by calls: where one was refused, `RegisterDynamicBackend` does not
-- ask the host, and fails with as many errors as calls were refused; where none was, it asks once,
-- with the configuration that was built, and makes the backend out of what the host says of it, or
-- fails: "unsupported" is `ErrDynamicBackendDisallowed`, "error" is `ErrBackendNameInUse`, and every
-- other status an unexpected error.
pub register_dynamic_backend-build :
    (register : Bytes → Bytes → Config → ℕ) (host : Config → Host) (name target : Bytes)
    (secs : ℤ → ℕ) (os : List Op)
    → Registers register host name target (build secs os new_backend_options) (number_refused os)
register_dynamic_backend-build register host name target secs os =
    let b = build secs os new_backend_options in
    let e : length b.errs ≡ number_refused os =
      omega (arith, (build_lem secs os new_backend_options).0) in
    rw (sym e) (register_by_errs register host name target b b.errs refl)
