-- ===== src/Backend/Tests.antt =====
-- Runs of the definitions on small inputs, and instances of the theorems about backends.
use compute_sdk_go.Common.{
  ℕ, ◌+◌, ◌*◌, ◌/◌, ◌%◌, ◌^◌, ◌≡◌, refl, true, false, List, [], ◌∷◌, none, some, if◌then◌else◌,
  Bytes, codes, length,
}
use compute_sdk_go.Common.Int.{ℤ, pos, negsuc}
use compute_sdk_go.Abi.Errors.{err, fastly, to_error, is_fastly_error}
use compute_sdk_go.Backend.Options.{
  Config, Op, new_backend_options, empty_config, second, max_backend_timeout, apply, build,
  unless_large, unless_blank,
}
use compute_sdk_go.Backend.Config.{
  Host, failed, name_in_use, not_found, populate_config, new_backend, backend_from_name,
  register_dynamic_backend,
}
use compute_sdk_go.Backend.Populate.{populate_config_lem}
use compute_sdk_go.Backend.Timeouts.{AllSet, timeouts_near_limit}
use compute_sdk_go.Backend.Said.{number_refused}
use compute_sdk_go.Backend.Latest.{build_lem, Registers, register_dynamic_backend-build}

abbrev whole_seconds : ℤ → ℕ
whole_seconds (pos n) = n / second % 2 ^ 32
whole_seconds (negsuc n) = 0

-- A day, a certificate's name, and TLS switched off after it.
abbrev calls : List Op
calls =
    Op.connect_timeout (pos (86_400 * second))
    ∷ Op.cert_hostname (codes "example.com")
    ∷ Op.tcp_keepalive_time (pos second)
    ∷ Op.use_ssl false
    ∷ []

abbrev refused_calls : List Op
refused_calls =
    Op.ciphers []
    ∷ Op.sni_hostname (codes "a")
    ∷ Op.connect_timeout (pos (max_backend_timeout + 1))
    ∷ []

abbrev configured : Config → Host
configured c = record {
  is_dynamic = record { status = 0; value = 1 };
  get_host = record { status = 0; value = codes "a.org" };
  get_port = record { status = 0; value = 443 };
  get_override_host = record { status = 10; value = [] };
  get_connect_timeout_ms = elim c.connect_timeout_ms [
    | some n ↦ record { status = 0; value = n }
    | none ↦ record { status = 5; value = 0 }
  ];
  get_first_byte_timeout_ms = record { status = 5; value = 0 };
  get_between_bytes_timeout_ms = record { status = 5; value = 0 };
  is_ssl = record { status = 0; value = if c.use_ssl then 1 else 0 };
  get_ssl_max_version = record { status = 1; value = 0 };
  get_ssl_min_version = record { status = 0; value = 2 };
}

-- The host knows one name already.
abbrev register : Bytes → Bytes → Config → ℕ
register [] target c = 1
register (_ ∷ _) target c = 0

runs_calls :
    (build whole_seconds calls new_backend_options).abi_opts.connect_timeout_ms ≡ some 86_400_000
unfolding build apply unless_large unless_blank
runs_calls = refl

timeouts_near_limit_example : AllSet whole_seconds (pos max_backend_timeout) 0 new_backend_options
timeouts_near_limit_example =
    (timeouts_near_limit whole_seconds max_backend_timeout new_backend_options).1 refl

build_lem_example :
    (length (build whole_seconds calls new_backend_options).errs ≡ number_refused calls + 0)
    × ((build whole_seconds calls new_backend_options).abi_opts ≡ record empty_config {
      connect_timeout_ms = some 86_400_000;
      cert_hostname = some (codes "example.com");
      keepalive = true;
      tcp_keepalive_enable = 1;
      tcp_keepalive_time_secs = 1;
    })
build_lem_example = build_lem whole_seconds calls new_backend_options

populate_config_lem_example :
    populate_config
      (configured (record empty_config { use_ssl = true }))
      (new_backend (codes "b") [])
    ≡ err (fastly 1)
populate_config_lem_example =
    populate_config_lem (configured (record empty_config { use_ssl = true }))
      (new_backend (codes "b") [])

register_dynamic_backend-build_example :
    Registers register configured
      (codes "b")
      (codes "a.org")
      (build whole_seconds refused_calls new_backend_options)
      2
register_dynamic_backend-build_example =
    register_dynamic_backend-build register configured (codes "b") (codes "a.org") whole_seconds
      refused_calls

registers_calls :
    (register_dynamic_backend register configured []
      (codes "a.org")
      (some (build whole_seconds calls new_backend_options))).outcome
    ≡ failed name_in_use
unfolding register_dynamic_backend build apply unless_large unless_blank to_error is_fastly_error
registers_calls = refl

finds_no_backend :
    backend_from_name (record { status = 0; value = 0 }) (configured empty_config) (codes "b")
    ≡ failed not_found
unfolding backend_from_name to_error
finds_no_backend = refl
