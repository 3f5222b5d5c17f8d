-- ===== src/Backend/Config.antt =====
-- fsthttp/backend.go: `Backend`, `BackendFromName`, `populateConfig`, `RegisterDynamicBackend`;
-- internal/abi/fastly/backends_guest.go: the calls that they make.
use compute_sdk_go.Common.{
  ℕ, ◌*◌, Bool, true, false, not, List, [], ◌∷◌, ◌++◌, Option, none, some, ◌==◌, if◌then◌else◌,
  Bytes,
}
use compute_sdk_go.Common.Int.{decimal}
use compute_sdk_go.Abi.Status.{status_error, status_unsupported}
use compute_sdk_go.Abi.Errors.{
  GoError, Result, ok, err, ◌>>=◌, to_error, is_fastly_error, has_status, ignore_none_error,
}
use compute_sdk_go.Abi.Answers.{Answer, checked}
use compute_sdk_go.Backend.Options.{
  Config, BackendOptions, ValidationError, empty_config, millisecond,
}

-- What the host answers about one backend.
pub record Host : Type 0 where
  pub is_dynamic : Answer ℕ
  pub get_host : Answer Bytes
  pub get_port : Answer ℕ
  pub get_override_host : Answer Bytes
  pub get_connect_timeout_ms : Answer ℕ
  pub get_first_byte_timeout_ms : Answer ℕ
  pub get_between_bytes_timeout_ms : Answer ℕ
  pub is_ssl : Answer ℕ
  pub get_ssl_max_version : Answer ℕ
  pub get_ssl_min_version : Answer ℕ

-- `Backend`; a duration is a number of nanoseconds.
pub record Backend : Type 0 where
  pub name : Bytes
  pub target : Bytes
  pub dynamic : Bool
  pub host_override : Bytes
  pub connect_timeout : ℕ
  pub first_byte_timeout : ℕ
  pub between_bytes_timeout : ℕ
  pub is_ssl : Bool
  pub ssl_min_version : ℕ
  pub ssl_max_version : ℕ

abbrev pub new_backend : Bytes → Bytes → Backend
new_backend name target = record {
  name = name;
  target = target;
  dynamic = false;
  host_override = [];
  connect_timeout = 0;
  first_byte_timeout = 0;
  between_bytes_timeout = 0;
  is_ssl = false;
  ssl_min_version = 0;
  ssl_max_version = 0;
}

abbrev pub ignore_unsupported_error : Option GoError → Option GoError
ignore_unsupported_error none = none
ignore_unsupported_error (some e) = if has_status status_unsupported e then none else some e

abbrev pub ignore_both : Option GoError → Option GoError
ignore_both e = ignore_unsupported_error (ignore_none_error e)

-- `x != 0`
abbrev pub nonzero : ℕ → Bool
nonzero n = not (n == 0)

abbrev pub in_milliseconds : ℕ → ℕ
in_milliseconds n = n * millisecond

-- The versions, which are asked for a backend with TLS only: the newest and the oldest.
unfoldable pub ssl_versions : Host → Bool → Result (ℕ × ℕ)
unfolding to_error is_fastly_error ignore_none_error
ssl_versions host false = ok (0, 0)
ssl_versions host true = checked ignore_both 0 (λ n. n) host.get_ssl_max_version >>= λ newest.
    checked ignore_both 0 (λ n. n) host.get_ssl_min_version >>= λ oldest. ok (newest, oldest)

-- `populateConfig`
unfoldable pub populate_config : Host → Backend → Result Backend
unfolding to_error is_fastly_error ignore_none_error ssl_versions
populate_config host b = checked ignore_none_error false nonzero host.is_dynamic >>= λ dynamic.
    checked ignore_none_error [] (λ s. s) host.get_host >>= λ name.
    checked ignore_none_error 0 (λ n. n) host.get_port >>= λ port.
    checked ignore_none_error [] (λ s. s) host.get_override_host >>= λ override.
    checked ignore_both 0 in_milliseconds host.get_connect_timeout_ms >>= λ connect.
    checked ignore_both 0 in_milliseconds host.get_first_byte_timeout_ms >>= λ first.
    checked ignore_both 0 in_milliseconds host.get_between_bytes_timeout_ms >>= λ between.
    checked ignore_none_error false nonzero host.is_ssl >>= λ ssl.
    ssl_versions host ssl >>= λ versions. ok (record {
      name = b.name;
      target = name ++ (b':' ∷ decimal port);
      dynamic = dynamic;
      host_override = override;
      connect_timeout = connect;
      first_byte_timeout = first;
      between_bytes_timeout = between;
      is_ssl = ssl;
      ssl_min_version = versions.1;
      ssl_max_version = versions.0;
    })

-- The errors of the functions that make a `Backend`.
pub data BackendError : Type 0 where
  invalid : List ValidationError → BackendError
  not_found disallowed name_in_use : BackendError
  unexpected : ℕ → BackendError
  other : GoError → BackendError

pub data Outcome : Type 0 where
  made : Backend → Outcome
  failed : BackendError → Outcome

abbrev pub populated : Host → Backend → Outcome
populated host b = elim (populate_config host b) [ ok c ↦ made c | err e ↦ failed (other e) ]

-- `BackendFromName`, with the answer of `exists`.
unfoldable pub backend_from_name : Answer ℕ → Host → Bytes → Outcome
unfolding to_error populate_config
backend_from_name found host name = elim (checked (λ e. e) false nonzero found) [
  | err e ↦ failed (other e)
  | ok false ↦ failed not_found
  | ok true ↦ populated host (new_backend name [])
]

abbrev pub register_error : GoError → BackendError
register_error e = elim (is_fastly_error e) [
  | none ↦ other e
  | some status ↦
      if status == status_unsupported
      then disallowed
      else if status == status_error
      then name_in_use
      else unexpected status
]

-- What `RegisterDynamicBackend` returns, and the calls that ask the host to register.
pub record Registered : Type 0 where
  pub asked : List (Bytes × Bytes × Config)
  pub outcome : Outcome

abbrev pub register_config :
    (Bytes → Bytes → Config → ℕ) → (Config → Host) → Bytes → Bytes → Config → Registered
register_config register host name target c = record {
  asked = (name, target, c) ∷ [];
  outcome = elim (to_error (register name target c)) [
    | some e ↦ failed (register_error e)
    | none ↦ populated (host c) (new_backend name target)
  ];
}

-- `RegisterDynamicBackend`; no options are the empty ones. The host answers later with a view to
-- what it has registered.
unfoldable pub register_dynamic_backend :
    (Bytes → Bytes → Config → ℕ)
    → (Config → Host)
    → Bytes
    → Bytes
    → Option BackendOptions
    → Registered
unfolding to_error is_fastly_error populate_config
register_dynamic_backend register host name target none =
    register_config register host name target empty_config
register_dynamic_backend register host name target (some b) = elim b.errs [
  | [] ↦ register_config register host name target b.abi_opts
  | e ∷ es ↦ record { asked = []; outcome = failed (invalid (e ∷ es)) }
]
