-- ===== src/Backend/Populate.antt =====
-- What a backend knows of the answers of the host, and the answers that make it fail.
use compute_sdk_go.Common.{
  ℕ, ap, ◌≡◌, refl, Bool, true, false, ◌||◌, List, [], ◌∷◌, ◌++◌, ◌==◌, if◌then◌else◌, arith,
}
use compute_sdk_go.Common.Int.{decimal}
use compute_sdk_go.Abi.Status.{status_unsupported}
use compute_sdk_go.Abi.Errors.{
  fastly, Result, ok, err, ◌>>=◌, to_error, is_fastly_error, ignore_none_error,
}
use compute_sdk_go.Abi.Answers.{
  Answer, checked, missing_or_ok, answered, first_refused, judged, Agrees, substitute_result,
  first_refused-Agrees, checked-ignore_none_error,
}
use compute_sdk_go.Backend.Config.{
  Host, Backend, ignore_both, nonzero, in_milliseconds, ssl_versions, populate_config,
}

-- The test environment does not know the calls for timeouts and versions.
abbrev pub unknown_or_ok : ℕ → Bool
unknown_or_ok s = missing_or_ok s || s == status_unsupported

-- The tests that the answers are put to, in the order of the calls.
abbrev pub version_tests : Host → Bool → List (ℕ × Bool)
version_tests h false = []
version_tests h true =
    (h.get_ssl_max_version.status, unknown_or_ok h.get_ssl_max_version.status)
    ∷ (h.get_ssl_min_version.status, unknown_or_ok h.get_ssl_min_version.status)
    ∷ []

abbrev pub has_tls : Host → Bool
has_tls h = answered false nonzero h.is_ssl

abbrev pub tests : Host → List (ℕ × Bool)
tests h =
    (h.is_dynamic.status, missing_or_ok h.is_dynamic.status)
    ∷ (h.get_host.status, missing_or_ok h.get_host.status)
    ∷ (h.get_port.status, missing_or_ok h.get_port.status)
    ∷ (h.get_override_host.status, missing_or_ok h.get_override_host.status)
    ∷ (h.get_connect_timeout_ms.status, unknown_or_ok h.get_connect_timeout_ms.status)
    ∷ (h.get_first_byte_timeout_ms.status, unknown_or_ok h.get_first_byte_timeout_ms.status)
    ∷ (h.get_between_bytes_timeout_ms.status, unknown_or_ok h.get_between_bytes_timeout_ms.status)
    ∷ (h.is_ssl.status, missing_or_ok h.is_ssl.status)
    ∷ version_tests h (has_tls h)

-- The fields that the answers give; without TLS there are no versions.
abbrev pub filled : Host → Backend → Backend
filled h b = record {
  name = b.name;
  target = answered [] (λ s. s) h.get_host ++ (b':' ∷ decimal (answered 0 (λ n. n) h.get_port));
  dynamic = answered false nonzero h.is_dynamic;
  host_override = answered [] (λ s. s) h.get_override_host;
  connect_timeout = answered 0 in_milliseconds h.get_connect_timeout_ms;
  first_byte_timeout = answered 0 in_milliseconds h.get_first_byte_timeout_ms;
  between_bytes_timeout = answered 0 in_milliseconds h.get_between_bytes_timeout_ms;
  is_ssl = has_tls h;
  ssl_min_version = if has_tls h then answered 0 (λ n. n) h.get_ssl_min_version else 0;
  ssl_max_version = if has_tls h then answered 0 (λ n. n) h.get_ssl_max_version else 0;
}

checked_both {ℓ κ μ} :
    {A : Type ℓ} {B : Type κ} {C : Type μ} (z : B) (f : A → B) (a : Answer A) (k : B → Result C)
    → (checked ignore_both z f a >>= k)
      ≡ (if unknown_or_ok a.status then k (answered z f a) else err (fastly a.status))
unfolding to_error is_fastly_error ignore_none_error
checked_both z f a k = ground arith

bind_assoc {ℓ κ μ} :
    {A : Type ℓ} {B : Type κ} {C : Type μ} (m : Result A) (f : A → Result B) (g : B → Result C)
    → ((m >>= f) >>= g) ≡ (m >>= λ a. f a >>= g)
bind_assoc (ok a) f g = refl
bind_assoc (err e) f g = refl

abbrev Populates : Host → Backend → Result Backend → List (ℕ × Bool) → Type 0
Populates h b r l = Agrees (λ s. err (fastly s)) (ok (filled h b)) r l

module _ (h : Host) (b : Backend) where
  checked-Populates {ℓ κ} :
      {A : Type ℓ} {B : Type κ} (z : B) (f : A → B) (a : Answer A) (k : B → Result Backend)
      (l : List (ℕ × Bool))
      → Populates h b (k (answered z f a)) l
      → Populates h b
          (checked ignore_none_error z f a >>= k)
          ((a.status, missing_or_ok a.status) ∷ l)
  checked-Populates z f a k l e =
      first_refused-Agrees a.status (missing_or_ok a.status) _ _ (checked-ignore_none_error z f a k)
        e

  checked_both-Populates {ℓ κ} :
      {A : Type ℓ} {B : Type κ} (z : B) (f : A → B) (a : Answer A) (k : B → Result Backend)
      (l : List (ℕ × Bool))
      → Populates h b (k (answered z f a)) l
      → Populates h b (checked ignore_both z f a >>= k) ((a.status, unknown_or_ok a.status) ∷ l)
  checked_both-Populates z f a k l e =
      first_refused-Agrees a.status (unknown_or_ok a.status) _ _ (checked_both z f a k) e

  -- The versions stand last.
  ssl_versions-Populates :
      (tls : Bool) (k : ℕ × ℕ → Backend)
      → k (
        (if tls then answered 0 (λ n. n) h.get_ssl_max_version else 0),
        (if tls then answered 0 (λ n. n) h.get_ssl_min_version else 0),
      )
        ≡ filled h b
      → Populates h b (ssl_versions h tls >>= λ v. ok (k v)) (version_tests h tls)
  unfolding ssl_versions
  ssl_versions-Populates false k e = record { same_result = ap ok e }
  ssl_versions-Populates true k e =
      substitute_result _ _ (bind_assoc (checked ignore_both 0 (λ n. n) h.get_ssl_max_version) _ _)
        (checked_both-Populates 0 (λ n. n) h.get_ssl_max_version _ _
          (substitute_result _ _
            (bind_assoc (checked ignore_both 0 (λ n. n) h.get_ssl_min_version) _ _)
            (checked_both-Populates 0 (λ n. n) h.get_ssl_min_version _ []
              (record { same_result = ap ok e }))))

-- `populateConfig` fails with the first status that is neither "ok" nor "none", nor, for the
-- timeouts and the versions of TLS, "unsupported"; else it fills every field, with the zero value
-- where the host has none. The versions are asked for a backend with TLS only, and a status that
-- they answer does not matter otherwise.
pub populate_config_lem :
    (h : Host) (b : Backend)
    → populate_config h b ≡ judged (λ s. err (fastly s)) (ok (filled h b)) (first_refused (tests h))
unfolding populate_config ssl_versions
populate_config_lem h b =
    (checked-Populates h b false nonzero h.is_dynamic _ _ (
      checked-Populates h b [] (λ s. s) h.get_host _ _
        (checked-Populates h b 0 (λ n. n) h.get_port _ _
          (checked-Populates h b [] (λ s. s) h.get_override_host _ _
            (checked_both-Populates h b 0 in_milliseconds h.get_connect_timeout_ms _ _ (
              checked_both-Populates h b 0 in_milliseconds h.get_first_byte_timeout_ms _ _ (
                checked_both-Populates h b 0 in_milliseconds h.get_between_bytes_timeout_ms _ _ (
                  checked-Populates h b false nonzero h.is_ssl _ _
                    (ssl_versions-Populates h b (has_tls h) _ refl))))))))).same_result
