-- ===== src/HttpCache/Getters.antt =====
-- The getters of a candidate against what `finalizeOptions` writes.
use compute_sdk_go.Common.{
  ℕ, ◌*◌, ◌%◌, Option, Bytes, ◌+◌, ◌-◌, ◌^◌, ◌≤◌, ◌<◌, ◌≡◌, ◌⊎◌, refl, none, ap, true, false, some,
  arith, if◌then◌else◌, codes,
}
use compute_sdk_go.Abi.Errors.{Result, ok, ◌>>=◌}
use compute_sdk_go.HttpCache.{StorageAction, do_not_store, record_uncacheable}
use compute_sdk_go.HttpCache.Options.{AbiWriteOptions, WriteOptions, flush_to_abi}
use compute_sdk_go.HttpCache.Seconds.{u32s_to_u64ns}
use compute_sdk_go.HttpCache.Freshness.{finalize-parts}
use compute_sdk_go.HttpCache.Candidate.{
  Body, Host, CacheOptions, Candidate, new_candidate, build_fresh_options, get_suggested, max_age,
  age, ttl_remaining, stale_while_revalidate, stale_if_error, sensitive, vary, surrogate_keys,
  has_cookie,
}
use compute_sdk_go.HttpCache.Found.{Response, response_ttl, was_written_to_cache}
use compute_sdk_go.HttpCache.Finalize.{
  final_action, merged_options, finalize_options, suggested_or_fresh, body_has_known_length,
}

-- A getter that answers `x`, whatever candidate it leaves.
abbrev pub Answers : {R A : Type 0} → Result (A × Candidate R) → A → Type 0
Answers {R} r x = (c : Candidate R) × (r ≡ ok (x, c))

module _ {R : Type 0} (host : Host R) where
  -- Each getter but `MaxAge` answers what `finalizeOptions` would write.
  pub record Agree (c : Candidate R) (o : WriteOptions) : Type 0 where
    pub swr : Answers (stale_while_revalidate host c) o.stale_while_revalidate
    pub sie : Answers (stale_if_error host c) o.stale_if_error
    pub pci : Answers (sensitive host c) o.sensitive
    pub vary_rule : Answers (vary host c) o.vary
    pub keys : Answers (surrogate_keys host c) o.surrogate
    pub own_age : Answers (age host c) o.age

  module _ (c c' : Candidate R) (s : WriteOptions) (e : get_suggested host c ≡ ok (s, c')) where
    swr_answers :
        Answers (stale_while_revalidate host c) (merged_options c s).stale_while_revalidate
    unfolding stale_while_revalidate merged_options body_has_known_length
    swr_answers = (if c.use_swr then c else c', ground arith)

    sie_answers : Answers (stale_if_error host c) (merged_options c s).stale_if_error
    unfolding stale_if_error merged_options body_has_known_length
    sie_answers = (if c.use_sie then c else c', ground arith)

    pci_answers : Answers (sensitive host c) (merged_options c s).sensitive
    unfolding sensitive merged_options body_has_known_length
    pci_answers = (if c.use_pci then c else c', ground arith)

    vary_answers : Answers (vary host c) (merged_options c s).vary
    unfolding vary merged_options body_has_known_length
    vary_answers = (if c.use_vary then c else c', ground arith)

    keys_answers : Answers (surrogate_keys host c) (merged_options c s).surrogate
    unfolding surrogate_keys merged_options body_has_known_length
    keys_answers = (if c.use_surrogate then c else c', ground arith)

    age_answers : Answers (age host c) (merged_options c s).age
    unfolding age merged_options body_has_known_length
    age_answers = (c', ground arith)

    getters-merged_options : Agree c (merged_options c s)
    getters-merged_options = record {
      swr = swr_answers;
      sie = sie_answers;
      pci = pci_answers;
      vary_rule = vary_answers;
      keys = keys_answers;
      own_age = age_answers;
    }

    plain_age : Answers (age host c) s.age
    unfolding age
    plain_age = (c', ground arith)

    plain_lifetime : c.use_ttl ≡ false → Answers (max_age host c) s.max_age
    unfolding max_age
    plain_lifetime t = (c', ground arith)

    plain_max_age : c.use_ttl ≡ false → (merged_options c s).max_age ≡ s.max_age
    unfolding merged_options body_has_known_length
    plain_max_age t = ground arith

    reduced_max_age :
        c.use_ttl ≡ true
        → s.age ≤ c.override_ttl
        → (merged_options c s).max_age ≡ c.override_ttl - s.age
    unfolding merged_options body_has_known_length
    reduced_max_age t le = ground arith

    -- The remaining freshness is the lifetime, set or suggested, less the age, and never below 0.
    pub ttl_remaining_lem :
        ttl_remaining host c ≡ ok ((if c.use_ttl then c.override_ttl else s.max_age) - s.age, c')
    unfolding ttl_remaining
    ttl_remaining_lem = ground arith

    -- `MaxAge` differs from what is written for a candidate whose TTL is set: the written maximum
    -- age is smaller by the age, and a TTL below the age is not written at all.
    pub max_age-merged_options :
        c.use_ttl ≡ true
        → Answers (max_age host c) c.override_ttl
          × (s.age ≤ c.override_ttl → (merged_options c s).max_age + s.age ≡ c.override_ttl)
          × (c.override_ttl < s.age → (merged_options c s).max_age ≡ s.max_age)
    unfolding max_age merged_options body_has_known_length
    max_age-merged_options h = ((c, ground arith), (λ p. ground arith), (λ p. ground arith))

  -- A getter answers the seconds that the host is given, in nanoseconds of 64 bits.
  abbrev pub Seconds : Result (ℕ × Candidate R) → Option ℕ → Type 0
  Seconds r ns = (x : ℕ) × Answers r x × (ns ≡ some (x * 1_000_000_000 % 2 ^ 64))

  -- What the host is given, against the getters. `MaxAge` is what the host is given unless a TTL is
  -- set; then it is the TTL less the age, if the age is not above it.
  pub record Reported (c : Candidate R) (abi : AbiWriteOptions) : Type 0 where
    pub swr : Seconds (stale_while_revalidate host c) abi.stale_while_revalidate_ns
    pub sie : Seconds (stale_if_error host c) abi.stale_if_error_ns
    pub own_age : Seconds (age host c) abi.initial_age_ns
    pub pci : Answers (sensitive host c) abi.sensitive_data
    pub vary_rule : (v : Bytes) × Answers (vary host c) v × (abi.vary_rule ≡ some v)
    pub keys : (k : Bytes) × Answers (surrogate_keys host c) k × (abi.surrogate_keys ≡ some k)
    pub lifetime : c.use_ttl ≡ false → Seconds (max_age host c) (some abi.max_age_ns)
    pub ttl :
        c.use_ttl ≡ true
        → (x : ℕ) × Answers (age host c) x
          × (x ≤ c.override_ttl → abi.max_age_ns ≡ (c.override_ttl - x) * 1_000_000_000 % 2 ^ 64)

  suggested_again :
      (c : Candidate R) (s : WriteOptions)
      → suggested_or_fresh host c ≡ ok s
      → (c' : Candidate R) × (get_suggested host c ≡ ok (s, c'))
  unfolding suggested_or_fresh get_suggested
  suggested_again c s e = by_known c.suggested_options e
    where
      keep : WriteOptions → Result (WriteOptions × Candidate R)
      keep opts = ok (opts, record c { suggested_options = some opts })

      by_known :
          (o : Option WriteOptions)
          → elim o [ some opts ↦ ok opts | none ↦ build_fresh_options host c ] ≡ ok s
          → (c' : Candidate R) × (elim o [
            | some opts ↦ ok (opts, c)
            | none ↦ build_fresh_options host c >>= keep
          ]
              ≡ ok (s, c'))
      by_known none e = (record c { suggested_options = some s }, ap (λ r. r >>= keep) e)
      by_known (some opts) e = (c, cc)

  -- Where `finalizeOptions` succeeds, the host's record that it makes has what the getters of the
  -- candidate answer: the stale periods and the age in nanoseconds, the flag for sensitive data, the vary
  -- rule and the surrogate keys, with or without an override. The maximum age in it is what `MaxAge`
  -- answers if no TTL is set; if one is set that is not below the age, it is the TTL less the age.
  pub getters-finalize_options :
      (c : Candidate R) (action : StorageAction) (opts : WriteOptions)
      → finalize_options host c ≡ ok (action, opts)
      → Reported c opts.abi_opts
  unfolding flush_to_abi u32s_to_u64ns
  getters-finalize_options c action opts h =
      let (s, e, p, q) = finalize-parts host c action opts h in
      let (c', g) = suggested_again c s e in
      let m = getters-merged_options c c' s g in
      let ns : ℕ → ℕ = λ x. x * 1_000_000_000 % 2 ^ 64 in
      let in_ns : ℕ → Option ℕ = λ x. some (x * 1_000_000_000 % 2 ^ 64) in
      rw q (record {
        swr = (_, m.swr, refl);
        sie = (_, m.sie, refl);
        own_age = (_, m.own_age, refl);
        pci = m.pci;
        vary_rule = (_, m.vary_rule, refl);
        keys = (_, m.keys, refl);
        lifetime = λ t. (s.max_age, plain_lifetime c c' s g t, ap in_ns (plain_max_age c c' s g t));
        ttl = λ t. (s.age, plain_age c c' s g, λ le. ap ns (reduced_max_age c c' s g t le));
      })

  -- By default a response that sets a cookie is not stored, whatever the host suggests.
  pub new_candidate_cookie :
      (opts : CacheOptions) (resp : R) (body : Body) (c : Candidate R)
      → new_candidate host opts resp body ≡ ok c
      → has_cookie (host.get_header_value c.abi_resp (codes "set-cookie")) ≡ true
      → (final_action c ≡ do_not_store) ⊎ (final_action c ≡ record_uncacheable)
  unfolding new_candidate final_action
  new_candidate_cookie opts resp body c e h = ground arith

-- `TTL` of a response that is older than its maximum age wraps around: the answer is not 0 but
-- more than the whole range less the age.
pub response_ttl_wraps :
    (r : Response)
    → was_written_to_cache r ≡ false
    → r.cache_response.options.max_age < r.cache_response.options.age
    → r.cache_response.options.age < 2 ^ 32
    → (t : ℕ) × (response_ttl r ≡ some t)
      × (t + r.cache_response.options.age ≡ r.cache_response.options.max_age + 2 ^ 32)
unfolding response_ttl
response_ttl_wraps r w h k = (
  r.cache_response.options.max_age + 2 ^ 32 - r.cache_response.options.age,
  ground arith,
  omega arith,
)
