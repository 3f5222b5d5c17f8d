-- ===== src/HttpCache/Candidate.antt =====
-- fsthttp/cache.go: `CandidateResponse`, its creation, setters and getters. The backend response and
-- the host calls on it are the parameter `Host`; a call that changes the response returns the new.
use compute_sdk_go.Common.{
  ℕ, ◌-◌, Bool, true, false, not, ◌&&◌, List, [], ◌∷◌, ◌++◌, Option, none, some, ◌==◌, leb,
  if◌then◌else◌, Bytes, codes, is_empty,
}
use compute_sdk_go.Abi.Status.{has, lookup_stale, lookup_usable_if_error}
use compute_sdk_go.Abi.Errors.{Result, ok, err, ◌>>=◌, annotate}
use compute_sdk_go.HttpCache.{StorageAction, insert, update, do_not_store, record_uncacheable}
use compute_sdk_go.HttpCache.Options.{AbiWriteOptions, WriteOptions, over, load_from_abi}

-- The body of the backend response: the host's, with what its `Length` answers; another with a
-- `Len` method; or any other reader.
pub data Body : Type 0 where
  host_body : Result ℕ → Body
  len_body : ℕ → Body
  opaque_body : Body

-- What `HTTPCache…` functions and the methods of `HTTPResponse` answer for one candidate.
pub record Host (R : Type 0) : Type 0 where
  pub prepare_response_for_storage : R → Result (StorageAction × R)
  pub suggested_cache_options : R → Result AbiWriteOptions
  pub get_state : Result ℕ
  pub get_header_value : R → Bytes → Result Bytes
  pub get_header_values : R → Bytes → Result (List Bytes)
  pub set_header_values : R → Bytes → List Bytes → Result R
  pub remove_header : R → Bytes → Result R
  pub set_status_code : R → ℕ → Result R
  pub get_status_code : R → Result ℕ

-- The fields of `CacheOptions` that a candidate starts from.
pub record CacheOptions : Type 0 where
  pub pci : Bool
  pub ttl : ℕ
  pub stale_while_revalidate : ℕ
  pub stale_if_error : ℕ
  pub surrogate_key : Bytes

pub record Candidate (R : Type 0) : Type 0 where
  pub abi_resp : R
  pub abi_body : Body
  pub suggested_options : Option WriteOptions
  pub suggested_storage_action : StorageAction
  pub override_storage_action : StorageAction
  pub use_storage_action : Bool
  pub override_pci : Bool
  pub use_pci : Bool
  pub override_swr : ℕ
  pub use_swr : Bool
  pub override_sie : ℕ
  pub use_sie : Bool
  pub extra_surrogate_keys : Bytes
  pub override_surrogate_keys : Bytes
  pub use_surrogate : Bool
  pub override_ttl : ℕ
  pub use_ttl : Bool
  pub override_vary : Bytes
  pub use_vary : Bool
  pub body_transform : Option (Bytes → Bytes)

abbrev pub is_do_not_store : StorageAction → Bool
is_do_not_store do_not_store = true
is_do_not_store _ = false

abbrev pub is_update : StorageAction → Bool
is_update update = true
is_update _ = false

-- `if v, err := …; err == nil && v != ""`
abbrev pub has_cookie : Result Bytes → Bool
has_cookie (ok v) = not (is_empty v)
has_cookie (err e) = false

-- Responses that set cookies are not cached by default.
abbrev pub cookie_action : Result Bytes → StorageAction → StorageAction
cookie_action cookie action =
    if has_cookie cookie && not (is_do_not_store action) then record_uncacheable else action

-- `keys` with `extra` behind it, after a space where `keys` is not empty.
abbrev pub join_key : Bytes → Bytes → Bytes
join_key keys extra = (if is_empty keys then keys else keys ++ b' ' ∷ []) ++ extra

unfoldable pub join_keys : Bytes → List Bytes → Bytes
join_keys keys [] = keys
join_keys keys (v ∷ vs) = join_keys (join_key keys v) vs

-- The freshness lifetime less the age, and 0 for what is stale.
abbrev pub remaining : ℕ → ℕ → ℕ
remaining lifetime age = if leb lifetime age then 0 else lifetime - age

module _ {R : Type 0} (host : Host R) where
  unfoldable pub new_candidate : CacheOptions → R → Body → Result (Candidate R)
  new_candidate opts resp body =
      annotate "prepare response for storage" (host.prepare_response_for_storage resp) >>= λ p.
      ok (record {
        abi_resp = p.1;
        abi_body = body;
        suggested_options = none;
        suggested_storage_action =
            cookie_action (host.get_header_value p.1 (codes "set-cookie")) p.0;
        override_storage_action = insert;
        use_storage_action = false;
        override_pci = opts.pci;
        use_pci = opts.pci;
        override_swr = opts.stale_while_revalidate;
        use_swr = not (opts.stale_while_revalidate == 0);
        override_sie = opts.stale_if_error;
        use_sie = not (opts.stale_if_error == 0);
        extra_surrogate_keys = opts.surrogate_key;
        override_surrogate_keys = [];
        use_surrogate = false;
        override_ttl = opts.ttl;
        use_ttl = not (opts.ttl == 0);
        override_vary = [];
        use_vary = false;
        body_transform = none;
      })

  -- `httpCacheGetSuggestedCacheWriteOptions`
  unfoldable pub suggested_write_options : R → Result WriteOptions
  suggested_write_options resp =
      annotate "get suggested cache options" (host.suggested_cache_options resp) >>= λ abi.
      ok (load_from_abi (over abi))

  unfoldable pub build_fresh_options : Candidate R → Result WriteOptions
  unfolding suggested_write_options join_keys
  build_fresh_options c = suggested_write_options c.abi_resp >>= λ opts.
      annotate "get header values" (host.get_header_values c.abi_resp (codes "surrogate-key"))
      >>= λ vals.
          let extra = c.extra_surrogate_keys in
          let keys = if is_empty extra then opts.surrogate else join_key opts.surrogate extra in
          ok (record opts { surrogate = join_keys keys vals })

  -- `getSuggestedCacheWriteOptions` keeps what it builds in the candidate.
  unfoldable pub get_suggested : Candidate R → Result (WriteOptions × Candidate R)
  get_suggested c = elim (c.suggested_options) [
    | some opts ↦ ok (opts, c)
    | none ↦ build_fresh_options c >>= λ opts. ok (opts, record c { suggested_options = some opts })
  ]

  -- A getter: the override where there is one, and else a field of the suggested options.
  abbrev pub override_or {ℓ} :
      {A : Type ℓ} → Bool → A → (WriteOptions → A) → Candidate R → Result (A × Candidate R)
  override_or used value field c =
      if used then ok (value, c) else (get_suggested c >>= λ p. ok (field p.0, p.1))

  unfoldable pub max_age : Candidate R → Result (ℕ × Candidate R)
  max_age c = override_or c.use_ttl c.override_ttl (λ o. o.max_age) c

  unfoldable pub age : Candidate R → Result (ℕ × Candidate R)
  age c = get_suggested c >>= λ p. ok (p.0.age, p.1)

  unfoldable pub ttl_remaining : Candidate R → Result (ℕ × Candidate R)
  ttl_remaining c = get_suggested c >>= λ p.
      ok (remaining (if c.use_ttl then c.override_ttl else p.0.max_age) p.0.age, p.1)

  unfoldable pub stale_while_revalidate : Candidate R → Result (ℕ × Candidate R)
  stale_while_revalidate c = override_or c.use_swr c.override_swr (λ o. o.stale_while_revalidate) c

  unfoldable pub stale_if_error : Candidate R → Result (ℕ × Candidate R)
  stale_if_error c = override_or c.use_sie c.override_sie (λ o. o.stale_if_error) c

  unfoldable pub sensitive : Candidate R → Result (Bool × Candidate R)
  sensitive c = override_or c.use_pci c.override_pci (λ o. o.sensitive) c

  unfoldable pub vary : Candidate R → Result (Bytes × Candidate R)
  vary c = override_or c.use_vary c.override_vary (λ o. o.vary) c

  unfoldable pub surrogate_keys : Candidate R → Result (Bytes × Candidate R)
  surrogate_keys c = override_or c.use_surrogate c.override_surrogate_keys (λ o. o.surrogate) c

  unfoldable pub is_stale : Result Bool
  unfolding has
  is_stale = annotate "get state" host.get_state >>= λ state. ok (has state lookup_stale)

  -- The error is dropped; the state is 0 then.
  unfoldable pub stale_if_error_available : Bool
  unfolding has
  stale_if_error_available = elim (host.get_state) [
    | ok state ↦ has state lookup_usable_if_error
    | err e ↦ has 0 lookup_usable_if_error
  ]

  abbrev with_resp : Candidate R → Result R → Result (Candidate R)
  with_resp c r = r >>= λ resp. ok (record c { abi_resp = resp })

  unfoldable pub set_header : Bytes → Bytes → Candidate R → Result (Candidate R)
  set_header key value c =
      with_resp c (annotate "set header value" (host.set_header_values c.abi_resp key (value ∷ [])))

  unfoldable pub del_header : Bytes → Candidate R → Result (Candidate R)
  del_header key c = with_resp c (annotate "remove header" (host.remove_header c.abi_resp key))

  unfoldable pub header : Bytes → Candidate R → Result Bytes
  header key c = annotate "get header" (host.get_header_value c.abi_resp key)

  unfoldable pub set_status : ℕ → Candidate R → Result (Candidate R)
  set_status code c = with_resp c (annotate "set status" (host.set_status_code c.abi_resp code))

  unfoldable pub status : Candidate R → Result ℕ
  status c = annotate "get status" (host.get_status_code c.abi_resp)
