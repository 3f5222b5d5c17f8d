-- ===== src/SimpleCache/Purging.antt =====
-- `Purge` reaches the objects that `GetOrSet` has stored.
use compute_sdk_go.Common.{
  ℕ, ◌≡◌, refl, ap, ◌∙◌, false, List, [], ◌∷◌, ◌++◌, some, none, ◌==◌, ◌/◌, ◌%◌, arith, Bytes,
  contains, split, upper_hex, hex_key,
}
use compute_sdk_go.Common.Int.{ℤ}
use compute_sdk_go.Common.Text.{split_of_clear, split-append}
use compute_sdk_go.Abi.Errors.{ok}
use compute_sdk_go.CoreCache.Options.{Requests, AbiWriteOptions, abi_write_options}
use compute_sdk_go.SimpleCache.{
  purge_scope_pop, purge_scope_global, surrogate_key_for_cache_key, purge, write_options,
}

upper_hex_no_space : (d : ℕ) → (upper_hex d == b' ') ≡ false
upper_hex_no_space d = ground arith

contains-hex_key : (s : Bytes) → contains b' ' (hex_key s) ≡ false
unfolding contains
contains-hex_key [] = refl
contains-hex_key (c ∷ cs) =
    rw (upper_hex_no_space (c / 16), upper_hex_no_space (c % 16)) (contains-hex_key cs)

-- The keys of an object, as the host reads them: the text splits at its spaces.
abbrev pub read_keys : AbiWriteOptions → List Bytes
read_keys abi = elim abi.surrogate_keys [ none ↦ [] | some s ↦ (split b' ' s).0 ∷ (split b' ' s).1 ]

-- The options with which `GetOrSet` stores an object make no request, and the host reads two keys
-- off them: those that `Purge` purges for the local scope and for the global one.
pub purge-write_options :
    (host : Requests) (send : Bytes → ℕ) (sha256 : Bytes → Bytes) (pop key : Bytes) (ttl : ℤ)
    → (abi : AbiWriteOptions) × (abi_write_options host (write_options sha256 pop key ttl) ≡ ok abi)
      × (abi.request ≡ none)
      × (read_keys abi
          ≡ (purge send sha256 pop key purge_scope_pop).0
            ∷ (purge send sha256 pop key purge_scope_global).0
            ∷ [])
unfolding abi_write_options purge surrogate_key_for_cache_key
purge-write_options host send sha256 pop key ttl =
    let a = hex_key (sha256 (key ++ pop)) in
    let b = hex_key (sha256 key) in
    (
      _,
      refl,
      refl,
      ap (λ p. p.0 ∷ p.1)
          (split-append b' ' a b (contains-hex_key (sha256 (key ++ pop)))
            ∙ ap (λ p. (a, p.0 ∷ p.1)) (split_of_clear b' ' b (contains-hex_key (sha256 key)))),
    )
