-- ===== src/Header/Tests.antt =====
-- fsthttp/headers.go: tests, and the theorems at concrete inputs.
use compute_sdk_go.Common.{◌≡◌, refl, [], ◌∷◌, codes, if◌then◌else◌}
use compute_sdk_go.Cookie.Token.{is_token_rune}
use compute_sdk_go.Header.{Header, keys, values, get, apply, canonical_header_key}
use compute_sdk_go.Header.Copies.{AllCanonical, among, values-apply}
use compute_sdk_go.Header.Invariant.{op_add, op_apply, run_ops, run_ops-AllCanonical}

abbrev accepting : Header
accepting = (codes "Accept", codes "a" ∷ codes "b" ∷ []) ∷ (codes "Host", codes "h" ∷ []) ∷ []

abbrev hosted : Header
hosted = (codes "Host", codes "old" ∷ []) ∷ (codes "X-Cache", codes "HIT" ∷ []) ∷ []

canonical : canonical_header_key (codes "x-cache-HITS") ≡ codes "X-Cache-Hits"
unfolding canonical_header_key is_token_rune
canonical = refl

spaced : canonical_header_key (codes "x cache") ≡ codes "x cache"
unfolding canonical_header_key is_token_rune
spaced = refl

first : get (codes "ACCEPT") accepting ≡ codes "a"
unfolding get is_token_rune
first = refl

canonical_accepting : AllCanonical accepting
unfolding canonical_header_key is_token_rune
canonical_accepting = (refl, (refl, tt))

canonical_hosted : AllCanonical hosted
unfolding canonical_header_key is_token_rune
canonical_hosted = (refl, (refl, tt))

values-apply_example : values (codes "host") (apply accepting hosted) ≡ (
    if among (canonical_header_key (codes "host")) (keys accepting)
    then values (codes "host") accepting
    else values (codes "host") hosted)
values-apply_example = values-apply accepting hosted canonical_accepting (codes "host")

run_ops-AllCanonical_example :
    AllCanonical (run_ops (op_add (codes "accept") (codes "c") ∷ op_apply hosted ∷ []) [])
run_ops-AllCanonical_example =
    run_ops-AllCanonical (op_add (codes "accept") (codes "c") ∷ op_apply hosted ∷ []) [] tt
