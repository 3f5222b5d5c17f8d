-- ===== src/Header.antt =====
-- fsthttp/headers.go: `Header`, a map from keys to values. Here a list of entries, looked up from
-- the front; Go gives the keys of a map in any order.
pub mod Keys
pub mod Entries
pub mod Copies
pub mod Invariant
mod Tests
use compute_sdk_go.Common.{
  ℕ, ◌+◌, ◌-◌, Bool, true, not, ◌&&◌, List, [], ◌∷◌, ◌++◌, map, leb, ◌==◌, if◌then◌else◌, all, keep,
  Bytes, same,
}
use compute_sdk_go.Cookie.Token.{is_token_rune}

abbrev pub Header : Type 0
Header = List (Bytes × List Bytes)

-- A letter in the case that its place asks for: `upper` at the beginning and behind a hyphen.
abbrev pub cased : Bool → ℕ → ℕ
cased upper c =
    if upper && leb b'a' c && leb c b'z'
    then c - 32
    else if not upper && leb b'A' c && leb c b'Z'
    then c + 32
    else c

abbrev pub recase : Bool → Bytes → Bytes
recase upper [] = []
recase upper (c ∷ cs) = cased upper c ∷ recase (c == b'-') cs

-- `CanonicalHeaderKey`: a key with a byte that no header field may hold is left as it is. Such
-- bytes are those that no token may hold.
unfoldable pub canonical_header_key : Bytes → Bytes
canonical_header_key s = if all is_token_rune s then recase true s else s

-- `h[key]`; no values where the key is missing.
unfoldable pub entry : Bytes → Header → List Bytes
entry key [] = []
entry key ((k, vs) ∷ h) = let rest = entry key h in if same k key then vs else rest

-- `h[key] = vs`
unfoldable pub put : Bytes → List Bytes → Header → Header
put key vs [] = (key, vs) ∷ []
put key vs ((k, old) ∷ h) =
    let rest = put key vs h in if same k key then (k, vs) ∷ h else (k, old) ∷ rest

-- `delete(h, key)`
unfoldable pub delete : Bytes → Header → Header
delete key h = keep (λ e. not (same e.0 key)) h

abbrev pub keys : Header → List Bytes
keys h = map (λ e. e.0) h

unfoldable pub values : Bytes → Header → List Bytes
unfolding entry canonical_header_key
values key h = entry (canonical_header_key key) h

unfoldable pub get : Bytes → Header → Bytes
unfolding values
get key h = elim (values key h) [ [] ↦ [] | v ∷ _ ↦ v ]

unfoldable pub add : Bytes → Bytes → Header → Header
unfolding put entry canonical_header_key
add key value h = let k = canonical_header_key key in put k (entry k h ++ value ∷ []) h

unfoldable pub set : Bytes → Bytes → Header → Header
unfolding put canonical_header_key
set key value h = put (canonical_header_key key) (value ∷ []) h

unfoldable pub del : Bytes → Header → Header
unfolding delete canonical_header_key
del key h = delete (canonical_header_key key) h

abbrev pub add_all : Bytes → List Bytes → Header → Header
add_all key [] h = h
add_all key (v ∷ vs) h = add_all key vs (add key v h)

-- The rounds of `Apply` for some keys of `hs`.
abbrev pub apply_keys : List Bytes → Header → Header → Header
apply_keys [] hs h = h
apply_keys (key ∷ ks) hs h = apply_keys ks hs (add_all key (values key hs) (del key h))

unfoldable pub apply : Header → Header → Header
unfolding add del values
apply hs h = apply_keys (keys hs) hs h

unfoldable pub clone : Header → Header
unfolding apply
clone h = apply h []

abbrev pub del_keys : List Bytes → Header → Header
del_keys [] h = h
del_keys (key ∷ ks) h = del_keys ks (del key h)

unfoldable pub reset : Header → Header → Header
unfolding apply del
reset hs h = apply hs (del_keys (keys h) h)
