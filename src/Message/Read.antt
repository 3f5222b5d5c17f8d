-- ===== src/Message/Read.antt =====
-- The header that is read is the one that the host has.
use compute_sdk_go.Common.{
  ℕ, ◌<◌, ◌≡◌, refl, sym, ap, ◌∙◌, true, false, inl, inr, Bool-cases, List, [], ◌∷◌, ◌++◌,
  append_assoc, append-nil, some, Bytes, same, length,
}
use Prim.Native.String.{String}
use compute_sdk_go.Abi.Errors.{GoError, ok, wrap}
use compute_sdk_go.Header.{Header, canonical_header_key, values, entry, add, add_all}
use compute_sdk_go.Header.Entries.{chosen, values-Updates}
use compute_sdk_go.Values.Contract.{Honest}
use compute_sdk_go.Values.Collect.{iterate-Honest}
use compute_sdk_go.Message.{
  Source, checked, large_buf_len, medium_buf_len, read_values, read_names, read_header,
  new_response,
}

-- The values behind the names `ks` whose canonical form is `q`.
abbrev pub gathered : (Bytes → List Bytes) → List Bytes → Bytes → List Bytes
gathered vals [] q = []
gathered vals (k ∷ ks) q =
    chosen (canonical_header_key k) (canonical_header_key q) (vals k) [] ++ gathered vals ks q

abbrev add_every : (Bytes → List Bytes) → List Bytes → Header → Header
add_every vals [] h = h
add_every vals (k ∷ ks) h = add_every vals ks (add_all k (vals k) h)

values-add_all :
    (k : Bytes) (vs : List Bytes) (h : Header) (q : Bytes)
    → values q (add_all k vs h)
      ≡ values q h ++ chosen (canonical_header_key k) (canonical_header_key q) vs []
values-add_all k vs h q =
    elim (Bool-cases (same (canonical_header_key k) (canonical_header_key q))) [
      | inl e ↦ here k vs h q e ∙ rw e refl
      | inr e ↦ away k vs h q e ∙ rw e (sym (append-nil (values q h)))
    ]
  where
    here :
        (k : Bytes) (vs : List Bytes) (h : Header) (q : Bytes)
        → same (canonical_header_key k) (canonical_header_key q) ≡ true
        → values q (add_all k vs h) ≡ values q h ++ vs
    here k [] h q e = sym (append-nil (values q h))
    here k (v ∷ vs) h q e =
        here k vs (add k v h) q e
        ∙ ap (λ xs. xs ++ vs) ((values-Updates k v h).after_add q ∙ rw e refl)
        ∙ append_assoc (values q h) (v ∷ []) vs

    away :
        (k : Bytes) (vs : List Bytes) (h : Header) (q : Bytes)
        → same (canonical_header_key k) (canonical_header_key q) ≡ false
        → values q (add_all k vs h) ≡ values q h
    away k [] h q e = refl
    away k (v ∷ vs) h q e =
        away k vs (add k v h) q e ∙ (values-Updates k v h).after_add q ∙ rw e refl

values-add_every :
    (vals : Bytes → List Bytes) (ks : List Bytes) (h : Header) (q : Bytes)
    → values q (add_every vals ks h) ≡ values q h ++ gathered vals ks q
values-add_every vals [] h q = sym (append-nil (values q h))
values-add_every vals (k ∷ ks) h q =
    values-add_every vals ks (add_all k (vals k) h) q
    ∙ ap (λ xs. xs ++ gathered vals ks q) (values-add_all k (vals k) h q)
    ∙ append_assoc (values q h) _ (gathered vals ks q)

values_nil : (q : Bytes) → values q [] ≡ []
unfolding values entry
values_nil q = refl

-- A host that keeps its promises for the names and for the values of each name. `names` and
-- `vals k` are what stands behind the first cursor.
pub record Faithful (limit rounds : ℕ) (names : List Bytes) (vals : Bytes → List Bytes) (s : Source)
    : Type 0 where
  pub rest_names : ℕ → List Bytes
  pub rest_vals : Bytes → ℕ → List Bytes
  pub all_names : rest_names 0 ≡ names
  pub all_vals : (k : Bytes) → rest_vals k 0 ≡ vals k
  pub few_names : length names < rounds
  pub few_vals : (k : Bytes) → length (vals k) < rounds
  pub honest_names : Honest limit rest_names s.names
  pub honest_vals : (k : Bytes) → Honest limit (rest_vals k) (s.values_of k)

module _ {limit rounds fuel : ℕ} {names : List Bytes} {vals : Bytes → List Bytes} {s : Source}
    (f : Faithful limit rounds names vals s) (lt : limit < fuel) where
  read_values-Faithful :
      (context : String) (k : Bytes) (h : Header)
      → read_values rounds fuel s context k h ≡ some (ok (add_all k (vals k) h))
  unfolding read_values
  read_values-Faithful context k h =
      let (end, e, good) =
        iterate-Honest (f.honest_vals k) large_buf_len rounds fuel
          (rw (f.all_vals k) (f.few_vals k)) lt in
      rw (e, read_values) (rw (good, checked) (rw (f.all_vals k) refl))

  read_names-Faithful :
      (context : String) (ks : List Bytes) (h : Header)
      → read_names rounds fuel s context ks h ≡ some (ok (add_every vals ks h))
  unfolding read_names
  read_names-Faithful context [] h = refl
  read_names-Faithful context (k ∷ ks) h =
      rw (read_values-Faithful context k h, read_names)
        (read_names-Faithful context ks (add_all k (vals k) h))

  read_header-Faithful :
      (context : String) (outer : GoError → GoError)
      → read_header rounds fuel s context outer ≡ some (ok (add_every vals names []))
  unfolding read_header
  read_header-Faithful context outer =
      let (end, e, good) =
        iterate-Honest f.honest_names medium_buf_len rounds fuel (rw f.all_names f.few_names) lt in
      rw (e, read_header)
        (rw f.all_names (rw (read_names-Faithful context names []) (rw (good, checked) refl)))

-- Where the host keeps its promises, `newResponse` succeeds, and its header has under every key the
-- values of the names with the same canonical form: all of them, in the host's order, and no
-- others, however the host cuts names and values into answers.
pub new_response-values :
    {limit rounds fuel : ℕ} {names : List Bytes} {vals : Bytes → List Bytes} {s : Source} (code : ℕ)
    → Faithful limit rounds names vals s
    → limit < fuel
    → (h : Header) × (new_response rounds fuel s (ok code) ≡ some (ok (code, h)))
      × ((q : Bytes) → values q h ≡ gathered vals names q)
unfolding new_response
new_response-values {names = names} {vals = vals} code f lt = (
  _,
  rw (read_header-Faithful f lt "read header key" (wrap "read header keys"), new_response) refl,
  λ q. values-add_every vals names [] q ∙ ap (λ vs. vs ++ gathered vals names q) (values_nil q),
)
