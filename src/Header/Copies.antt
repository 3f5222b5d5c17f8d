-- ===== src/Header/Copies.antt =====
-- `Apply`, `Clone` and `Reset`: the values that a header takes from another.
use compute_sdk_go.Common.{
  ◌≡◌, refl, ap, ◌∙◌, inl, inr, Bool, true, false, ◌||◌, List, [], ◌∷◌, ◌++◌, append-nil,
  append_assoc, arith, Bytes, same, Bool-cases, if◌then◌else◌, sym,
}
use compute_sdk_go.Header.{
  Header, entry, keys, values, add, del, canonical_header_key, add_all, apply_keys, apply, clone,
  reset, del_keys,
}
use compute_sdk_go.Header.Keys.{same_sound}
use compute_sdk_go.Header.Entries.{chosen, values-Updates}

-- A key that stands in the header in its canonical form.
abbrev pub IsCanonicalKey : Bytes → Type 0
IsCanonicalKey key = canonical_header_key key ≡ key

abbrev pub AllCanonicalKeys : List Bytes → Type 0
AllCanonicalKeys [] = Unit {0}
AllCanonicalKeys (k ∷ ks) = IsCanonicalKey k × AllCanonicalKeys ks

abbrev pub AllCanonical : Header → Type 0
AllCanonical h = AllCanonicalKeys (keys h)

abbrev pub among : Bytes → List Bytes → Bool
among q [] = false
among q (k ∷ ks) = same k q || among q ks

values-add_all :
    (key q : Bytes) (vs : List Bytes) (h : Header)
    → values q (add_all key vs h)
      ≡ chosen (canonical_header_key key) (canonical_header_key q) (values q h ++ vs) (values q h)
values-add_all key q [] h = rw append-nil (ground arith)
values-add_all key q (v ∷ vs) h =
    values-add_all key q vs (add key v h)
    ∙ (elim (Bool-cases (same (canonical_header_key key) (canonical_header_key q))) [
      | inl e ↦ rw e (
          ap (λ l. l ++ vs) ((values-Updates key v h).after_add q ∙ rw e refl)
          ∙ append_assoc (values q h) (v ∷ []) vs)
      | inr e ↦ rw e ((values-Updates key v h).after_add q ∙ rw e refl)
    ])

-- A header without values for the keys that are deleted or replaced.
values_replaced :
    (key q : Bytes) (vs : List Bytes) (h : Header)
    → values q (add_all key vs (del key h))
      ≡ chosen (canonical_header_key key) (canonical_header_key q) vs (values q h)
values_replaced key q vs h =
    values-add_all key q vs (del key h)
    ∙ (elim (Bool-cases (same (canonical_header_key key) (canonical_header_key q))) [
      | inl e ↦
          let none_left : values q (del key h) ≡ [] =
            (values-Updates key [] h).after_del q ∙ rw e refl in
          rw e (ap (λ l. l ++ vs) none_left)
      | inr e ↦ rw e ((values-Updates key [] h).after_del q ∙ rw e refl)
    ])

values_of_key :
    (key q : Bytes) (hs : Header)
    → same (canonical_header_key key) (canonical_header_key q) ≡ true
    → values key hs ≡ values q hs
unfolding values
values_of_key key q hs e = ap (λ k. entry k hs) (same_sound _ _ e)

values-apply_keys :
    (ks : List Bytes) (q : Bytes) (hs h : Header)
    → AllCanonicalKeys ks
    → values q (apply_keys ks hs h)
      ≡ (if among (canonical_header_key q) ks then values q hs else values q h)
values-apply_keys [] q hs h c = refl
values-apply_keys (k ∷ ks) q hs h (ck, c) =
    values-apply_keys ks q hs (add_all k (values k hs) (del k h)) c
    ∙ ap (λ v. if among (canonical_header_key q) ks then values q hs else v)
        (values_replaced k q (values k hs) h)
    ∙ ap
        (λ t.
          if among (canonical_header_key q) ks
          then values q hs
          else chosen t (canonical_header_key q) (values k hs) (values q h))
        ck
    ∙ merged (same k (canonical_header_key q)) refl (among (canonical_header_key q) ks)
  where
    merged :
        (b : Bool)
        → same k (canonical_header_key q) ≡ b
        → (m : Bool)
        → (if m then values q hs else (if b then values k hs else values q h))
          ≡ (if b || m then values q hs else values q h)
    merged true e true = refl
    merged true e false = values_of_key k q hs (rw ck e)
    merged false e m = refl

-- `Apply` gives every key that the other header has the values there, whatever stood under it
-- before, and leaves the values of all other keys alone, in whatever order the keys are visited, if
-- the keys of the other header are canonical.
pub values-apply :
    (hs h : Header)
    → AllCanonical hs
    → (q : Bytes)
    → values q (apply hs h)
      ≡ (if among (canonical_header_key q) (keys hs) then values q hs else values q h)
unfolding apply
values-apply hs h c q = values-apply_keys (keys hs) q hs h c

entry_of_absent : (q : Bytes) (h : Header) → among q (keys h) ≡ false → entry q h ≡ []
unfolding entry
entry_of_absent q [] e = refl
entry_of_absent q ((k, vs) ∷ h) e = ground (arith, entry_of_absent q h)

values-del_keys :
    (ks : List Bytes) (q : Bytes) (h : Header)
    → AllCanonicalKeys ks
    → values q (del_keys ks h) ≡ (if among (canonical_header_key q) ks then [] else values q h)
values-del_keys [] q h c = refl
values-del_keys (k ∷ ks) q h (ck, c) =
    values-del_keys ks q (del k h) c
    ∙ ap (λ v. if among (canonical_header_key q) ks then [] else v)
        ((values-Updates k [] h).after_del q)
    ∙ ap
        (λ t.
          if among (canonical_header_key q) ks
          then []
          else chosen t (canonical_header_key q) [] (values q h))
        ck
    ∙ merged (same k (canonical_header_key q)) (among (canonical_header_key q) ks)
  where
    merged :
        (b m : Bool)
        → (if m then [] else (if b then [] else values q h)) ≡ (if b || m then [] else values q h)
    merged true true = refl
    merged true false = refl
    merged false m = refl

values_of_absent :
    (q : Bytes) (h : Header) → among (canonical_header_key q) (keys h) ≡ false → values q h ≡ []
unfolding values
values_of_absent q h e = entry_of_absent (canonical_header_key q) h e

cleared : (q : Bytes) (h : Header) → AllCanonical h → values q (del_keys (keys h) h) ≡ []
cleared q h c =
    values-del_keys (keys h) q h c ∙ (elim (Bool-cases (among (canonical_header_key q) (keys h))) [
      | inl e ↦ rw e refl
      | inr e ↦ rw e (values_of_absent q h e)
    ])

copied :
    (hs h : Header) (q : Bytes)
    → values q h ≡ []
    → (if among (canonical_header_key q) (keys hs) then values q hs else values q h) ≡ values q hs
copied hs h q e = elim (Bool-cases (among (canonical_header_key q) (keys hs))) [
  | inl f ↦ rw f refl
  | inr f ↦ rw f (e ∙ sym (values_of_absent q hs f))
]

-- After `Reset` a header has the values of the other header and no more, for every key, and a
-- `Clone` has those of its original, if the keys are canonical.
pub values-reset :
    (hs h : Header)
    → AllCanonical hs
    → AllCanonical h
    → (q : Bytes) → (values q (reset hs h) ≡ values q hs) × (values q (clone hs) ≡ values q hs)
unfolding reset clone values entry
values-reset hs h cs c q = (
  values-apply hs (del_keys (keys h) h) cs q ∙ copied hs (del_keys (keys h) h) q (cleared q h c),
  values-apply hs [] cs q ∙ copied hs [] q refl,
)
