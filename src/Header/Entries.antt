-- ===== src/Header/Entries.antt =====
-- What an operation on one key does to the values of every key.
use compute_sdk_go.Common.{
  ◌≡◌, refl, ap, ◌∙◌, inl, inr, Bool, true, false, List, [], ◌∷◌, ◌++◌, arith, Bytes, same,
  Bool-cases, if◌then◌else◌, sym,
}
use mathlib.Core.Bool.{false≢true}
use compute_sdk_go.Header.{Header, entry, put, delete, values, add, set, del, canonical_header_key}
use compute_sdk_go.Header.Keys.{same_refl, same_sound}

abbrev pub chosen {ℓ} : {A : Type ℓ} → Bytes → Bytes → A → A → A
chosen key q x y = if same key q then x else y

same_other : (k key q : Bytes) → same k key ≡ false → same k q ≡ true → same key q ≡ false
same_other k key q h e = elim (Bool-cases (same key q)) [
  | inl f ↦
      let p = same_sound k q e in
      let r = same_sound key q f in
      let s = same_refl q in
      absurd (false≢true (sym h ∙ ap (λ t. same t key) p ∙ ap (same q) r ∙ s))
  | inr f ↦ f
]

entry-put :
    (key q : Bytes) (vs : List Bytes) (h : Header)
    → entry q (put key vs h) ≡ chosen key q vs (entry q h)
unfolding entry put
entry-put key q vs [] = refl
entry-put key q vs ((k, old) ∷ h) = elim (Bool-cases (same k key)) [
  | inl e ↦ rw e (rw (same_sound k key e) (ground arith))
  | inr e ↦ elim (Bool-cases (same k q)) [
    | inl f ↦ rw e (rw f (rw (same_other k key q e f) refl))
    | inr f ↦ rw e (rw f (entry-put key q vs h))
  ]
]

entry-delete : (key q : Bytes) (h : Header) → entry q (delete key h) ≡ chosen key q [] (entry q h)
unfolding entry delete
entry-delete key q [] = ground arith
entry-delete key q ((k, old) ∷ h) = elim (Bool-cases (same k key)) [
  | inl e ↦
      rw e
        (rw (same_sound k key e) (entry-delete key q h ∙ drop_again (same key q) old (entry q h)))
  | inr e ↦ elim (Bool-cases (same k q)) [
    | inl f ↦ rw e (rw f (rw (same_other k key q e f) refl))
    | inr f ↦ rw e (rw f (entry-delete key q h))
  ]
]
  where
    drop_again :
        (b : Bool) (x y : List Bytes)
        → (if b then [] else y) ≡ (if b then [] else (if b then x else y))
    drop_again true x y = refl
    drop_again false x y = refl

-- The values of every key after a call of `Add`, `Set` or `Del`.
pub record Updates (key value : Bytes) (h : Header) : Type 0 where
  pub after_add :
      (q : Bytes)
      → values q (add key value h)
        ≡ chosen
            (canonical_header_key key)
            (canonical_header_key q)
            (values q h ++ value ∷ [])
            (values q h)
  pub after_set :
      (q : Bytes)
      → values q (set key value h)
        ≡ chosen (canonical_header_key key) (canonical_header_key q) (value ∷ []) (values q h)
  pub after_del :
      (q : Bytes)
      → values q (del key h)
        ≡ chosen (canonical_header_key key) (canonical_header_key q) [] (values q h)

-- `Add`, `Set` and `Del` change the values of their own key only, however the key is spelled: one
-- value more at the end, the one value, or none.
pub values-Updates : (key value : Bytes) (h : Header) → Updates key value h
unfolding values add set del
values-Updates key value h = record {
  after_add = λ q.
      entry-put (canonical_header_key key) (canonical_header_key q) _ h
      ∙ at_key (canonical_header_key key) (canonical_header_key q);
  after_set = λ q. entry-put (canonical_header_key key) (canonical_header_key q) (value ∷ []) h;
  after_del = λ q. entry-delete (canonical_header_key key) (canonical_header_key q) h;
}
  where
    at_key :
        (k q : Bytes)
        → chosen k q (entry k h ++ value ∷ []) (entry q h)
          ≡ chosen k q (entry q h ++ value ∷ []) (entry q h)
    at_key k q = elim (Bool-cases (same k q)) [
      | inl e ↦ rw (same_sound k q e) refl
      | inr e ↦ rw e refl
    ]
