-- ===== src/CoreCache/Lookups/Handles.antt =====
-- The entries that `Lookup` and `NewTransaction` open: handed on, or closed.
use compute_sdk_go.Common.{
  ℕ, ◌≡◌, refl, sym, ◌∙◌, true, List, [], ◌∷◌, Option, none, some, Bytes, inl, inr, Option-cases,
  Bool-cases,
}
use compute_sdk_go.Abi.Status.{lookup_found}
use compute_sdk_go.Abi.Errors.{Result, ok, err, to_error, Result-cases}
use compute_sdk_go.Abi.Answers.{Answer, first_refused, judged}
use compute_sdk_go.CoreCache.{
  done≢fails, Error, not_found, other, Try, done, fails, Entry, Found, new_found, has_bit, Call,
  close_entry,
}
use compute_sdk_go.CoreCache.Fields.{new_found_lem, found_of, field_tests, refused_with}
use compute_sdk_go.CoreCache.Options.{LookupOptions, AbiLookupOptions, abi_lookup_options}
use compute_sdk_go.CoreCache.Lookups.{
  Cache, Returned, returns, close_on_error, lookup, look_into, fastly_fails,
}

-- The entry that a call of the host opens.
unfoldable pub opened : (AbiLookupOptions → Answer Entry) → Result AbiLookupOptions → Option Entry
unfolding to_error
opened call (err x) = none
opened call (ok abi) =
    let a = call abi in elim (to_error a.status) [ some x ↦ none | none ↦ some a.value ]

abbrev pub closes : Option Entry → List Call
closes none = []
closes (some e) = close_entry e.h ∷ []

-- An object that was found in the entry that was opened.
abbrev pub FoundIn : Bytes → Option Entry → Found → Type 0
FoundIn key none f = ⊥
FoundIn key (some e) f =
    (f.abi_entry ≡ e)
    × (f.key ≡ key)
    × (f.state ≡ e.get_state.value)
    × (has_bit f.state lookup_found ≡ true)

-- What a lookup comes to, where this entry was opened.
abbrev pub Settled : Bytes → Option Entry → Returned Found → Type 0
Settled key o r =
    ((f : Found) → r.result ≡ done f → (r.calls ≡ []) × FoundIn key o f)
    × ((x : Error) → r.result ≡ fails x → r.calls ≡ closes o)

judged_done : (o : Option ℕ) (f g : Found) → judged refused_with (done g) o ≡ done f → f ≡ g
judged_done none f g e = cc
judged_done (some s) f g e = absurd (done≢fails (sym e))

new_found-found_of :
    (key : Bytes) (e : Entry) (state from to : ℕ) (f : Found)
    → new_found key e state from to ≡ done f
    → f ≡ found_of key e state from to
new_found-found_of key e state from to f h =
    judged_done (first_refused (field_tests e from to)) f (found_of key e state from to)
      (sym (new_found_lem key e state from to) ∙ h)

look_into-FoundIn :
    (key : Bytes) (opts : LookupOptions) (e : Entry) (f : Found)
    → look_into key opts e ≡ done f
    → FoundIn key (some e) f
unfolding look_into
look_into-FoundIn key opts e f h = elim (Option-cases (to_error e.get_state.status)) [
  | inr (x, q) ↦
      let n : look_into key opts e ≡ fastly_fails x = rw (q, look_into) refl in
      absurd (done≢fails (sym h ∙ n))
  | inl q ↦ elim (Bool-cases (has_bit e.get_state.value lookup_found)) [
    | inl b ↦
        let n =
          new_found-found_of key e e.get_state.value opts.from opts.to f
            (sym (rw (q, look_into, b) refl) ∙ h) in
        rw n (refl, refl, refl, b)
    | inr b ↦
        let n : look_into key opts e ≡ fails not_found = rw (q, look_into, b) refl in
        absurd (done≢fails (sym h ∙ n))
  ]
]

close_on_error-Settled :
    (key : Bytes) (e : Entry) (t : Try Found)
    → ((f : Found) → t ≡ done f → FoundIn key (some e) f)
    → Settled key (some e) (close_on_error e t)
close_on_error-Settled key e (done f) h = (λ g q. (refl, h g q), λ x q. absurd (done≢fails q))
close_on_error-Settled key e (fails x) h = (λ f q. absurd (done≢fails (sym q)), λ y q. refl)

-- `Lookup` hands on the entry that the host has opened, with its state, if that says "found";
-- otherwise it fails, and on every failure it has closed the entry once, if there was one.
pub lookup-Settled :
    (cache : Cache) (key : Bytes) (opts : LookupOptions)
    → Settled key
        (opened (cache.lookup key) (abi_lookup_options cache.requests opts))
        (lookup cache key opts)
unfolding lookup opened
lookup-Settled cache key opts = elim (Result-cases (abi_lookup_options cache.requests opts)) [
  | inr (x, q) ↦
      let l : lookup cache key opts ≡ returns [] (fails (other x)) = rw (q, lookup) refl in
      rw (l, q) (λ f h. absurd (done≢fails (sym h)), λ y h. refl)
  | inl (abi, q) ↦ elim (Option-cases (to_error (cache.lookup key abi).status)) [
    | inr (x, p) ↦
        let l : lookup cache key opts ≡ returns [] (fastly_fails x) = rw (q, lookup, p) refl in
        let o : opened (cache.lookup key) (ok abi) ≡ none = rw (p, opened) refl in
        rw (l, q, o) (λ f h. absurd (done≢fails (sym h)), λ y h. refl)
    | inl p ↦
        let e = (cache.lookup key abi).value in
        let l : lookup cache key opts ≡ close_on_error e (look_into key opts e) =
          rw (q, lookup, p) refl in
        let o : opened (cache.lookup key) (ok abi) ≡ some e = rw (p, opened) refl in
        rw (l, q, o)
          (close_on_error-Settled key e (look_into key opts e) (look_into-FoundIn key opts e))
  ]
]
