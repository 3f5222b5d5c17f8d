-- ===== src/SimpleCache/Writing.antt =====
-- The writer by way of which `GetOrSet` stores an object.
use compute_sdk_go.Common.{
  ℕ, suc, ◌≡◌, refl, sym, List, [], ◌∷◌, ◌++◌, Option, none, some, Bytes, ◌==◌, if◌then◌else◌,
  arith, inl, inr, Option-cases,
}
use compute_sdk_go.Abi.Errors.{GoError, to_error}
use compute_sdk_go.CoreCache.{
  Error, done, fails, done≢fails, Found, Call, close_body, abandon_body, write_body,
}
use compute_sdk_go.CoreCache.Lookups.{Returned}
use compute_sdk_go.SimpleCache.{CacheEntry, Writer, io_copy, copied, write_entry}

-- How often the insertion by way of the handle `w` is abandoned.
abbrev pub abandonings : ℕ → List Call → ℕ
abandonings w [] = 0
abandonings w (abandon_body k ∷ cs) =
    let rest = abandonings w cs in if k == w then suc rest else rest
abandonings w (_ ∷ cs) = abandonings w cs

abbrev pub LastIsClose : ℕ → List Call → Type 0
LastIsClose w cs = (front : List Call) × (cs ≡ front ++ close_body w ∷ [])

same_handle : (w : ℕ) → ◌≡◌ {A = ℕ} (if w == w then 1 else 0) 1
same_handle w = ground arith

-- What is stated of the calls and the result behind a copy.
abbrev Ends : ℕ → Found → Returned (Option ℕ) → Type 0
Ends w f r =
    ((b : Option ℕ) → r.result ≡ done b → (b ≡ f.body) × (abandonings w r.calls ≡ 0))
    × ((x : Error) → r.result ≡ fails x → abandonings w r.calls ≡ 1)
    × LastIsClose w r.calls

copied-Ends :
    (writer : Writer) (w : ℕ) (f : Found) (p : Bytes × Option GoError)
    → Ends w f (copied writer w f p)
copied-Ends writer w f (bs, some x) = (
  λ b e. absurd (done≢fails (sym e)),
  λ y e. same_handle w,
  (write_body w bs ∷ abandon_body w ∷ [], refl),
)
copied-Ends writer w f (bs, none) = elim (Option-cases (to_error (writer.close_status w))) [
  | inr (x, p) ↦
      rw (p, copied)
        (
          λ b e. absurd (done≢fails (sym e)),
          λ y e. same_handle w,
          (write_body w bs ∷ close_body w ∷ abandon_body w ∷ [], refl),
        )
  | inl p ↦
      rw (p, copied)
        (
          λ b e. (cc, refl),
          λ y e. absurd (done≢fails e),
          (write_body w bs ∷ close_body w ∷ [], refl),
        )
]

-- Where the object is written, an insertion that `GetOrSet` reports as a success is not abandoned
-- and gives the body that is read back; one that fails is abandoned, once; and the handle of the
-- writer is closed last on every path.
pub write_entry_lem :
    (writer : Writer) (entry : CacheEntry) (w : ℕ) (f : Found)
    → let r = write_entry writer entry w f in
      ((b : Option ℕ) → r.result ≡ done b → (b ≡ f.body) × (abandonings w r.calls ≡ 0))
      × ((x : Error) → r.result ≡ fails x → abandonings w r.calls ≡ 1)
      × LastIsClose w r.calls
unfolding write_entry
write_entry_lem writer entry w f = copied-Ends writer w f (io_copy writer w entry)
