-- ===== src/Buffers/Writes.antt =====
-- The loop of `Write` ends, and says truly what it has written.
use compute_sdk_go.Common.{
  ℕ, zero, suc, ◌+◌, ◌-◌, ◌<◌, ◌≤◌, ◌≡◌, refl, sym, ap, ◌∙◌, ◌↔◌, inl, inr, true, false, List, [],
  ◌∷◌, ◌++◌, append_assoc, append-nil, length-drop, none, some, arith, ltb, Bool-cases,
  Option-cases, Bytes, length, take, drop,
}
use compute_sdk_go.Abi.Errors.{GoError, to_error}
use compute_sdk_go.Buffers.{Taken, Written, write_loop, write}

-- A host that takes something of what it is given, and no more than that, or fails.
abbrev pub Takes : (ℕ → Bytes → Taken) → Type 0
Takes host =
    (i : ℕ) (p : Bytes)
    → 0 < length p
    → to_error (host i p).status ≡ none
    → (0 < (host i p).nwritten) × ((host i p).nwritten ≤ length p)

abbrev pub joined : List Bytes → Bytes
joined [] = []
joined (x ∷ xs) = x ++ joined xs

-- What `Write` returns from the position `n` on.
pub record Tells (p : Bytes) (n : ℕ) (w : Written) : Type 0 where
  pub from : n ≤ w.n
  pub within : w.n ≤ length p
  pub error_iff : (w.error ≡ none) ↔ (w.n ≡ length p)
  pub none_lost : take n p ++ joined w.pieces ≡ take w.n p

take-add : (a b : ℕ) (p : Bytes) → take a p ++ take b (drop a p) ≡ take (a + b) p
take-add zero b p = ap (λ (k : ℕ). take k p) (omega arith)
take-add (suc a) zero [] = ap (λ (k : ℕ). take k []) (let e : suc a ≡ suc a + 0 = omega arith in e)
take-add (suc a) (suc b) [] =
    ap (λ (k : ℕ). take k []) (let e : suc (a + suc b) ≡ suc a + suc b = omega arith in e)
take-add (suc a) b (x ∷ p) =
    ap (λ r. x ∷ r) (take-add a b p)
    ∙ ap (λ (k : ℕ). take k (x ∷ p)) (let e : suc (a + b) ≡ suc a + b = omega arith in e)

module _ (host : ℕ → Bytes → Taken) (p : Bytes) where
  write_ends :
      (fuel i n : ℕ)
      → ltb n (length p) ≡ false
      → write_loop host (suc fuel) i p n ≡ some (record { n = n; error = none; pieces = [] })
  unfolding write_loop
  write_ends fuel i n e = rw e refl

  write_fails :
      (fuel i n : ℕ) (x : GoError)
      → ltb n (length p) ≡ true
      → to_error (host i (drop n p)).status ≡ some x
      → write_loop host (suc fuel) i p n ≡ some (record { n = n; error = some x; pieces = [] })
  unfolding write_loop
  write_fails fuel i n x e f = ground (arith, e, f)

  write_goes :
      (fuel i n : ℕ) (w : Written)
      → ltb n (length p) ≡ true
      → to_error (host i (drop n p)).status ≡ none
      → write_loop host fuel (i + 1) p (n + (host i (drop n p)).nwritten) ≡ some w
      → write_loop host (suc fuel) i p n
        ≡ some (record w { pieces = take (host i (drop n p)).nwritten (drop n p) ∷ w.pieces })
  unfolding write_loop
  write_goes fuel i n w e f g = ground (arith, e, f, g)

  write_loop-Tells :
      Takes host
      → (fuel i n : ℕ) → n ≤ length p
      → length p - n < fuel
      → (w : Written) × (write_loop host fuel i p n ≡ some w) × Tells p n w
  write_loop-Tells takes zero i n le lt = absurd (omega arith)
  write_loop-Tells takes (suc fuel) i n le lt = elim (Bool-cases (ltb n (length p))) [
    | inr e ↦ (
      _,
      write_ends fuel i n e,
      record {
        from = omega arith;
        within = le;
        error_iff = (λ _. ground arith, λ _. refl);
        none_lost = append-nil (take n p);
      },
    )
    | inl e ↦ elim (Option-cases (to_error (host i (drop n p)).status)) [
      | inr (x, f) ↦ (
        _,
        write_fails fuel i n x e f,
        record {
          from = omega arith;
          within = le;
          error_iff = (λ q. cc, λ q. ground arith);
          none_lost = append-nil (take n p);
        },
      )
      | inl f ↦
          let short : n < length p = ground arith in
          let (some_bytes, not_more) = takes i (drop n p) (omega (arith, length-drop n p)) f in
          let (w, g, t) =
            write_loop-Tells takes fuel (i + 1) (n + (host i (drop n p)).nwritten)
              (omega (arith, length-drop n p)) (omega (arith, length-drop n p)) in
          (
            _,
            write_goes fuel i n w e f g,
            record {
              from = omega (arith, t.from);
              within = t.within;
              error_iff = t.error_iff;
              none_lost =
                  sym (
                    append_assoc (take n p) (take (host i (drop n p)).nwritten (drop n p))
                      (joined w.pieces))
                  ∙ ap (λ xs. xs ++ joined w.pieces) (take-add n (host i (drop n p)).nwritten p)
                  ∙ t.none_lost;
            },
          )
    ]
  ]

-- `Write` ends after as many rounds as there are bytes, and one more, where the host takes at
-- least a byte in every call that does not fail, and no more than it is given. Then the number that
-- it returns is the number of bytes taken, the pieces that the host has taken are the beginning of
-- the text in order, and there is no error just where all of it is taken.
pub write-Tells :
    (host : ℕ → Bytes → Taken) (p : Bytes) (fuel : ℕ)
    → Takes host
    → length p < fuel
    → (w : Written) × (write host fuel p ≡ some w) × Tells p 0 w
unfolding write
write-Tells host p fuel takes lt =
    write_loop-Tells host p takes fuel 0 0 (omega arith) (omega arith)
