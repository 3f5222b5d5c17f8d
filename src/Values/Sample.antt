-- ===== src/Values/Sample.antt =====
-- A host that keeps its promises: it hands one value out at a time.
use compute_sdk_go.Common.{
  ℕ, zero, suc, ◌+◌, ◌^◌, ◌<◌, ◌≤◌, ◌≡◌, refl, sym, ap, ◌∙◌, inl, inr, List, [], ◌∷◌, ◌++◌, arith,
  ltb, if◌then◌else◌, Bytes, Bool-cases, length, take, drop,
}
use compute_sdk_go.Common.Int.{pos, negsuc}
use compute_sdk_go.Abi.Status.{status_ok, status_buf_len}
use compute_sdk_go.Values.{Answer, MultiValueHostcall}
use compute_sdk_go.Values.Contract.{terminated, Clear, Serves, grows, ends, goes_on, Honest}

-- The answer where `vs` stands behind the cursor.
abbrev pub answer_one : ℕ → ℕ → List Bytes → Answer
answer_one capacity c [] = record {
  status = status_ok;
  nwritten = 0;
  buffer = [];
  ending = negsuc 0;
}
answer_one capacity c (v ∷ vs) =
    if ltb capacity (length (v ++ 0 ∷ []))
    then record {
      status = status_buf_len;
      nwritten = length (v ++ 0 ∷ []);
      buffer = [];
      ending = pos 0;
    }
    else record {
      status = status_ok;
      nwritten = length (v ++ 0 ∷ []);
      buffer = v ++ 0 ∷ [];
      ending = pos (c + 1);
    }

abbrev pub one_by_one : List Bytes → MultiValueHostcall
one_by_one vs capacity c = answer_one capacity c (drop c vs)

-- No value needs more than `limit` bytes.
abbrev pub Fit : ℕ → List Bytes → Type 0
Fit limit [] = Unit {0}
Fit limit (v ∷ vs) = (length (v ++ 0 ∷ []) ≤ limit) × Fit limit vs

take_all : (xs : Bytes) → take (length xs) xs ≡ xs
take_all [] = refl
take_all (x ∷ xs) = ap (λ r. x ∷ r) (take_all xs)

drop_next :
    (c : ℕ) (vs : List Bytes) (v : Bytes) (more : List Bytes)
    → drop c vs ≡ v ∷ more
    → (drop (suc c) vs ≡ more) × (c < length vs)
drop_next zero [] v more e = cc
drop_next zero (w ∷ vs) v more e = (ground arith, omega arith)
drop_next (suc c) [] v more e = cc
drop_next (suc c) (w ∷ vs) v more e = let (d, l) = drop_next c vs v more e in (d, omega arith)

drop-Clear : (c : ℕ) (vs : List Bytes) → Clear vs → Clear (drop c vs)
drop-Clear zero vs h = h
drop-Clear (suc c) [] h = tt
drop-Clear (suc c) (v ∷ vs) h = drop-Clear c vs h.1

drop-Fit : (limit c : ℕ) (vs : List Bytes) → Fit limit vs → Fit limit (drop c vs)
drop-Fit limit zero vs h = h
drop-Fit limit (suc c) [] h = tt
drop-Fit limit (suc c) (v ∷ vs) h = drop-Fit limit c vs h.1

answer_one-Serves :
    (limit capacity c : ℕ) (vs rest : List Bytes)
    → length vs < 2 ^ 32
    → drop c vs ≡ rest
    → Fit limit rest
    → Serves limit (λ k. drop k vs) capacity c (answer_one capacity c rest)
answer_one-Serves limit capacity c vs [] small e fit = ends refl refl (ap terminated (sym e))
answer_one-Serves limit capacity c vs (v ∷ more) small e fit =
    elim (Bool-cases (ltb capacity (length (v ++ 0 ∷ [])))) [
      | inl short ↦ rw short (grows refl (ground arith) fit.0)
      | inr long ↦
          let (d, l) = drop_next c vs v more e in
          let to_next : c + 1 ≡ suc c = omega arith in
          rw long (
            goes_on v [] (c + 1) refl refl (omega arith)
              (e ∙ ap (λ r. v ∷ r) (sym (ap (λ (k : ℕ). drop k vs) to_next ∙ d)))
              (take_all (v ++ 0 ∷ [])))
    ]

pub one_by_one-Honest :
    (limit : ℕ) (vs : List Bytes)
    → length vs < 2 ^ 32
    → Fit limit vs
    → Clear vs
    → Honest limit (λ k. drop k vs) (one_by_one vs)
one_by_one-Honest limit vs small fit clear = record {
  serves = λ capacity c.
      answer_one-Serves limit capacity c vs (drop c vs) small refl (drop-Fit limit c vs fit);
  clear = λ c. drop-Clear c vs clear;
}
