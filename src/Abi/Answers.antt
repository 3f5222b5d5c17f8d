-- ===== src/Abi/Answers.antt =====
-- internal/abi/fastly: what the guest sees of a host call that answers a value, and the calls that
-- are made in a row until one fails.
use compute_sdk_go.Common.{
  ℕ, ◌≡◌, ◌∙◌, Bool, true, false, ◌||◌, List, [], ◌∷◌, Option, none, some, ◌==◌, if◌then◌else◌,
  arith,
}
use compute_sdk_go.Abi.Status.{status_ok, status_none}
use compute_sdk_go.Abi.Errors.{
  GoError, fastly, Result, ok, err, ◌>>=◌, to_error, is_fastly_error, ignore_none_error,
}

-- A status, and what the call has written.
pub record Answer {ℓ} (A : Type ℓ) : Type ℓ where
  pub status : ℕ
  pub value : A

-- The value of a call, where a failed one has the zero value; and its error, which `ignore` lets go
-- or keeps.
abbrev pub checked {ℓ κ} :
    {A : Type ℓ} {B : Type κ}
    → (Option GoError → Option GoError)
    → B
    → (A → B)
    → Answer A
    → Result B
checked ignore zero_value f a =
    let e = to_error a.status in
    elim (ignore e) [
      | some kept ↦ err kept
      | none ↦ ok (elim e [ none ↦ f a.value | some _ ↦ zero_value ])
    ]

-- The value where the call succeeded, else the zero value.
abbrev pub answered {ℓ κ} : {A : Type ℓ} {B : Type κ} → B → (A → B) → Answer A → B
answered zero_value f a = if a.status == status_ok then f a.value else zero_value

-- The answers "none" stand for a value that is not set.
abbrev pub missing_or_ok : ℕ → Bool
missing_or_ok s = s == status_ok || s == status_none

-- The first status that fails its test.
abbrev pub first_refused : List (ℕ × Bool) → Option ℕ
first_refused [] = none
first_refused ((s, fine) ∷ l) = let rest = first_refused l in if fine then rest else some s

abbrev pub judged {ℓ} : {R : Type ℓ} → (ℕ → R) → R → Option ℕ → R
judged bad good none = good
judged bad good (some s) = bad s

-- The result is what the tests say: `bad` of the first status that fails, else `good`.
pub record Agrees {ℓ} {R : Type ℓ} (bad : ℕ → R) (good r : R) (l : List (ℕ × Bool)) : Type ℓ where
  pub same_result : r ≡ judged bad good (first_refused l)

pub substitute_result {ℓ} :
    {R : Type ℓ} {bad : ℕ → R} {good : R} (r r' : R) {l : List (ℕ × Bool)}
    → r ≡ r'
    → Agrees bad good r' l
    → Agrees bad good r l
substitute_result r r' e j = record { same_result = e ∙ j.same_result }

-- A check stops at a status that fails, and else goes on where the rest of the tests decides.
pub first_refused-Agrees {ℓ} :
    {R : Type ℓ} {bad : ℕ → R} {good : R} (s : ℕ) (fine : Bool) (r rest : R) {l : List (ℕ × Bool)}
    → r ≡ (if fine then rest else bad s)
    → Agrees bad good rest l
    → Agrees bad good r ((s, fine) ∷ l)
first_refused-Agrees s true r rest e j = record { same_result = e ∙ j.same_result }
first_refused-Agrees s false r rest e j = record { same_result = e }

pub checked-ignore_none_error {ℓ κ μ} :
    {A : Type ℓ} {B : Type κ} {C : Type μ} (z : B) (f : A → B) (a : Answer A) (k : B → Result C)
    → (checked ignore_none_error z f a >>= k)
      ≡ (if missing_or_ok a.status then k (answered z f a) else err (fastly a.status))
unfolding to_error is_fastly_error ignore_none_error
checked-ignore_none_error z f a k = ground arith
