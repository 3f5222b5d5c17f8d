-- ===== src/Common/Int.antt =====
-- Go's signed `int`, as an integer over the native numbers, and its decimal text.
-- The platform's `int` has 64 bits (GOARCH=wasm).
use mathlib.Core.Option
use compute_sdk_go.Common.{
  ℕ, zero, suc, ◌+◌, ◌-◌, ◌*◌, ◌/◌, ◌%◌, ◌^◌, ◌<◌, ◌≡◌, refl, ◌≢◌, true, false, [], ◌∷◌, ◌++◌,
  Option, none, some, arith, ltb, ◌==◌, if◌then◌else◌, Bool-cases, Bytes, is_digit, all, all-append,
  ap, ◌∙◌, inl, inr,
}

-- `negsuc n` is -(n + 1).
pub data ℤ : Type 0 where
  pos : ℕ → ℤ
  negsuc : ℕ → ℤ

abbrev pub int_max : ℕ
int_max = 2 ^ 63

-- -n
abbrev pub neg : ℕ → ℤ
neg zero = pos 0
neg (suc n) = negsuc n

-- Decimal digits on fuel: every round divides the number by ten, so `suc n` rounds are enough.
unfoldable pub decimal_fuel : ℕ → ℕ → Bytes
decimal_fuel zero n = []
decimal_fuel (suc f) n =
    let front = decimal_fuel f (n / 10) in
    if ltb n 10 then (b'0' + n) ∷ [] else front ++ (b'0' + n % 10) ∷ []

-- `strconv.FormatUint(n, 10)`
unfoldable pub decimal : ℕ → Bytes
unfolding decimal_fuel
decimal n = decimal_fuel (suc n) n

-- `strconv.Itoa`
unfoldable pub itoa : ℤ → Bytes
unfolding decimal
itoa (pos n) = decimal n
itoa (negsuc n) = b'-' ∷ decimal (suc n)

-- The value of a run of digits after `acc`; `none` at any other byte.
unfoldable pub digits_from : ℕ → Bytes → Option ℕ
digits_from acc [] = some acc
digits_from acc (c ∷ cs) =
    let rest = digits_from (acc * 10 + (c - b'0')) cs in if is_digit c then rest else none

unfoldable pub digits : Bytes → Option ℕ
unfolding digits_from
digits [] = none
digits (c ∷ cs) = digits_from 0 (c ∷ cs)

abbrev below : ℕ → ℕ → Option ℕ
below limit n = if ltb n limit then some n else none

-- `strconv.Atoi`: an optional sign and digits, within the range of `int`.
unfoldable pub atoi : Bytes → Option ℤ
unfolding digits Option.bind
atoi [] = none
atoi (c ∷ cs) =
    if c == b'-'
    then Option.map neg (Option.bind (digits cs) (below (int_max + 1)))
    else if c == b'+'
    then Option.map pos (Option.bind (digits cs) (below int_max))
    else Option.map pos (Option.bind (digits (c ∷ cs)) (below int_max))

digits_from-append :
    (xs : Bytes) (d acc k : ℕ)
    → digits_from acc xs ≡ some k
    → d < 10
    → digits_from acc (xs ++ (b'0' + d) ∷ []) ≡ some (k * 10 + d)
unfolding digits_from
digits_from-append [] d acc k h lt = ground arith
digits_from-append (x ∷ xs) d acc k h lt =
    ground (arith, digits_from-append xs d (acc * 10 + (x - b'0')) k)

digits_from-decimal_fuel : (f n : ℕ) → n < f → digits_from 0 (decimal_fuel f n) ≡ some n
unfolding decimal_fuel
digits_from-decimal_fuel zero n h = elim h [ ]
digits_from-decimal_fuel (suc f) n h = elim (Bool-cases (ltb n 10)) [
  | inl small ↦ rw small (unfold digits_from in ground arith)
  | inr large ↦ rw large (
      digits_from-append (decimal_fuel f (n / 10)) (n % 10) 0 (n / 10)
        (digits_from-decimal_fuel f (n / 10) (ground arith)) (omega arith)
      ∙ ap some (omega arith))
]

pub decimal_fuel-all_digits : (f n : ℕ) → all is_digit (decimal_fuel f n) ≡ true
unfolding decimal_fuel
decimal_fuel-all_digits zero n = refl
decimal_fuel-all_digits (suc f) n = elim (Bool-cases (ltb n 10)) [
  | inl small ↦ rw small (ground arith)
  | inr large ↦ rw large (
      all-append is_digit (decimal_fuel f (n / 10)) _ (decimal_fuel-all_digits f (n / 10))
        (ground arith))
]

-- The first byte is a digit, and it is `0` only for the number 0.
decimal_fuel-head :
    (f n : ℕ)
    → n < f
    → (c : ℕ) × (cs : Bytes) × (decimal_fuel f n ≡ c ∷ cs)
      × (is_digit c ≡ true)
      × (n ≢ 0 → (c == b'0') ≡ false)
unfolding decimal_fuel
decimal_fuel-head zero n h = elim h [ ]
decimal_fuel-head (suc f) n h = elim (Bool-cases (ltb n 10)) [
  | inl small ↦ (b'0' + n, [], rw small, ground arith, ground arith)
  | inr large ↦
      let (c, cs, e, d, z) = decimal_fuel-head f (n / 10) (ground arith) in
      (c, cs ++ (b'0' + n % 10) ∷ [], rw (large, e), d, λ nz. z (ground arith))
]

pub decimal-head :
    (n : ℕ)
    → (c : ℕ) × (cs : Bytes) × (decimal n ≡ c ∷ cs)
      × (is_digit c ≡ true)
      × (n ≢ 0 → (c == b'0') ≡ false)
unfolding decimal
decimal-head n = decimal_fuel-head (suc n) n (omega arith)

pub decimal-all_digits : (n : ℕ) → all is_digit (decimal n) ≡ true
unfolding decimal
decimal-all_digits n = decimal_fuel-all_digits (suc n) n

digits_of_cons : (s : Bytes) {c : ℕ} {cs : Bytes} → s ≡ c ∷ cs → digits s ≡ digits_from 0 s
unfolding digits
digits_of_cons s e = rw e refl

pub digits-decimal : (n : ℕ) → digits (decimal n) ≡ some n
unfolding decimal
digits-decimal n =
    digits_of_cons (decimal n) (decimal-head n).2 ∙ digits_from-decimal_fuel (suc n) n (omega arith)

atoi_of_digit :
    (s : Bytes) (c : ℕ) (cs : Bytes) (n : ℕ)
    → s ≡ c ∷ cs
    → is_digit c ≡ true
    → digits s ≡ some n
    → n < int_max
    → atoi s ≡ some (pos n)
unfolding atoi
atoi_of_digit s c cs n e d v h = rw e (let w : digits (c ∷ cs) ≡ some n = rw e at v in ground arith)

-- `Atoi` reads back what `FormatInt` writes for a number that is not negative.
pub atoi-decimal : (n : ℕ) → n < int_max → atoi (decimal n) ≡ some (pos n)
atoi-decimal n h =
    let (c, cs, e, d, z) = decimal-head n in
    atoi_of_digit (decimal n) c cs n e d (digits-decimal n) h
