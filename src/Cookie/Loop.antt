-- ===== src/Cookie/Loop.antt =====
-- The loop of `readCookies` over one line: it ends, its fuel does not matter, and the filter on a
-- name selects among the cookies that the line holds.
use mathlib.Core.Bool.{false≢true}
use compute_sdk_go.Common.{
  ℕ, zero, suc, ◌≤◌, ◌<◌, ◌≡◌, refl, sym, ap, ap₂, ◌∙◌, false, List, [], ◌∷◌, ◌++◌, Option, none,
  some, arith, keep, same, Bytes, length, cut, trim, is_empty,
}
use compute_sdk_go.Common.Text.{cut-length}
use compute_sdk_go.Cookie.{Cookie, TimeLib}
use compute_sdk_go.Cookie.Read.{
  part_of, next_part, name_and_value, read_pair, read_part, read_line, read_cookies,
}

part_of-lt :
    (line : Bytes) (o : Option (Bytes × Bytes))
    → cut b';' line ≡ o
    → is_empty line ≡ false
    → length (part_of line o).1 < length line
part_of-lt [] o e h = absurd (false≢true (sym h))
part_of-lt (c ∷ cs) none e h = omega arith
part_of-lt (c ∷ cs) (some (p, r)) e h = ground (arith, cut-length b';' (c ∷ cs) p r e)

-- Every round makes the line shorter.
next_part-lt : (line : Bytes) → is_empty line ≡ false → length (next_part line).1 < length line
next_part-lt line h = part_of-lt line (cut b';' line) refl h

module _ {T : Type 0} (time : TimeLib T) where
  pub read_line-nil : (f : ℕ) (filter : Bytes) → read_line time f filter [] ≡ []
  unfolding read_line
  read_line-nil zero filter = refl
  read_line-nil (suc f) filter = refl

  pub read_line-step :
      (f : ℕ) (filter line : Bytes)
      → is_empty line ≡ false
      → read_line time (suc f) filter line
        ≡ read_part time filter (trim (next_part line).0)
          ++ read_line time f filter (next_part line).1
  unfolding read_line
  read_line-step f filter line h = rw h

  -- The loop over a line ends within as many rounds as the line has bytes: any two amounts of
  -- fuel of at least that give the same cookies, so none is missing for want of fuel.
  pub read_line-fuel :
      (f g : ℕ) (filter line : Bytes)
      → length line ≤ f
      → length line ≤ g
      → read_line time f filter line ≡ read_line time g filter line
  read_line-fuel f g filter [] hf hg = read_line-nil f filter ∙ sym (read_line-nil g filter)
  read_line-fuel (suc f) (suc g) filter (c ∷ cs) hf hg =
      read_line-step f filter (c ∷ cs) refl
      ∙ ap (◌++◌ (read_part time filter (trim (next_part (c ∷ cs)).0))) (
          read_line-fuel f g filter (next_part (c ∷ cs)).1
            (omega (arith, next_part-lt (c ∷ cs) refl)) (omega (arith, next_part-lt (c ∷ cs) refl)))
      ∙ sym (read_line-step g filter (c ∷ cs) refl)
  read_line-fuel zero g filter (c ∷ cs) hf hg = absurd (omega arith)
  read_line-fuel (suc f) zero filter (c ∷ cs) hf hg = absurd (omega arith)

  -- The cookies of one name.
  abbrev pub named : Bytes → List (Cookie T) → List (Cookie T)
  named filter = keep (λ c. same filter c.name)

  named-append :
      (filter : Bytes) (xs ys : List (Cookie T))
      → named filter (xs ++ ys) ≡ named filter xs ++ named filter ys
  named-append filter [] ys = refl
  named-append filter (x ∷ xs) ys = ground (arith, named-append filter xs ys)

  read_pair-named :
      (filter : Bytes) (p : Bytes × Bytes)
      → is_empty filter ≡ false
      → read_pair time filter p ≡ named filter (read_pair time [] p)
  unfolding read_pair
  read_pair-named filter (n, v) h = ground arith

  read_part-named :
      (filter part : Bytes)
      → is_empty filter ≡ false
      → read_part time filter part ≡ named filter (read_part time [] part)
  unfolding read_part
  read_part-named filter [] h = refl
  read_part-named filter (c ∷ cs) h = read_pair-named filter (name_and_value (c ∷ cs)) h

  read_line-named :
      (f : ℕ) (filter line : Bytes)
      → is_empty filter ≡ false
      → read_line time f filter line ≡ named filter (read_line time f [] line)
  unfolding read_line
  read_line-named zero filter line h = refl
  read_line-named (suc f) filter [] h = refl
  read_line-named (suc f) filter (c ∷ cs) h =
      let (part, rest) = next_part (c ∷ cs) in
      ap₂ ◌++◌ (read_part-named filter (trim part) h) (read_line-named f filter rest h)
      ∙ sym (named-append filter (read_part time [] (trim part)) (read_line time f [] rest))

  -- `readCookies` with a name gives the cookies of that name among those that it gives without,
  -- in their order.
  pub read_cookies-named :
      (lines : List Bytes) (filter : Bytes)
      → is_empty filter ≡ false
      → read_cookies time lines filter ≡ named filter (read_cookies time lines [])
  unfolding read_cookies
  read_cookies-named [] filter h = refl
  read_cookies-named (line ∷ lines) filter h =
      let l = trim line in
      ap₂ ◌++◌ (read_line-named (length l) filter l h) (read_cookies-named lines filter h)
      ∙ sym (named-append filter (read_line time (length l) [] l) (read_cookies time lines []))
