-- ===== src/Abi/Causes.antt =====
-- What the texts of errors of sending tell.
use Prim.Native.String.{String}
use compute_sdk_go.Common.{
  ℕ, ◌≡◌, refl, ◌≢◌, ◌≤◌, sym, ap, ◌∙◌, inl, inr, Bool, true, false, ◌&&◌, Option, none, some, List,
  [], ◌∷◌, ◌++◌, ◌==◌, ==_iff, if◌then◌else◌, arith, Bool-cases, Option-cases, Bytes, codes, cut,
  same, is_digit,
}
use compute_sdk_go.Common.Int.{decimal, digits, decimal-all_digits, digits-decimal}
use compute_sdk_go.Common.Text.{cut-append, contains_of_all}
use compute_sdk_go.Abi.SendErrors.{
  SendErrorDetail, FastlyError, case_of, causes, detail_string, detail_error, to_send_error,
  fastly_error_text, status_text, valid, dns_text, tls_text, unknown_text,
}

-- What follows a prefix.
abbrev after : Bytes → Bytes → Option Bytes
after [] s = some s
after (p ∷ ps) [] = none
after (p ∷ ps) (c ∷ cs) = let rest = after ps cs in if p == c then rest else none

abbrev number_before_paren : Bytes → Option ℕ
number_before_paren s = elim (cut b')' s) [ none ↦ none | some (front, back) ↦ digits front ]

-- The first case with a text.
abbrev named : Bytes → List (ℕ × String) → Option ℕ
named s [] = none
named s ((n, t) ∷ cases) = let rest = named s cases in if same s (codes t) then some n else rest

-- The tag that a text is for, read off the text alone.
abbrev pub cause_of : Bytes → Option ℕ
cause_of s = elim (after (codes "DNS error (rcode=") s) [
  | some r ↦ some 3
  | none ↦ elim (after (codes "TLS alert received (") s) [
    | some r ↦ some 23
    | none ↦ elim (after (codes "unknown error (") s) [
      | some r ↦ number_before_paren r
      | none ↦ named s causes
    ]
  ]
]

every : (ℕ → Bytes → Bool) → List (ℕ × String) → Bool
every p [] = true
every p ((n, t) ∷ cases) = p n (codes t) && every p cases

-- What holds of every case holds of the text that a `switch` returns.
case_of-every :
    (p : ℕ → Bytes → Bool) (n : ℕ) (t : Bytes) (cases : List (ℕ × String))
    → every p cases ≡ true
    → case_of n cases ≡ some t
    → p n t ≡ true
unfolding case_of every
case_of-every p n t [] h e = ground arith
case_of-every p n t ((m, s) ∷ cases) h e = elim (Bool-cases (n == m)) [
  | inl same_tag ↦ let j : n ≡ m = (==_iff n m).0 same_tag in ground (arith, j)
  | inr other ↦ ground (arith, case_of-every p n t cases)
]

finds : ℕ → Option ℕ → Bool
finds n none = false
finds n (some m) = m == n

finds_lem : (n : ℕ) (o : Option ℕ) → finds n o ≡ true → o ≡ some n
unfolding finds
finds_lem n none h = ground arith
finds_lem n (some m) h = ap some ((==_iff m n).0 h)

named_cause : (n : ℕ) (t : Bytes) → case_of n causes ≡ some t → cause_of t ≡ some n
unfolding every finds
named_cause n t e =
    finds_lem n (cause_of t) (case_of-every (λ m s. finds m (cause_of s)) n t causes refl e)

number_before_paren-decimal : (n : ℕ) → number_before_paren (decimal n ++ b')' ∷ []) ≡ some n
number_before_paren-decimal n =
    rw
      (
        number_before_paren,
        cut-append b')' (decimal n) []
            (contains_of_all is_digit b')' refl (decimal n) (decimal-all_digits n)),
      )
      (digits-decimal n)

cause_of-unknown_text : (n : ℕ) → cause_of (unknown_text n) ≡ some n
unfolding unknown_text
cause_of-unknown_text n = number_before_paren-decimal n

cause_of-dns_text : (d : SendErrorDetail) → cause_of (dns_text d) ≡ some 3
unfolding dns_text
cause_of-dns_text d = refl

cause_of-tls_text : (d : SendErrorDetail) → cause_of (tls_text d) ≡ some 23
unfolding tls_text
cause_of-tls_text d = refl

-- A detail with a cause has a text, and the text tells the cause.
pub detail_string-cause_of :
    (d : SendErrorDetail)
    → 2 ≤ d.tag
    → (t : Bytes) × (detail_string d ≡ some t) × (cause_of t ≡ some d.tag)
unfolding detail_string
detail_string-cause_of d h = elim (Bool-cases (d.tag == 3)) [
  | inl dns ↦
      (dns_text d, ground arith, cause_of-dns_text d ∙ ap some (sym ((==_iff d.tag 3).0 dns)))
  | inr ne ↦ elim (Bool-cases (d.tag == 23)) [
    | inl tls ↦
        (tls_text d, ground arith, cause_of-tls_text d ∙ ap some (sym ((==_iff d.tag 23).0 tls)))
    | inr ne' ↦ elim (Option-cases (case_of d.tag causes)) [
      | inl unknown ↦ (unknown_text d.tag, ground arith, cause_of-unknown_text d.tag)
      | inr (t, e) ↦ (t, ground arith, named_cause d.tag t e)
    ]
  ]
]

text_of_detail :
    (s : ℕ) (d : SendErrorDetail) (t : Bytes)
    → detail_string d ≡ some t
    → fastly_error_text (record { status = s; detail = some d })
      ≡ some (codes "Fastly error: send error: " ++ t)
unfolding fastly_error_text detail_error
text_of_detail s d t e = rw (fastly_error_text, detail_error, e) refl

-- A send that succeeds has no error. One that fails keeps its status; its error has a text, whatever
-- the host put in the detail: that of the status if the detail has no cause, and else that of the
-- detail, from which the cause can be told.
pub to_send_error_lem :
    (s : ℕ) (d : SendErrorDetail)
    → (s ≡ 0 → to_send_error s d ≡ none)
      × (s ≢ 0
          → (e : FastlyError) × (to_send_error s d ≡ some e)
            × (e.status ≡ s)
            × (d.tag ≤ 1 → fastly_error_text e ≡ some (codes "Fastly error: " ++ status_text s))
            × (2 ≤ d.tag
                → (t : Bytes) × (detail_string d ≡ some t)
                  × (fastly_error_text e ≡ some (codes "Fastly error: send error: " ++ t))
                  × (cause_of t ≡ some d.tag)))
unfolding to_send_error valid fastly_error_text
to_send_error_lem s d = (
  (λ z. ground arith),
  (λ ne. elim (Bool-cases (valid d)) [
    | inl v ↦ (
      record { status = s; detail = some d },
      ground arith,
      refl,
      (λ low. ground arith),
      (λ high. let (t, e, c) = detail_string-cause_of d high in (t, e, text_of_detail s d t e, c)),
    )
    | inr v ↦ (
      record { status = s; detail = none },
      ground arith,
      refl,
      (λ low. refl),
      (λ high. ground arith),
    )
  ]),
)
