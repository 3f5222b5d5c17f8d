-- ===== src/Cookie/Grammar.antt =====
-- `isCookieDomainName` accepts the domain names of the grammar, and no others.
use compute_sdk_go.Common.{
  ℕ, ◌+◌, ◌≡◌, refl, sym, ap, ap₂, ◌∙◌, Bool, true, false, not, ◌&&◌, ◌||◌, [], ◌∷◌, ◌++◌,
  append-nil, append_assoc, arith, inl, inr, Bool-cases, leb, ◌==◌, ==_iff, if◌then◌else◌, Bytes,
  is_empty, is_letter, split, length, some, none,
}
use mathlib.Core.Path.{subst}
use compute_sdk_go.Cookie.Domain.{
  Scan, domain_step, domain_loop, drop_dot, scan_start, is_cookie_domain_name,
}
use compute_sdk_go.Cookie.Labels.{
  is_label_byte, is_label, are_labels, has_letter, Tracks, is_empty_snoc, all_bad, are_labels_bad,
  snoc-Tracks,
}

-- What the loop answers on the rest `xs` of a text, behind `u`.
abbrev Answer : Scan → Bytes → Bytes → Type 0
Answer s u xs =
    domain_loop s xs
    ≡ (are_labels (u ++ (split b'.' xs).0) (split b'.' xs).1 && (s.seen_letter || has_letter xs))

loop_end : (s : Scan) (u : Bytes) → Tracks u s → Answer s u []
unfolding domain_loop split
loop_end s [] k = let d = k.at_dot in let l = k.len in ground arith
loop_end s (x ∷ u) k =
    let h = k.at_hyphen in
    let l = k.len in let b = k.bytes in let st = k.head in rw (append-nil u) (ground arith)

split_cons :
    (c : ℕ) (cs : Bytes)
    → (c == b'.') ≡ false
    → split b'.' (c ∷ cs) ≡ (c ∷ (split b'.' cs).0, (split b'.' cs).1)
unfolding split
split_cons c cs h = rw h refl

split_dot : (cs : Bytes) → split b'.' (b'.' ∷ cs) ≡ ([], (split b'.' cs).0 ∷ (split b'.' cs).1)
unfolding split
split_dot cs = refl

loop_goes :
    (s t : Scan) (c : ℕ) (cs : Bytes)
    → domain_step s c ≡ some t
    → domain_loop s (c ∷ cs) ≡ domain_loop t cs
unfolding domain_loop
loop_goes s t c cs e = rw (e, domain_loop) refl

loop_stops :
    (s : Scan) (c : ℕ) (cs : Bytes) → domain_step s c ≡ none → domain_loop s (c ∷ cs) ≡ false
unfolding domain_loop
loop_stops s c cs e = rw (e, domain_loop) refl

seen_letters : (a b x : Bool) → ((a || b) || x) ≡ (a || (b || x))
seen_letters a b x = ground arith

loop_step :
    (s t : Scan) (u : Bytes) (c : ℕ) (cs : Bytes)
    → domain_step s c ≡ some t
    → is_label_byte c ≡ true
    → t.seen_letter ≡ (s.seen_letter || is_letter c)
    → Answer t (u ++ c ∷ []) cs
    → Answer s u (c ∷ cs)
loop_step s t u c cs e lb seen ih =
    loop_goes s t c cs e
    ∙ ih
    ∙ ap₂ ◌&&◌
        (ap (λ l. are_labels l (split b'.' cs).1) (append_assoc u (c ∷ []) (split b'.' cs).0))
        (ap (λ b. b || has_letter cs) seen
          ∙ seen_letters s.seen_letter (is_letter c) (has_letter cs))
    ∙ sym (
        ap (λ p. are_labels (u ++ p.0) p.1 && (s.seen_letter || has_letter (c ∷ cs)))
          (split_cons c cs (ground arith)))

loop_bad :
    (s : Scan) (u : Bytes) (c : ℕ) (cs : Bytes)
    → domain_step s c ≡ none
    → (c == b'.') ≡ false
    → is_label (u ++ c ∷ (split b'.' cs).0) ≡ false
    → Answer s u (c ∷ cs)
loop_bad s u c cs e nd bad =
    loop_stops s c cs e
    ∙ sym (
        ap (λ p. are_labels (u ++ p.0) p.1 && (s.seen_letter || has_letter (c ∷ cs)))
          (split_cons c cs nd)
        ∙ ap (λ b. b && (s.seen_letter || has_letter (c ∷ cs)))
            (are_labels_bad (u ++ c ∷ (split b'.' cs).0) (split b'.' cs).1 (is_empty_snoc u c _)
              bad))

-- A dot behind a label, and a dot behind anything else.
dot_step :
    (s : Scan) (u : Bytes)
    → Tracks u s
    → domain_step s b'.'
      ≡ (if is_label u then some (record s { last = b'.'; part_len = 0 }) else none)
unfolding domain_step
dot_step s [] k = let d = k.at_dot in ground arith
dot_step s (x ∷ u) k =
    let d = k.at_dot in
    let h = k.at_hyphen in let l = k.len in let b = k.bytes in let st = k.head in ground arith

loop_dot :
    (s : Scan) (u : Bytes) (cs : Bytes)
    → Tracks u s
    → Answer (record s { last = b'.'; part_len = 0 }) [] cs
    → Answer s u (b'.' ∷ cs)
loop_dot s u cs k ih = elim (Bool-cases (is_label u)) [
  | inl e ↦
      loop_goes s (record s { last = b'.'; part_len = 0 }) b'.' cs (dot_step s u k ∙ rw e refl)
      ∙ ih
      ∙ sym (
          ap (λ p. are_labels (u ++ p.0) p.1 && (s.seen_letter || has_letter (b'.' ∷ cs)))
            (split_dot cs)
          ∙ ap
              (λ l.
                (is_label l && are_labels (split b'.' cs).0 (split b'.' cs).1)
                && (s.seen_letter || has_letter cs))
              (append-nil u)
          ∙ rw e refl)
  | inr e ↦
      loop_stops s b'.' cs (dot_step s u k ∙ rw e refl)
      ∙ sym (
          ap (λ p. are_labels (u ++ p.0) p.1 && (s.seen_letter || has_letter (b'.' ∷ cs)))
            (split_dot cs)
          ∙ ap
              (λ l.
                (is_label l && are_labels (split b'.' cs).0 (split b'.' cs).1)
                && (s.seen_letter || has_letter cs))
              (append-nil u)
          ∙ rw e refl)
]

-- The state behind a byte of a label.
abbrev with_byte : Scan → ℕ → Scan
with_byte s c = record {
  last = c;
  seen_letter = s.seen_letter || is_letter c;
  part_len = s.part_len + 1;
}

step_byte :
    (s : Scan) (c : ℕ)
    → is_label_byte c ≡ true
    → (s.last == b'.') && (c == b'-') ≡ false
    → domain_step s c ≡ some (with_byte s c)
unfolding domain_step
step_byte s c lb nh = ground arith

step_bad :
    (s : Scan) (c : ℕ) → (is_label_byte c ≡ false) × ((c == b'.') ≡ false) → domain_step s c ≡ none
unfolding domain_step
step_bad s c (lb, nd) = ground arith

step_hyphen : (s : Scan) → (s.last == b'.') ≡ true → domain_step s b'-' ≡ none
unfolding domain_step
step_hyphen s d = ground arith

bad_label :
    (u : Bytes) (c : ℕ) (p : Bytes) → is_label_byte c ≡ false → is_label (u ++ c ∷ p) ≡ false
bad_label u c p h = ground (arith, all_bad u c p h)

-- A hyphen that begins a label.
hyphen_label : (u p : Bytes) → is_empty u ≡ true → is_label (u ++ b'-' ∷ p) ≡ false
hyphen_label [] p e = ground arith
hyphen_label (x ∷ u) p e = cc

nil-Tracks : (s : Scan) → Tracks [] (record s { last = b'.'; part_len = 0 })
nil-Tracks s = record { at_dot = refl; at_hyphen = refl; len = refl; bytes = refl; head = refl }

domain_loop_lem : (xs : Bytes) (s : Scan) (u : Bytes) → Tracks u s → Answer s u xs
domain_loop_lem [] s u k = loop_end s u k
domain_loop_lem (c ∷ cs) s u k = elim (Bool-cases (c == b'.')) [
  | inl e ↦
      subst (λ d. Answer s u (d ∷ cs)) (sym ((==_iff c b'.').0 e))
        (loop_dot s u cs k
          (domain_loop_lem cs (record s { last = b'.'; part_len = 0 }) [] (nil-Tracks s)))
  | inr nd ↦ elim (Bool-cases (is_label_byte c)) [
    | inr lb ↦ loop_bad s u c cs (step_bad s c (lb, nd)) nd (bad_label u c (split b'.' cs).0 lb)
    | inl lb ↦ elim (Bool-cases (is_empty u && c == b'-')) [
      | inl h ↦
          subst (λ d. Answer s u (d ∷ cs)) (sym ((==_iff c b'-').0 (ground arith)))
            (loop_bad s u b'-' cs (step_hyphen s (k.at_dot ∙ ground arith)) refl
              (hyphen_label u (split b'.' cs).0 (ground arith)))
      | inr h ↦
          let d = k.at_dot in
          loop_step s (with_byte s c) u c cs (step_byte s c lb (ground arith)) lb refl (
            domain_loop_lem cs (with_byte s c) (u ++ c ∷ [])
              (snoc-Tracks u s (with_byte s c) c k lb (λ e. ground arith) refl refl))
    ]
  ]
]

-- `isCookieDomainName` accepts a text of 1 to 255 bytes just where, without a leading dot, it is a
-- row of labels with dots between them and holds a letter. A label has 1 to 63 letters, digits and
-- hyphens, and no hyphen at either end; a dot may end the text.
pub is_cookie_domain_name_lem :
    (s : Bytes)
    → is_cookie_domain_name s ≡ (
        not (is_empty s)
        && leb (length s) 255
        && (are_labels (split b'.' (drop_dot s)).0 (split b'.' (drop_dot s)).1
            && has_letter (drop_dot s)))
unfolding is_cookie_domain_name
is_cookie_domain_name_lem s =
    ground (arith, domain_loop_lem (drop_dot s) scan_start [] (nil-Tracks scan_start))
