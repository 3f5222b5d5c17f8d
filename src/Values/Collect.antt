-- ===== src/Values/Collect.antt =====
-- A loop over `Values` sees the values of the host, in order, each once, and then ends.
use compute_sdk_go.Common.{
  ℕ, zero, suc, ◌+◌, ◌%◌, ◌^◌, ◌<◌, ◌≡◌, refl, sym, ap, ◌∙◌, ◌⊎◌, inl, inr, Bool, true, false, List,
  [], ◌∷◌, ◌++◌, none, some, arith, if◌then◌else◌, Bytes, is_empty, cut, take, length, Bool-cases,
}
use mathlib.Core.Path.{subst}
use compute_sdk_go.Common.Text.{cut-append}
use compute_sdk_go.Abi.Status.{status_ok, status_buf_len}
use compute_sdk_go.Values.{
  MultiValueHostcall, Values, new_values, is_finished, to_cursor, advance, next_value, next,
  iterate,
}
use compute_sdk_go.Values.Contract.{terminated, Clear, Serves, grows, ends, goes_on, Honest}

-- The values `ps` lie in the buffer.
record Holds (v : Values) (ps : List Bytes) : Type 0 where
  lies : v.pending ≡ terminated ps
  clear : Clear ps
  sound : v.error ≡ none

advance-Holds :
    (v : Values) (p : Bytes) (ps : List Bytes)
    → Holds v (p ∷ ps)
    → advance v ≡ (record v { value = p; pending = terminated ps }, true)
unfolding advance
advance-Holds v p ps h =
    let found : cut 0 v.pending ≡ some (p, terminated ps) =
      ap (cut 0) h.lies ∙ cut-append 0 p (terminated ps) h.clear.0 in
    rw (found, advance) refl

some_pending : (p : Bytes) (ps : List Bytes) → is_empty (terminated (p ∷ ps)) ≡ false
some_pending [] ps = refl
some_pending (c ∷ p) ps = refl

next_pending :
    (host : MultiValueHostcall) (fuel : ℕ) (v : Values) (p : Bytes) (ps : List Bytes)
    → Holds v (p ∷ ps)
    → next host fuel v ≡ some (record v { value = p; pending = terminated ps }, true)
unfolding next
next_pending host fuel v p ps h =
    let full : is_empty v.pending ≡ false = ap is_empty h.lies ∙ some_pending p ps in
    let goes : next host fuel v ≡ some (advance v) = ground (arith, h.sound, full) in
    goes ∙ ap some (advance-Holds v p ps h)

next_finished :
    (host : MultiValueHostcall) (fuel : ℕ) (v : Values)
    → Holds v []
    → v.finished ≡ true
    → next host fuel v ≡ some (v, false)
unfolding next
next_finished host fuel v h e =
    let empty : is_empty v.pending ≡ true = ap is_empty h.lies in ground (arith, h.sound, empty)

advance_finished :
    (v : Values)
    → Holds v []
    → v.finished ≡ true
    → ((advance v).1 ≡ false) × ((advance v).0.error ≡ none)
unfolding advance cut
advance_finished v h e = ground (arith, h.lies, h.sound)

append-Clear : (ps qs : List Bytes) → Clear (ps ++ qs) → Clear ps
append-Clear [] qs h = tt
append-Clear (p ∷ ps) qs h = (h.0, append-Clear ps qs h.1)

module _ {limit : ℕ} {rest : ℕ → List Bytes} {host : MultiValueHostcall}
    (h : Honest limit rest host) where
  -- The values that are still to come.
  abbrev remaining : Values → List Bytes → List Bytes
  remaining v ps = if v.finished then ps else ps ++ rest v.cursor

  -- What `nextValue` leaves behind a call at the cursor `c`.
  record Filled (c : ℕ) (w : Values) : Type 0 where
    now : List Bytes
    holds : Holds w now
    same : remaining w now ≡ rest c
    some_more : (w.finished ≡ true) ⊎ ((p : Bytes) × (ps : List Bytes) × (now ≡ p ∷ ps))

  step_grows :
      (f : ℕ) (v : Values)
      → (host v.capacity v.cursor).status ≡ status_buf_len
      → 0 < (host v.capacity v.cursor).nwritten
      → next_value host (suc f) v
        ≡ next_value host f (record v { capacity = (host v.capacity v.cursor).nwritten })
  unfolding next_value
  step_grows f v st gt = ground arith

  step_takes :
      (f : ℕ) (v : Values)
      → (host v.capacity v.cursor).status ≡ status_ok
      → next_value host (suc f) v
        ≡ some (record v {
          cursor = to_cursor (host v.capacity v.cursor).ending;
          finished = is_finished (host v.capacity v.cursor).ending;
          pending = take (host v.capacity v.cursor).nwritten (host v.capacity v.cursor).buffer;
        })
  unfolding next_value
  step_takes f v st = rw st refl

  next_value-Filled :
      (fuel : ℕ) (v : Values)
      → 0 < fuel
      → limit < fuel + v.capacity
      → v.error ≡ none
      → Serves limit rest v.capacity v.cursor (host v.capacity v.cursor)
      → (w : Values) × (next_value host fuel v ≡ some w) × Filled v.cursor w
  next_value-Filled zero v pos_fuel lt ok s = absurd (omega arith)
  next_value-Filled (suc f) v some_fuel lt ok (grows st gt le) =
      let w = record v { capacity = (host v.capacity v.cursor).nwritten } in
      let (end, e, fill) =
        next_value-Filled f w (omega arith) (omega arith) ok (h.serves w.capacity w.cursor) in
      (end, step_grows f v st (omega arith) ∙ e, fill)
  next_value-Filled (suc f) v some_fuel lt ok (ends st en eq) = (
    _,
    step_takes f v st,
    record {
      now = rest v.cursor;
      holds = record { lies = eq; clear = h.clear v.cursor; sound = ok };
      same = rw en refl;
      some_more = inl (rw en refl);
    },
  )
  next_value-Filled (suc f) v some_fuel lt ok (goes_on p ps c' st en small spl eq) = (
    _,
    step_takes f v st,
    record {
      now = p ∷ ps;
      holds = record {
        lies = eq;
        clear = append-Clear (p ∷ ps) (rest c') (subst Clear spl (h.clear v.cursor));
        sound = ok;
      };
      same = rw en (
          ap (λ (k : ℕ). p ∷ (ps ++ rest k)) (let fits : c' % 2 ^ 32 ≡ c' = omega arith in fits)
          ∙ sym spl);
      some_more = inr (p, ps, refl);
    },
  )

  after_filled :
      (fuel : ℕ) (v w : Values)
      → v.error ≡ none
      → is_empty v.pending ≡ true
      → v.finished ≡ false
      → next_value host fuel v ≡ some w
      → w.error ≡ none
      → next host fuel v ≡ some (advance w)
  unfolding next
  after_filled fuel v w ok e nf got ok' = ground (arith, ok, e, nf, got, ok')

  iterate_more :
      (rounds fuel : ℕ) (v w end : Values) (xs : List Bytes)
      → next host fuel v ≡ some (w, true)
      → iterate host rounds fuel w ≡ some (xs, end)
      → iterate host (suc rounds) fuel v ≡ some (w.value ∷ xs, end)
  unfolding iterate
  iterate_more rounds fuel v w end xs e k = rw (e, iterate) (rw k refl)

  iterate_end :
      (rounds fuel : ℕ) (v w : Values)
      → next host fuel v ≡ some (w, false)
      → iterate host (suc rounds) fuel v ≡ some ([], w)
  unfolding iterate
  iterate_end rounds fuel v w e = rw (e, iterate) refl

  abbrev Ends : ℕ → ℕ → Values → List Bytes → Type 0
  Ends rounds fuel v xs =
      (end : Values) × (iterate host rounds fuel v ≡ some (xs, end)) × (end.error ≡ none)

  remaining_cons :
      (b : Bool) (p : Bytes) (ps more : List Bytes)
      → (if b then p ∷ ps else (p ∷ ps) ++ more) ≡ p ∷ (if b then ps else ps ++ more)
  remaining_cons true p ps more = refl
  remaining_cons false p ps more = refl

  -- A round of the loop, where the loop behind it is known.
  abbrev Loop : ℕ → ℕ → Type 0
  Loop rounds fuel =
      (v : Values) (ps : List Bytes)
      → Holds v ps
      → length (remaining v ps) < rounds
      → Ends rounds fuel v (remaining v ps)

  one_round :
      (rounds fuel : ℕ) (v u : Values) (p : Bytes) (ps : List Bytes)
      → Loop rounds fuel
      → Holds u (p ∷ ps)
      → next host fuel v ≡ some (record u { value = p; pending = terminated ps }, true)
      → length (remaining u (p ∷ ps)) < suc rounds
      → Ends (suc rounds) fuel v (remaining u (p ∷ ps))
  one_round rounds fuel v u p ps loop hold e lt =
      let w = record u { value = p; pending = terminated ps } in
      let split = remaining_cons u.finished p ps (rest u.cursor) in
      let (end, k, ok) =
        loop w ps (record { lies = refl; clear = hold.clear.1; sound = hold.sound })
          (omega (arith, ap length split)) in
      (end, iterate_more rounds fuel v w end _ e k ∙ ap (λ xs. some (xs, end)) (sym split), ok)

  round_filled :
      (rounds fuel : ℕ) (v w : Values) (now : List Bytes)
      → Loop rounds fuel
      → Holds w now
      → (w.finished ≡ true) ⊎ ((p : Bytes) × (ps : List Bytes) × (now ≡ p ∷ ps))
      → next host fuel v ≡ some (advance w)
      → length (remaining w now) < suc rounds
      → Ends (suc rounds) fuel v (remaining w now)
  round_filled rounds fuel v w (p ∷ ps) loop hold m e lt =
      one_round rounds fuel v w p ps loop hold (e ∙ ap some (advance-Holds w p ps hold)) lt
  round_filled rounds fuel v w [] loop hold (inl fin) e lt =
      let (stops, ok) = advance_finished w hold fin in
      (
        (advance w).0,
        iterate_end rounds fuel v (advance w).0 (e ∙ ap (λ b. some ((advance w).0, b)) stops)
            ∙ ap (λ b. some ((if b then [] else rest w.cursor), (advance w).0)) (sym fin),
        ok,
      )
  round_filled rounds fuel v w [] loop hold (inr (p, ps, k)) e lt = cc

  iterate_holds : (rounds fuel : ℕ) → limit < fuel → Loop rounds fuel
  iterate_holds zero fuel lf v ps hold lt = absurd (omega arith)
  iterate_holds (suc rounds) fuel lf v (p ∷ ps) hold lt =
      one_round rounds fuel v v p ps (iterate_holds rounds fuel lf) hold
        (next_pending host fuel v p ps hold) lt
  iterate_holds (suc rounds) fuel lf v [] hold lt = elim (Bool-cases v.finished) [
    | inl fin ↦ (
      v,
      iterate_end rounds fuel v v (next_finished host fuel v hold fin)
          ∙ ap (λ b. some ((if b then [] else rest v.cursor), v)) (sym fin),
      hold.sound,
    )
    | inr nf ↦
        let (w, got, fill) =
          next_value-Filled fuel v (omega arith) (omega arith) hold.sound
            (h.serves v.capacity v.cursor) in
        let all_rest = ap (λ b. if b then [] else rest v.cursor) nf in
        subst (Ends (suc rounds) fuel v) (fill.same ∙ sym all_rest) (
          round_filled rounds fuel v w fill.now (iterate_holds rounds fuel lf) fill.holds
            fill.some_more
            (after_filled fuel v w hold.sound (ap is_empty hold.lies) nf got fill.holds.sound)
            (omega (arith, ap length fill.same, ap length all_rest)))
  ]

-- Where the host keeps its promises, a loop over a new iterator ends without an error, and has seen
-- the values behind the first cursor, in order, each once, whatever the first capacity is and
-- however the host cuts the values into answers. There are rounds enough for each value and for the
-- end, and the buffer grows to what the host asks for.
pub iterate-Honest :
    {limit : ℕ} {rest : ℕ → List Bytes} {host : MultiValueHostcall}
    → Honest limit rest host
    → (capacity rounds fuel : ℕ) → length (rest 0) < rounds
    → limit < fuel
    → (end : Values) × (iterate host rounds fuel (new_values capacity) ≡ some (rest 0, end))
      × (end.error ≡ none)
iterate-Honest h capacity rounds fuel lt lf =
    iterate_holds h rounds fuel lf (new_values capacity) []
      (record { lies = refl; clear = tt; sound = refl }) lt
