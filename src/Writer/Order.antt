-- ===== src/Writer/Order.antt =====
-- fsthttp/response.go: the order of the host calls of a `responseWriter`.
use compute_sdk_go.Common.{
  ℕ, ◌≡◌, refl, sym, ap, ◌∙◌, Bool, true, false, not, List, [], ◌∷◌, ◌++◌, Option, none, some,
  arith, inl, inr, Bool-cases, ◌&&◌, Option-cases, if◌then◌else◌, Bytes,
}
use mathlib.Core.Path.{subst}
use compute_sdk_go.Common.Int.{ℤ, pos}
use compute_sdk_go.Header.{Header, keys}
use compute_sdk_go.Writer.{
  Call, set_framing_mode, set_status, set_header_values, send_downstream, body_write, body_append,
  trailer_append, body_close, Host, Writer, new_response_writer, is_early_hints, excludes,
  header_calls, trailer_calls, preamble_calls, write_trailers, change_header,
  set_manual_framing_mode, write_header, declared, prefixed, begin, write, finish, close, append,
  logged,
}

-- Where a response stands: its header is not sent, its body is open, its trailers are written, it is
-- closed; `misplaced` is a call out of order.
pub data Phase : Type 0 where
  preamble : Phase
  streaming : Phase
  trailing : Phase
  ended : Phase
  misplaced : Phase

-- The phase behind a call. Early hints are sent before the header. A closed body may be written to:
-- the host refuses it.
abbrev pub next : Phase → Call → Phase
next preamble (set_framing_mode mode) = preamble
next preamble (set_status code) = preamble
next preamble (set_header_values key vs) = preamble
next preamble (send_downstream stream) = if stream then streaming else preamble
next streaming (body_write p) = streaming
next streaming (body_append b) = streaming
next streaming (trailer_append k v) = trailing
next streaming body_close = ended
next trailing (trailer_append k v) = trailing
next trailing body_close = ended
next ended (body_write p) = ended
next ended (body_append b) = ended
next _ _ = misplaced

abbrev pub after_calls : Phase → List Call → Phase
after_calls p [] = p
after_calls p (c ∷ cs) = after_calls (next p c) cs

-- The phase that the flags of the writer tell.
abbrev pub phase : Writer → Phase
phase w = if w.closed then ended else if w.wrote_headers then streaming else preamble

-- What a handler may do.
pub data Op : Type 0 where
  op_change_header : Header → Op
  op_write_header : ℤ → Op
  op_write : Bytes → Op
  op_append : Option ℕ → Op
  op_close : Op
  op_set_manual_framing_mode : Bool → Op

module _ (host : Host) where
  unfoldable pub run_op : Op → Writer → Writer
  unfolding write_header write append close
  run_op (op_change_header h) w = change_header h w
  run_op (op_write_header code) w = write_header host code w
  run_op (op_write p) w = (write host p w).0
  run_op (op_append body) w = (append host body w).0
  run_op op_close w = (close host w).0
  run_op (op_set_manual_framing_mode mode) w = set_manual_framing_mode mode w

  unfoldable pub run_ops : List Op → Writer → Writer
  unfolding run_op
  run_ops [] w = w
  run_ops (o ∷ os) w = run_ops os (run_op o w)

after_calls-append :
    (p : Phase) (xs ys : List Call) → after_calls p (xs ++ ys) ≡ after_calls (after_calls p xs) ys
after_calls-append p [] ys = refl
after_calls-append p (x ∷ xs) ys = after_calls-append (next p x) xs ys

-- The log leads where the flags say, and nothing is closed before its header is sent.
abbrev Tells : Writer → Type 0
Tells w = (after_calls preamble w.log ≡ phase w) × (w.closed ≡ true → w.wrote_headers ≡ true)

after_header_calls :
    (hints : Bool) (ks : List Bytes) (h : Header) (cs : List Call)
    → after_calls preamble (header_calls hints ks h ++ cs) ≡ after_calls preamble cs
unfolding header_calls
after_header_calls hints [] h cs = refl
after_header_calls hints (k ∷ ks) h cs = elim (Bool-cases (hints && excludes k)) [
  | inl e ↦ rw e (after_header_calls hints ks h cs)
  | inr e ↦ rw e (after_header_calls hints ks h cs)
]

sent_phase :
    (b : Bool)
    → after_calls preamble (send_downstream (not b) ∷ []) ≡ (if b then preamble else streaming)
sent_phase true = refl
sent_phase false = refl

after_preamble_calls :
    (code : ℤ) (w : Writer)
    → after_calls preamble (preamble_calls code w)
      ≡ (if is_early_hints code then preamble else streaming)
unfolding preamble_calls
after_preamble_calls code w =
    after_header_calls (is_early_hints code) (keys w.header) w.header _
    ∙ sent_phase (is_early_hints code)

after_trailers : (t : Header) → after_calls trailing (trailer_calls t ++ body_close ∷ []) ≡ ended
unfolding trailer_calls
after_trailers [] = refl
after_trailers ((k, []) ∷ t) = after_trailers t
after_trailers ((k, v ∷ vs) ∷ t) = after_trailers t

after_body : (t : Header) → after_calls streaming (trailer_calls t ++ body_close ∷ []) ≡ ended
unfolding trailer_calls
after_body [] = refl
after_body ((k, []) ∷ t) = after_body t
after_body ((k, v ∷ vs) ∷ t) = after_trailers t

after_write_trailers :
    (w : Writer) → after_calls streaming (write_trailers w ++ body_close ∷ []) ≡ ended
unfolding write_trailers
after_write_trailers w =
    after_body (declared w.trailers w.header (prefixed (keys w.header) w.header []))

-- A writer whose header is sent.
abbrev Begun : Writer → Type 0
Begun w = Tells w × (w.wrote_headers ≡ true)

keeps :
    (closed wrote : Bool) (c : Call)
    → next streaming c ≡ streaming
    → next ended c ≡ ended
    → wrote ≡ true
    → next (if closed then ended else if wrote then streaming else preamble) c
      ≡ (if closed then ended else if wrote then streaming else preamble)
keeps true wrote c s e h = e
keeps false true c s e h = s
keeps false false c s e h = cc

phase_before :
    (w : Writer) → Tells w → w.wrote_headers ≡ false → (w.closed ≡ false) × (phase w ≡ preamble)
phase_before w (t, c) e = ground arith

module _ (host : Host) where
  -- The writer behind a `WriteHeader` that sends the header, as far as `Tells` looks.
  write_header-log :
      (code : ℤ) (w : Writer)
      → w.wrote_headers ≡ false
      → ((write_header host code w).log ≡ w.log ++ preamble_calls code w)
        × ((write_header host code w).closed ≡ w.closed)
        × ((write_header host code w).wrote_headers ≡ (if is_early_hints code then false else true))
  unfolding write_header
  write_header-log code w e = rw e (refl, refl, refl)

  write_header_again :
      (code : ℤ) (w : Writer) → w.wrote_headers ≡ true → write_header host code w ≡ w
  unfolding write_header
  write_header_again code w e = rw e refl

  write_header-Tells : (code : ℤ) (w : Writer) → Tells w → Tells (write_header host code w)
  write_header-Tells code w (t, c) = elim (Bool-cases w.wrote_headers) [
    | inl e ↦ subst Tells (sym (write_header_again code w e)) (t, c)
    | inr e ↦
        let (l, cl, wr) = write_header-log code w e in
        let (open_, before) = phase_before w (t, c) e in
        (
          ap (after_calls preamble) l
              ∙ after_calls-append preamble w.log (preamble_calls code w)
              ∙ ap (λ p. after_calls p (preamble_calls code w)) (t ∙ before)
              ∙ after_preamble_calls code w
              ∙ ground arith,
          λ b. ground arith,
        )
  ]

  begin-Begun : (w : Writer) → Tells w → Begun (begin host w)
  unfolding begin
  begin-Begun w k = elim (Bool-cases w.wrote_headers) [
    | inl e ↦ let again : begin host w ≡ w = rw e refl in subst Begun (sym again) (k, e)
    | inr e ↦
        let sends : begin host w ≡ write_header host (pos 200) w = rw e refl in
        subst Begun (sym sends)
          (write_header-Tells (pos 200) w k, (write_header-log (pos 200) w e).2)
  ]

  -- A write to the body and an append leave the phase as it is.
  logged-Tells :
      (c : Call) (w : Writer)
      → next streaming c ≡ streaming
      → next ended c ≡ ended
      → Begun w
      → Tells (logged host (c ∷ []) w)
  logged-Tells c w s e ((t, cl), b) = (
    after_calls-append preamble w.log (c ∷ [])
        ∙ ap (λ p. next p c) t
        ∙ keeps w.closed w.wrote_headers c s e b,
    cl,
  )

  finish-Tells : (w : Writer) → Begun w → Tells ((finish host w).0)
  unfolding finish
  finish-Tells w ((t, cl), b) = elim (Bool-cases w.closed) [
    | inl e ↦
        let nothing : finish host w ≡ (w, none) = rw e refl in
        subst (λ r. Tells (r.0)) (sym nothing) (t, cl)
    | inr e ↦
        let w' = logged host (write_trailers w ++ body_close ∷ []) (record w { closed = true }) in
        let closes : finish host w ≡ (w', host.close w'.log) = rw e refl in
        subst (λ r. Tells (r.0)) (sym closes)
          (
            after_calls-append preamble w.log (write_trailers w ++ body_close ∷ [])
                ∙ ap (λ p. after_calls p (write_trailers w ++ body_close ∷ [])) {y = streaming}
                    (t ∙ ground arith)
                ∙ after_write_trailers w,
            λ _. b,
          )
  ]

  write-Tells : (p : Bytes) (w : Writer) → Tells w → Tells ((write host p w).0)
  unfolding write
  write-Tells p w k = elim (Option-cases w.send_err) [
    | inl e ↦
        let writes : (write host p w).0 ≡ logged host (body_write p ∷ []) (begin host w) =
          rw e refl in
        subst Tells (sym writes)
          (logged-Tells (body_write p) (begin host w) refl refl (begin-Begun w k))
    | inr (x, e) ↦ let fails : (write host p w).0 ≡ w = rw e refl in subst Tells (sym fails) k
  ]

  append-Tells : (body : Option ℕ) (w : Writer) → Tells w → Tells ((append host body w).0)
  unfolding append
  append-Tells none w k = elim (Option-cases w.send_err) [
    | inl e ↦
        let begins : (append host none w).0 ≡ begin host w = rw e refl in
        subst Tells (sym begins) (begin-Begun w k).0
    | inr (x, e) ↦ let fails : (append host none w).0 ≡ w = rw e refl in subst Tells (sym fails) k
  ]
  append-Tells (some b) w k = elim (Option-cases w.send_err) [
    | inl e ↦
        let appends : (append host (some b) w).0 ≡ logged host (body_append b ∷ []) (begin host w) =
          rw e refl in
        subst Tells (sym appends)
          (logged-Tells (body_append b) (begin host w) refl refl (begin-Begun w k))
    | inr (x, e) ↦
        let fails : (append host (some b) w).0 ≡ w = rw e refl in subst Tells (sym fails) k
  ]

  close-Tells : (w : Writer) → Tells w → Tells ((close host w).0)
  unfolding close
  close-Tells w k = elim (Option-cases w.send_err) [
    | inl e ↦
        let closes : close host w ≡ finish host (begin host w) = rw e refl in
        subst (λ r. Tells (r.0)) (sym closes) (finish-Tells (begin host w) (begin-Begun w k))
    | inr (x, e) ↦ let fails : (close host w).0 ≡ w = rw e refl in subst Tells (sym fails) k
  ]

  run_op-Tells : (o : Op) (w : Writer) → Tells w → Tells (run_op host o w)
  unfolding run_op
  run_op-Tells (op_change_header h) w k = k
  run_op-Tells (op_write_header code) w k = write_header-Tells code w k
  run_op-Tells (op_write p) w k = write-Tells p w k
  run_op-Tells (op_append body) w k = append-Tells body w k
  run_op-Tells op_close w k = close-Tells w k
  run_op-Tells (op_set_manual_framing_mode mode) w k = k

  run_ops-Tells : (os : List Op) (w : Writer) → Tells w → Tells (run_ops host os w)
  unfolding run_ops
  run_ops-Tells [] w k = k
  run_ops-Tells (o ∷ os) w k = run_ops-Tells os (run_op host o w) (run_op-Tells o w k)

-- Whatever a handler does and whatever the host answers, the calls of a new `responseWriter` come in
-- order: early hints, the header once, the body, the trailers, and one close; behind it only writes
-- and appends, which reach the closed body. The two flags tell where the calls stand.
pub run_ops-after_calls :
    (host : Host) (os : List Op)
    → after_calls preamble (run_ops host os new_response_writer).log
      ≡ phase (run_ops host os new_response_writer)
run_ops-after_calls host os = (run_ops-Tells host os new_response_writer (refl, λ e. cc)).0
