-- ===== src/Values.antt =====
-- internal/abi/fastly/types.go: `Values`, the iterator over the values that a host call yields in
-- several pieces. The host call is a parameter.
pub mod Contract
pub mod Collect
pub mod Sample
mod Tests
use compute_sdk_go.Common.{
  ℕ, zero, suc, ◌+◌, ◌-◌, ◌%◌, ◌^◌, Bool, true, false, not, ◌&&◌, List, [], ◌∷◌, Option, none, some,
  ltb, ◌==◌, if◌then◌else◌, Bytes, is_empty, cut, take,
}
use compute_sdk_go.Common.Int.{ℤ, pos, negsuc}
use compute_sdk_go.Abi.Status.{status_buf_len}
use compute_sdk_go.Abi.Errors.{GoError, plain, to_error}

-- What a call leaves behind: its status, the number of bytes that it wrote or asks for, the buffer,
-- and the ending cursor.
pub record Answer : Type 0 where
  pub status : ℕ
  pub nwritten : ℕ
  pub buffer : Bytes
  pub ending : ℤ

-- `multiValueHostcall`: the answer to a capacity and a cursor.
abbrev pub MultiValueHostcall : Type 0
MultiValueHostcall = ℕ → ℕ → Answer

-- `Values`; of `buffer` the capacity matters alone.
pub record Values : Type 0 where
  pub capacity : ℕ
  pub cursor : ℕ
  pub pending : Bytes
  pub value : Bytes
  pub finished : Bool
  pub error : Option GoError

abbrev pub new_values : ℕ → Values
new_values capacity = record {
  capacity = capacity;
  cursor = 0;
  pending = [];
  value = [];
  finished = false;
  error = none;
}

abbrev pub is_finished : ℤ → Bool
is_finished (pos n) = false
is_finished (negsuc n) = true

-- The conversion of an `int64` to a `uint32`.
abbrev pub to_cursor : ℤ → ℕ
to_cursor (pos n) = n % 2 ^ 32
to_cursor (negsuc n) = 2 ^ 32 - 1 - n % 2 ^ 32

-- The end of the loop of `nextValue`, where the buffer is large enough or the call fails.
abbrev pub received : Answer → Values → Values
received a v = elim (to_error a.status) [
  | some e ↦ record v { error = some e }
  | none ↦ record v {
    cursor = to_cursor a.ending;
    finished = is_finished a.ending;
    pending = take a.nwritten a.buffer;
  }
]

abbrev missing_terminator : GoError
missing_terminator = plain "missing terminator"

-- The end of `Next`: `bytes.Cut` at the first zero byte.
unfoldable pub advance : Values → Values × Bool
unfolding cut
advance v = elim (cut 0 v.pending) [
  | some (value, rest) ↦ (record v { value = value; pending = rest }, true)
  | none ↦ (
    record v {
      value = v.pending;
      pending = [];
      error = if v.finished then v.error else some missing_terminator;
    },
    false,
  )
]

module _ (host : MultiValueHostcall) where
  -- `nextValue`; `none` where the fuel has run out.
  unfoldable pub next_value : ℕ → Values → Option Values
  unfolding to_error
  next_value zero v = none
  next_value (suc fuel) v =
      let a = host v.capacity v.cursor in
      let again = next_value fuel (record v { capacity = a.nwritten }) in
      if a.status == status_buf_len && ltb 0 a.nwritten then again else some (received a v)

  -- What follows `nextValue` in `Next`.
  abbrev pub after_next_value : Option Values → Option (Values × Bool)
  after_next_value none = none
  after_next_value (some v) = elim v.error [ some e ↦ some (v, false) | none ↦ some (advance v) ]

  unfoldable pub next : ℕ → Values → Option (Values × Bool)
  unfolding next_value advance
  next fuel v = elim v.error [
    | some e ↦ some (v, false)
    | none ↦
        if not (is_empty v.pending)
        then some (advance v)
        else if v.finished
        then some (v, false)
        else after_next_value (next_value fuel v)
  ]

  -- `for v.Next() { … v.Bytes() … }`: the bytes of each round, and the iterator at the end. The
  -- first fuel bounds the rounds, the second those of `nextValue`.
  unfoldable pub iterate : ℕ → ℕ → Values → Option (List Bytes × Values)
  unfolding next
  iterate zero fuel v = none
  iterate (suc rounds) fuel v = elim (next fuel v) [
    | none ↦ none
    | some (w, more) ↦ elim more [
      | false ↦ some ([], w)
      | true ↦ elim (iterate rounds fuel w) [
        | none ↦ none
        | some (rest, end) ↦ some (w.value ∷ rest, end)
      ]
    ]
  ]
