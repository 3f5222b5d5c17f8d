-- ===== src/Values/Contract.antt =====
-- What the host promises of a call with several values: it writes whole values, each with a
-- terminator, up to the capacity, or says how large a buffer it needs.
use compute_sdk_go.Common.{ℕ, ◌^◌, ◌<◌, ◌≤◌, ◌≡◌, false, List, [], ◌∷◌, ◌++◌, Bytes, contains, take}
use compute_sdk_go.Common.Int.{pos, negsuc}
use compute_sdk_go.Abi.Status.{status_ok, status_buf_len}
use compute_sdk_go.Values.{Answer, MultiValueHostcall}

-- The values, each with a zero byte behind it.
abbrev pub terminated : List Bytes → Bytes
terminated [] = []
terminated (v ∷ vs) = v ++ 0 ∷ terminated vs

-- No value holds a zero byte.
abbrev pub Clear : List Bytes → Type 0
Clear [] = Unit {0}
Clear (v ∷ vs) = (contains 0 v ≡ false) × Clear vs

-- An answer from the cursor `c`, behind which the values `rest c` stand, to a buffer of the given
-- capacity, where no call needs more than `limit` bytes.
pub data Serves (limit : ℕ) (rest : ℕ → List Bytes) (capacity c : ℕ) (a : Answer) : Type 0 where
  grows :
      a.status ≡ status_buf_len
      → capacity < a.nwritten
      → a.nwritten ≤ limit
      → Serves limit rest capacity c a
  ends :
      a.status ≡ status_ok
      → a.ending ≡ negsuc 0
      → take a.nwritten a.buffer ≡ terminated (rest c)
      → Serves limit rest capacity c a
  goes_on :
      (v : Bytes) (vs : List Bytes) (c' : ℕ)
      → a.status ≡ status_ok
      → a.ending ≡ pos c'
      → c' < 2 ^ 32
      → rest c ≡ (v ∷ vs) ++ rest c'
      → take a.nwritten a.buffer ≡ terminated (v ∷ vs)
      → Serves limit rest capacity c a

pub record Honest (limit : ℕ) (rest : ℕ → List Bytes) (host : MultiValueHostcall) : Type 0 where
  pub serves : (capacity c : ℕ) → Serves limit rest capacity c (host capacity c)
  pub clear : (c : ℕ) → Clear (rest c)
