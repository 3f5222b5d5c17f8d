-- ===== src/Buffers.antt =====
-- internal/abi/fastly: the loops around a single host call. `withAdaptiveBuffer` (adaptivebuf.go)
-- asks again with a larger buffer, `LogEndpoint.Write` (log_guest.go) and `HTTPBody.Write`
-- (http_guest.go) hand over what the host has not taken yet. The host call is a parameter.
pub mod Adaptive
pub mod Writes
mod Tests
use compute_sdk_go.Common.{
  ℕ, zero, suc, ◌+◌, Bool, ◌&&◌, List, [], ◌∷◌, Option, none, some, ltb, ◌==◌, if◌then◌else◌, Bytes,
  length, take, drop,
}
use compute_sdk_go.Abi.Status.{status_buf_len}
use compute_sdk_go.Abi.Errors.{GoError, Result, ok, err, plain, to_error}

-- The status, the number of bytes that are written or asked for, and the buffer.
pub record Reply : Type 0 where
  pub status : ℕ
  pub nvalue : ℕ
  pub buffer : Bytes

-- `status.toError()` and, where it is nil, the bytes of the buffer.
abbrev pub bytes_of : Reply → Result Bytes
bytes_of r = elim (to_error r.status) [ some e ↦ err e | none ↦ ok (take r.nvalue r.buffer) ]

-- `withAdaptiveBuffer`; `none` where the fuel has run out. The host answers a capacity.
unfoldable pub with_adaptive_buffer : (ℕ → Reply) → ℕ → ℕ → Option (Result Bytes)
unfolding to_error
with_adaptive_buffer host zero n = none
with_adaptive_buffer host (suc fuel) n =
    let r = host n in
    let again = with_adaptive_buffer host fuel r.nvalue in
    if r.status == status_buf_len && ltb 0 r.nvalue then again else some (bytes_of r)

-- The answer to a write: the status, and the number of bytes that the host has taken.
pub record Taken : Type 0 where
  pub status : ℕ
  pub nwritten : ℕ

-- What `Write` returns, and the pieces that the host has taken.
pub record Written : Type 0 where
  pub n : ℕ
  pub error : Option GoError
  pub pieces : List Bytes

-- The loop of `Write` in its round `i`, where `n` bytes are taken; `none` where the fuel has run out.
unfoldable pub write_loop : (ℕ → Bytes → Taken) → ℕ → ℕ → Bytes → ℕ → Option Written
unfolding to_error
write_loop host zero i p n = none
write_loop host (suc fuel) i p n =
    let t = host i (drop n p) in
    let piece = take t.nwritten (drop n p) in
    let more = write_loop host fuel (i + 1) p (n + t.nwritten) in
    if ltb n (length p)
    then elim (to_error t.status) [
      | some e ↦ some (record { n = n; error = some e; pieces = [] })
      | none ↦ elim more [ none ↦ none | some w ↦ some (record w { pieces = piece ∷ w.pieces }) ]
    ]
    else some (record { n = n; error = none; pieces = [] })

unfoldable pub write : (ℕ → Bytes → Taken) → ℕ → Bytes → Option Written
unfolding write_loop
write host fuel p = write_loop host fuel 0 p 0

-- `HTTPBody.Read`: the bytes, or an error; no bytes are the end of the body.
abbrev pub eof : GoError
eof = plain "EOF"

unfoldable pub read : (ℕ → Reply) → ℕ → Result Bytes
unfolding to_error
read host n =
    let r = host n in
    elim (to_error r.status) [
      | some e ↦ err e
      | none ↦ if r.nvalue == 0 then err eof else ok (take r.nvalue r.buffer)
    ]
