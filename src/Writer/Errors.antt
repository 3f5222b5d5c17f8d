-- ===== src/Writer/Errors.antt =====
-- fsthttp/response.go: what a `responseWriter` returns when its header was refused.
use compute_sdk_go.Common.{◌≡◌, refl, true, false, ◌++◌, Option, none, some, ℕ, Bytes}
use compute_sdk_go.Common.Int.{ℤ}
use compute_sdk_go.Abi.Status.{status_inval}
use compute_sdk_go.Abi.Errors.{GoError, has_status}
use compute_sdk_go.Writer.{
  Host, Writer, err_invalid_status_code, preamble_calls, write_header, write, append, close,
}

module _ (host : Host) where
  write_header-send_err :
      (code : ℤ) (w : Writer) (x : GoError)
      → w.wrote_headers ≡ false
      → host.send (w.log ++ preamble_calls code w) ≡ some x
      → has_status status_inval x ≡ true
      → (write_header host code w).send_err ≡ some err_invalid_status_code
  unfolding write_header
  write_header-send_err code w x e s i = rw (e, s, i) refl

  write_refused :
      (p : Bytes) (w : Writer) (x : GoError)
      → w.send_err ≡ some x
      → write host p w ≡ (w, (0, some x))
  unfolding write
  write_refused p w x e = rw e refl

  append_refused :
      (body : Option ℕ) (w : Writer) (x : GoError)
      → w.send_err ≡ some x
      → append host body w ≡ (w, some x)
  unfolding append
  append_refused none w x e = rw e refl
  append_refused (some b) w x e = rw e refl

  close_refused : (w : Writer) (x : GoError) → w.send_err ≡ some x → close host w ≡ (w, some x)
  unfolding close
  close_refused w x e = rw e refl

-- When the host refuses the status code that the first `WriteHeader` sends, `Write`, `Append` and
-- `Close` return `ErrInvalidStatusCode` and call nothing.
pub write_header_refused :
    (host : Host) (code : ℤ) (w : Writer) (x : GoError) (p : Bytes) (body : Option ℕ)
    → w.wrote_headers ≡ false
    → host.send (w.log ++ preamble_calls code w) ≡ some x
    → has_status status_inval x ≡ true
    → let refused = write_header host code w in
      (write host p refused ≡ (refused, (0, some err_invalid_status_code)))
      × (append host body refused ≡ (refused, some err_invalid_status_code))
      × (close host refused ≡ (refused, some err_invalid_status_code))
write_header_refused host code w x p body e s i =
    let sent = write_header-send_err host code w x e s i in
    (
      write_refused host p (write_header host code w) err_invalid_status_code sent,
      append_refused host body (write_header host code w) err_invalid_status_code sent,
      close_refused host (write_header host code w) err_invalid_status_code sent,
    )
