-- ===== src/Writer/Tests.antt =====
-- fsthttp/response.go: tests of the writer, and the theorems at concrete inputs.
use compute_sdk_go.Common.{◌≡◌, refl, [], ◌∷◌, List, true, false, codes, some, none}
use compute_sdk_go.Common.Int.{pos}
use compute_sdk_go.Abi.Status.{status_inval}
use compute_sdk_go.Abi.Errors.{fastly, is_fastly_error}
use compute_sdk_go.Cookie.Token.{is_token_rune}
use compute_sdk_go.Header.{Header}
use compute_sdk_go.Writer.{
  set_framing_mode, set_status, set_header_values, send_downstream, body_write, trailer_append,
  body_close, Host, new_response_writer, parse_trailers, write_header, write, append, close,
  err_invalid_status_code,
}
use compute_sdk_go.Writer.Errors.{write_header_refused}
use compute_sdk_go.Writer.Order.{
  Op, op_change_header, op_write_header, op_write, op_close, run_ops, after_calls, phase, preamble,
  run_ops-after_calls,
}

-- A host that takes everything.
abbrev willing : Host
willing = record {
  send = λ calls. none;
  write = λ calls. (1, none);
  append = λ calls. none;
  close = λ calls. none;
}

-- A host that refuses every header.
abbrev refusing : Host
refusing = record {
  send = λ calls. some (fastly status_inval);
  write = λ calls. (0, none);
  append = λ calls. none;
  close = λ calls. none;
}

abbrev announced : Header
announced = (codes "Trailer", codes "Sum, " ∷ []) ∷ (codes "Sum", codes "7" ∷ codes "8" ∷ []) ∷ []

-- A header that announces a trailer, early hints, a write and two closes.
abbrev handler : List Op
handler =
    op_change_header announced
    ∷ op_write_header (pos 103)
    ∷ op_write (codes "x")
    ∷ op_close
    ∷ op_close
    ∷ []

trailer_names :
    parse_trailers (codes " a ,, b" ∷ codes "c" ∷ []) ≡ codes "a" ∷ codes "b" ∷ codes "c" ∷ []
unfolding parse_trailers
trailer_names = refl

handled :
    (run_ops willing handler new_response_writer).log
    ≡ set_framing_mode false
      ∷ set_status (pos 103)
      ∷ set_header_values (codes "Sum") (codes "7" ∷ codes "8" ∷ [])
      ∷ send_downstream false
      ∷ set_framing_mode false
      ∷ set_status (pos 200)
      ∷ set_header_values (codes "Trailer") (codes "Sum, " ∷ [])
      ∷ set_header_values (codes "Sum") (codes "7" ∷ codes "8" ∷ [])
      ∷ send_downstream true
      ∷ body_write (codes "x")
      ∷ trailer_append (codes "Sum") (codes "7")
      ∷ body_close
      ∷ []
unfolding run_ops is_token_rune
handled = refl

run_ops-after_calls_example :
    after_calls preamble (run_ops willing handler new_response_writer).log
    ≡ phase (run_ops willing handler new_response_writer)
run_ops-after_calls_example = run_ops-after_calls willing handler

refused_status : is_fastly_error (fastly status_inval) ≡ some status_inval
unfolding is_fastly_error
refused_status = refl

write_header_refused_example :
    let refused = write_header refusing (pos 100) new_response_writer in
    (write refusing (codes "x") refused ≡ (refused, (0, some err_invalid_status_code)))
    × (append refusing none refused ≡ (refused, some err_invalid_status_code))
    × (close refusing refused ≡ (refused, some err_invalid_status_code))
unfolding is_fastly_error
write_header_refused_example =
    write_header_refused refusing (pos 100) new_response_writer (fastly status_inval) (codes "x")
      none refl refl refl
