-- ===== src/Serving/Tests.antt =====
-- fsthttp/handle.go: tests, and the theorem at a concrete world.
use compute_sdk_go.Common.{ℕ, ◌*◌, ◌≡◌, refl, ◌∷◌, [], map, Option, none, some, arith, not, ◌==◌}
use compute_sdk_go.Common.Int.{pos}
use compute_sdk_go.Abi.Errors.{GoError, ok, is_fastly_error}
use compute_sdk_go.Header.{values}
use compute_sdk_go.Writer.{
  Host, Writer, new_response_writer, write_header, write_trailers, header_calls, prefixed, declared,
  trailer_calls, parse_trailers, preamble_calls, begin, finish, close,
}
use compute_sdk_go.Serving.{
  ServeManyOptions, World, Ending, breaks, next_client, serve, respond, serve_client, serve_rest,
  serve_many,
}
use compute_sdk_go.Serving.Bounds.{Serves, serve_many-Serves}

abbrev host_sending : Option GoError → Host
host_sending e = record {
  send = λ calls. e;
  write = λ calls. (0, none);
  append = λ calls. none;
  close = λ calls. none;
}

-- A world in which clients never end, and handlers do nothing.
abbrev busy : World ℕ
busy = record {
  downstream = ok 7;
  since = λ n. n * 10;
  next_request = λ n t. ok n;
  wait = λ n promise. ok promise;
  response_host = λ n. host_sending none;
  client_request = λ n handles. ok handles;
  response_writer = λ n. ok new_response_writer;
  handler = λ n r w. w;
}

abbrev two_requests : ServeManyOptions
two_requests = record {
  next_timeout = pos 0;
  max_lifetime = pos 0;
  max_requests = pos 2;
  continue = none;
}

two_served : map (λ c. c.0) (serve_many busy two_requests 2).served ≡ 1 ∷ 2 ∷ []
unfolding serve_many serve_rest serve_client next_client breaks serve respond close begin
    write_header preamble_calls header_calls parse_trailers values finish write_trailers prefixed
    declared trailer_calls
two_served = refl

-- `Continue` and `MaxLifetime` end the loop, too.
stopped_early :
    ((serve_many busy
        (record two_requests { max_requests = pos 0; continue = some (λ n. not (n == 2)) })
        9).ending
      ≡ Ending.finished)
    × ((serve_many busy
          (record two_requests { max_requests = pos 0; max_lifetime = pos 25 })
          9).ending
        ≡ Ending.finished)
unfolding serve_many serve_rest serve_client next_client breaks serve respond close begin
    write_header preamble_calls header_calls parse_trailers values finish write_trailers prefixed
    declared trailer_calls
stopped_early = (refl, refl)

-- The response of a handler that writes nothing is sent by the last `Close`, whose error is lost.
send_error_lost :
    (w : Writer) × (serve {R = ℕ}
        (host_sending (some (GoError.fastly 1)))
        (ok 7)
        (ok new_response_writer)
        (λ r w. w)
      ≡ ok w)
    × (w.send_err ≡ some (GoError.fastly 1))
unfolding serve respond close begin write_header preamble_calls header_calls parse_trailers values
    finish write_trailers prefixed declared trailer_calls is_fastly_error
send_error_lost = (_, refl, refl)

serve_many-Serves_example : Serves 1 2 (serve_many busy two_requests 2)
serve_many-Serves_example = serve_many-Serves busy two_requests 2 refl (omega arith)
