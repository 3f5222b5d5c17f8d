-- ===== src/Writer.antt =====
-- fsthttp/response.go: `responseWriter`, with the host calls that it makes in order. What the host
-- answers may depend on all the calls before.
pub mod Order
pub mod Errors
mod Tests
use compute_sdk_go.Common.{
  ℕ, Bool, true, false, not, ◌&&◌, ◌||◌, List, [], ◌∷◌, ◌++◌, map, Option, none, some, ◌==◌,
  if◌then◌else◌, Bytes, codes, same, is_empty, split, trim, keep,
}
use compute_sdk_go.Common.Int.{ℤ, pos, negsuc}
use compute_sdk_go.Abi.Status.{status_inval, status_badf}
use compute_sdk_go.Abi.Errors.{GoError, plain, has_status}
use compute_sdk_go.Header.{Header, canonical_header_key, keys, values, put}

-- `send_downstream` carries the argument `stream`, `body_append` the handle of the other body.
pub data Call : Type 0 where
  set_framing_mode : Bool → Call
  set_status : ℤ → Call
  set_header_values : Bytes → List Bytes → Call
  send_downstream : Bool → Call
  body_write : Bytes → Call
  body_append : ℕ → Call
  trailer_append : Bytes → Bytes → Call
  body_close : Call

-- The answers to the last call of a list of calls; `none` is a nil error.
pub record Host : Type 0 where
  pub send : List Call → Option GoError
  pub write : List Call → ℕ × Option GoError
  pub append : List Call → Option GoError
  pub close : List Call → Option GoError

-- `responseWriter`, without the handles; `log` holds the host calls so far.
pub record Writer : Type 0 where
  pub header : Header
  pub wrote_headers : Bool
  pub closed : Bool
  pub manual_framing_mode : Bool
  pub send_err : Option GoError
  pub trailers : List Bytes
  pub log : List Call

abbrev pub new_response_writer : Writer
new_response_writer = record {
  header = [];
  wrote_headers = false;
  closed = false;
  manual_framing_mode = false;
  send_err = none;
  trailers = [];
  log = [];
}

abbrev pub err_closed : GoError
err_closed = plain "connection has been closed"

abbrev pub err_invalid_status_code : GoError
err_invalid_status_code = plain "invalid HTTP status code"

-- `code == StatusEarlyHints`
abbrev pub is_early_hints : ℤ → Bool
is_early_hints (pos n) = n == 103
is_early_hints (negsuc n) = false

-- `excludeHeadersNoBody[key]`
unfoldable pub excludes : Bytes → Bool
unfolding canonical_header_key
excludes key =
    same key (canonical_header_key (codes "Content-Length"))
    || same key (canonical_header_key (codes "Transfer-Encoding"))
    || same key (canonical_header_key (codes "Trailer"))

-- `headerNewlineToSpace.Replace`
abbrev pub newline_to_space : Bytes → Bytes
newline_to_space = map (λ c. if c == b'\n' || c == b'\r' then b' ' else c)

-- The calls of the loop over the keys.
unfoldable pub header_calls : Bool → List Bytes → Header → List Call
unfolding excludes values
header_calls hints [] h = []
header_calls hints (key ∷ ks) h =
    let rest = header_calls hints ks h in
    if hints && excludes key
    then rest
    else set_header_values key (map newline_to_space (values key h)) ∷ rest

unfoldable pub parse_trailers : List Bytes → List Bytes
unfolding split trim
parse_trailers [] = []
parse_trailers (v ∷ vs) =
    let (p, ps) = split b',' v in
    keep (λ h. not (is_empty h)) (map trim (p ∷ ps)) ++ parse_trailers vs

-- `strings.CutPrefix`
unfoldable pub cut_prefix : Bytes → Bytes → Option Bytes
cut_prefix s [] = some s
cut_prefix [] (p ∷ ps) = none
cut_prefix (c ∷ cs) (p ∷ ps) = let rest = cut_prefix cs ps in if c == p then rest else none

-- `if len(v) > 0 { t[key] = v }`
abbrev pub put_some : Bytes → List Bytes → Header → Header
put_some key [] t = t
put_some key (v ∷ vs) t = put key (v ∷ vs) t

-- The loop over the keys of the header.
unfoldable pub prefixed : List Bytes → Header → Header → Header
unfolding cut_prefix values put
prefixed [] h t = t
prefixed (k ∷ ks) h t =
    prefixed ks h
      (elim (cut_prefix k (codes "Trailer:")) [ some key ↦ put_some key (values k h) t | none ↦ t ])

-- The loop over the saved names.
unfoldable pub declared : List Bytes → Header → Header → Header
unfolding values put
declared [] h t = t
declared (k ∷ ks) h t = declared ks h (put_some k (values k h) t)

-- The last loop; no entry is without a value.
unfoldable pub trailer_calls : Header → List Call
trailer_calls [] = []
trailer_calls ((k, []) ∷ t) = trailer_calls t
trailer_calls ((k, v ∷ vs) ∷ t) = trailer_append k v ∷ trailer_calls t

unfoldable pub write_trailers : Writer → List Call
unfolding prefixed declared trailer_calls
write_trailers w =
    trailer_calls (declared w.trailers w.header (prefixed (keys w.header) w.header []))

-- `err` with `replacement` in the place of an error of the status `s`.
abbrev pub replace_status : ℕ → GoError → Option GoError → Option GoError
replace_status s replacement none = none
replace_status s replacement (some e) = if has_status s e then some replacement else some e

-- `Header` gives out the map, so that the handler may change it at any time.
abbrev pub change_header : Header → Writer → Writer
change_header h w = record w { header = h }

abbrev pub set_manual_framing_mode : Bool → Writer → Writer
set_manual_framing_mode mode w = record w { manual_framing_mode = mode }

-- The calls of `WriteHeader`.
unfoldable pub preamble_calls : ℤ → Writer → List Call
unfolding header_calls
preamble_calls code w =
    set_framing_mode w.manual_framing_mode
      ∷ set_status code
      ∷ header_calls (is_early_hints code) (keys w.header) w.header
    ++ send_downstream (not (is_early_hints code)) ∷ []

module _ (host : Host) where
  unfoldable pub write_header : ℤ → Writer → Writer
  unfolding preamble_calls parse_trailers values
  write_header code w =
      let log = w.log ++ preamble_calls code w in
      if w.wrote_headers then w else record w {
        log = log;
        send_err = replace_status status_inval err_invalid_status_code (host.send log);
        trailers = parse_trailers (values (codes "Trailer") w.header);
        wrote_headers = if is_early_hints code then w.wrote_headers else true;
      }

  -- `if !resp.wroteHeaders { resp.WriteHeader(200) }`
  unfoldable pub begin : Writer → Writer
  unfolding write_header
  begin w = if w.wrote_headers then w else write_header (pos 200) w

  abbrev pub logged : List Call → Writer → Writer
  logged calls w = record w { log = w.log ++ calls }

  unfoldable pub write : Bytes → Writer → Writer × (ℕ × Option GoError)
  unfolding begin
  write p w = elim w.send_err [
    | some e ↦ (w, (0, some e))
    | none ↦
        let w' = logged (body_write p ∷ []) (begin w) in
        (w', ((host.write w'.log).0, replace_status status_badf err_closed (host.write w'.log).1))
  ]

  -- The rest of `Close`, behind the header.
  unfoldable pub finish : Writer → Writer × Option GoError
  unfolding write_trailers
  finish w =
      let w' = logged (write_trailers w ++ body_close ∷ []) (record w { closed = true }) in
      if w.closed then (w, none) else (w', host.close w'.log)

  unfoldable pub close : Writer → Writer × Option GoError
  unfolding begin finish
  close w = elim w.send_err [ some e ↦ (w, some e) | none ↦ finish (begin w) ]

  -- `none` is a body that does not come from the host.
  unfoldable pub append : Option ℕ → Writer → Writer × Option GoError
  unfolding begin
  append none w = elim w.send_err [
    | some e ↦ (w, some e)
    | none ↦ (begin w, some (plain "non-Response Body passed to ResponseWriter.Append"))
  ]
  append (some body) w = elim w.send_err [
    | some e ↦ (w, some e)
    | none ↦ let w' = logged (body_append body ∷ []) (begin w) in (w', host.append w'.log)
  ]
