-- ===== src/Lib.antt =====
-- The Fastly Compute SDK for Go: a program on Fastly's edge handles requests through the package
-- `fsthttp`, which speaks to the host by the calls of internal/abi/fastly. The model covers the
-- parts with logic of their own.
--
-- * Abi (internal/abi/fastly/types.go): the status of a host call becomes an error (`to_error` is
--   `toError`), which every layer annotates, and which `IsFastlyError` finds again. Errors are
--   values: `Result` is Go's pair of a value and an error. Abi/SendErrors has
--   `SendErrorDetail`, the error of a failed send and their texts, and Abi/Causes proves what these
--   tell. Abi/Answers has the calls that answer a
--   value, made in a row until one fails, and what Backend/Populate and CoreCache/Fields prove of
--   such rows in common.
-- * Values (internal/abi/fastly/types.go: `Values`): the iterator over the values that the
--   host hands out by a cursor and a buffer, which grows. Values/Contract is what the host
--   promises, and Values/Collect proves. Buffers (internal/abi/fastly/adaptivebuf.go,
--   log_guest.go): `withAdaptiveBuffer` and the loops of `Write`, with Buffers/Adaptive and
--   Buffers/Writes. Message (fsthttp/response.go: `newResponse`, `Trailers`; fsthttp/request.go: the
--   header in `newClientRequest`) reads headers by way of Values; Message/Read proves.
--   Message/Meta is `FastlyMeta` of fsthttp/request.go, and Message/Asked proves.
-- * Cookie (fsthttp/cookie.go; fsthttp/request.go: `Cookies`, `Cookie`, `AddCookie`): Cookie/Token
--   has the classes of bytes, Cookie/Value sanitizes and parses values, Cookie/Domain checks domain
--   names, Cookie/Write is `String`, `Valid` and `SetCookie`, Cookie/Read is `readSetCookies` and
--   `readCookies`, Cookie/Request the methods of `Request`. A header is the list of the values of
--   its field. Cookie/Safe, Cookie/Quoting, Cookie/Loop, Cookie/Pairs, Cookie/Field and
--   Cookie/RoundTrip prove, and for `Set-Cookie` Cookie/Attrs, Cookie/Steps, Cookie/Spread and
--   Cookie/SetCookies. Cookie/Labels and Cookie/Grammar compare the loop over a domain with a grammar,
--   and Cookie/Valid is about `Valid`.
-- * Header (fsthttp/headers.go): the map of headers as a list of entries with canonical keys.
--   `Apply` takes the values of the other header at once: a header applied to itself, one map under
--   two names, is outside the model. Header/Keys, Header/Entries, Header/Copies and Header/Invariant
--   prove.
-- * HttpCache (fsthttp/cache.go; fsthttp/response.go: what a response tells of the cache): a
--   response of a backend becomes a `Candidate`, which hooks of the program change by setters
--   (HttpCache/Setters) and read by getters (HttpCache/Candidate); `finalizeOptions`
--   (HttpCache/Finalize) merges the overrides with the host's suggestions, and
--   `applyAndStreamBack` and `applyInBackground` (HttpCache/Apply) carry the storage action out.
--   HttpCache/Options is the record of options and its form on the host, HttpCache/Seconds the
--   arithmetic of seconds and nanoseconds, HttpCache/Found what is read back from a cache handle.
--   HttpCache/Transactions, HttpCache/Outcome, HttpCache/Freshness and HttpCache/Getters prove.
--   HttpCache/Run is the type of runs: host calls in order, and how the code ends.
-- * Send (fsthttp/request.go: `shouldUseGuestCaching`, `sendWithGuestCache`, `sendAsyncForCaching`;
--   fsthttp/response.go: `updateFastlyCacheHeaders`): Send/Choice decides between the cache of the
--   guest and that of the host, Send/Guest looks a request up in the cache and, where it has to,
--   asks the backend, makes a candidate of the response and has HttpCache/Apply store it; the
--   background revalidation is a run of its own. Send/Weights counts calls, Send/Bounds,
--   Send/Handles, Send/Released and Send/Accounting prove. Send/Dispatch is `Send` with `constructABIRequest` and
--   `setABIRequestOptions`, with proofs in Send/Dispatch/Quiet, Once and Again; Send/Poll is `copyBody`
--   and the polling of a pending request.
-- * Backend (fsthttp/backend.go; internal/abi/fastly/types.go: `BackendConfigOptions`;
--   internal/abi/fastly/backends_guest.go): Backend/Options is the builder of options, as a list of its
--   calls, Backend/Config is `RegisterDynamicBackend`, `BackendFromName` and `populateConfig`.
--   Backend/Said is an independent description of what each call of the builder asks for.
--   Backend/Populate, Backend/Timeouts and Backend/Latest prove.
-- * CoreCache (cache/core/core.go; internal/abi/fastly/cache_guest.go): CoreCache is `Found`, with
--   `newFound` and the errors; CoreCache/Options the options of lookups and writes and their form on
--   the host; CoreCache/Lookups is `Lookup` and `Insert`, CoreCache/Transactions is `Transaction`.
--   CoreCache/Fields, CoreCache/Lookups/Handles and CoreCache/Transactions/Runs prove.
-- * SimpleCache (cache/simple/simple.go): `Get`, `GetOrSet` and `Purge`, on top of CoreCache.
--   The copy of the entry's body to the writer is one write of all its bytes.
--   SimpleCache/Writing, SimpleCache/Handles, SimpleCache/Contents and SimpleCache/Purging prove.
-- * KvStore (kvstore/kvstore.go; internal/abi/fastly/kvstore_guest.go): operations that start and
--   are waited for; KvStore/Listing is `ListIter`. KvStore/Outcomes and KvStore/Pages prove.
-- * Writer (fsthttp/response.go: `responseWriter`): the writer's fields and, in order, the host calls
--   that `WriteHeader`, `Write`, `Append` and `Close` make. Writer/Order has an automaton that
--   says which orders of calls are right, and Writer/Errors the errors of a refused header.
-- * ImageOpto (fsthttp/imageopto/imageopto.go): the options of the Image Optimizer. ImageOpto/Area
--   and ImageOpto/Modes are the types of the options with their checks and texts,
--   ImageOpto/Options is `validateParams`, ImageOpto/Query is `QueryString`. ImageOpto/Texts
--   and ImageOpto/Axes have the grammar of lengths and of positions, against the recognizers that stand
--   for the regular expressions (with ImageOpto/Steps), and ImageOpto/Ranges the ranges of the parts;
--   ImageOpto/Checks and ImageOpto/Gaps prove.
-- * Serving (fsthttp/handle.go: `serve`, `ServeMany`) runs handlers over the response writer of
--   Writer, one request after the other, until a limit, an error or the host ends the loop.
--   Serving/Bounds proves.
-- * Common holds what the parts share: lists, texts as lists of bytes, Go's `int`, its decimal
--   text and `strconv.Atoi`.
--
-- Names are the source's in the spelling of this language. A text is a list of bytes. An integer of
-- Go with 32 or 64 bits is a number, with its wrap-around written out where the code computes.
-- A pointer that may be nil is an `Option`.
--
-- Parameters: what the code does not contain. `TimeLib` is Go's package `time` (the year, the
-- format and the parsers of times), `Floats` what ImageOpto asks of floating-point numbers,
-- `Host`, `Handle`, `Answers` and `SendAnswers` the answers of the host to the calls of
-- fsthttp/cache.go and fsthttp/request.go, and those of the hooks; the `Host` of Writer answers
-- by the calls so far. One request and one candidate are modelled at a time, but in Serving: the
-- host's state behind the calls is not. `Answers` of Send/Dispatch has the answers to the calls
-- of `Send`. `MultiValueHostcall` is a host call with a cursor, and `Honest` its documented
-- contract; `Gives` and `Takes` are those of a call with one value and of a write. `Host` of
-- Backend/Config, `Entry`, `Cache` and `TransactionHost` of CoreCache, `Writer` of SimpleCache,
-- `Host` of KvStore and `ListHost` of KvStore/Listing answer by the arguments of a call; `Fresh`
-- says that the host does not hand out a handle that is in use, `Serves` of KvStore which pages
-- it sends and how its list ends, `World` of Serving answers by the number of the request, and
-- `Reflects` that a cache holds the objects of a map, and gives back what is written to it.
-- `u32_seconds` is the conversion of a duration to seconds by way of a floating-point number,
-- `sha256` the digest, and `unmarshal` the decoder of JSON.
--
-- Fuel: the loop of `readCookies` over a line (`read_line`) has the length of the line as its
-- fuel. Every round takes at least one byte off, so more fuel changes nothing. `decimal` has as
-- many rounds as the number, and each divides it by ten. `with_adaptive_buffer` needs two
-- rounds, `write` as many as the bytes and one more, a loop over the values of the host
-- (`iterate` of Values) one for each value and one more, with a fuel above the limit of its
-- contract for the growing buffer, the loop of `ServeMany` (`serve_rest`) as many as the limit
-- on requests (without one, the loop need not end), and a loop over pages (`iterate` of
-- KvStore/Listing) one for each page and one more: theorems say that this is enough.
--
-- Not modelled: the host calls themselves (internal/abi, in its guest files: pointers, lengths
-- and memory), log lines, the bytes of bodies that are streamed (but in SimpleCache),
-- `Request.Clone` and the fields of a client request other than its header, the adapters to Go's
-- net/http (fsthttp/adapter.go, fsthttp/transport.go), and the packages that pass their arguments on
-- to the host (configstore, edgedict, secretstore, objectstore, acl, erl, geo, device, purge, rtlog,
-- shielding, compute).
pub mod Common
pub mod Abi
pub mod Values
pub mod Buffers
pub mod Message
pub mod Cookie
pub mod Header
pub mod HttpCache
pub mod Send
pub mod Backend
pub mod CoreCache
pub mod SimpleCache
pub mod KvStore
pub mod Writer
pub mod Serving
pub mod ImageOpto
