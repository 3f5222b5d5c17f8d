-- ===== src/Abi/Status.antt =====
-- internal/abi/fastly/types.go: `FastlyStatus`, and the bits of `CacheLookupState`.
use Prim.Native.Nat.{bit_and}
use Prim.Native.String.{String}
use compute_sdk_go.Common.{ℕ, Bool, Option, none, some, ◌==◌, if◌then◌else◌}

abbrev pub status_ok : ℕ
status_ok = 0

abbrev pub status_error : ℕ
status_error = 1

abbrev pub status_inval : ℕ
status_inval = 2

abbrev pub status_badf : ℕ
status_badf = 3

abbrev pub status_buf_len : ℕ
status_buf_len = 4

abbrev pub status_unsupported : ℕ
status_unsupported = 5

abbrev pub status_none : ℕ
status_none = 10

abbrev pub status_limit_exceeded : ℕ
status_limit_exceeded = 13

abbrev pub status_again : ℕ
status_again = 14

-- The names of the codes from 0 to 14; `none` where `String` prints the number.
unfoldable pub status_string : ℕ → Option String
status_string s =
    if s == 0
    then some "OK"
    else if s == 1
    then some "Error"
    else if s == 2
    then some "Inval"
    else if s == 3
    then some "Badf"
    else if s == 4
    then some "BufLen"
    else if s == 5
    then some "Unsupported"
    else if s == 6
    then some "BadAlign"
    else if s == 7
    then some "HTTPInvalid"
    else if s == 8
    then some "HTTPUser"
    else if s == 9
    then some "HTTPIncomplete"
    else if s == 10
    then some "None"
    else if s == 11
    then some "HTTPHeadTooLarge"
    else if s == 12
    then some "HTTPInvalidStatus"
    else if s == 13
    then some "LimitExceeded"
    else if s == 14
    then some "Again"
    else none

abbrev pub lookup_found : ℕ
lookup_found = 1

abbrev pub lookup_usable : ℕ
lookup_usable = 2

abbrev pub lookup_stale : ℕ
lookup_stale = 4

abbrev pub lookup_must_insert_or_update : ℕ
lookup_must_insert_or_update = 8

abbrev pub lookup_usable_if_error : ℕ
lookup_usable_if_error = 16

-- `CacheLookupState.Has`
unfoldable pub has : ℕ → ℕ → Bool
has c m = bit_and c m == m
