-- ===== src/Abi/Tests.antt =====
-- internal/abi/fastly/types.go: tests, and the theorems at concrete inputs.

use compute_sdk_go.Common.{◌≡◌, ◌≢◌, ◌≤◌, ◌++◌, refl, some, none, true, false, Bytes, codes}
use compute_sdk_go.Common.Int.{decimal}
use compute_sdk_go.Abi.Status.{
  status_error, status_none, status_string, has, lookup_stale, lookup_usable,
}
use compute_sdk_go.Abi.Errors.{GoError, is_fastly_error, ignore_none_error}
use compute_sdk_go.Abi.SendErrors.{
  SendErrorDetail, FastlyError, new_send_error_detail, case_of, tls_alert_string, dns_text,
  tls_text, unknown_text, detail_string, to_send_error, status_text, fastly_error_text,
}
use compute_sdk_go.Abi.Causes.{cause_of, to_send_error_lem}

names : (status_string status_none ≡ some "None") × (status_string 15 ≡ none)
unfolding status_string
names = (refl, refl)

bits : (has 7 lookup_stale ≡ true) × (has 5 lookup_usable ≡ false)
unfolding has
bits = (refl, refl)

ignored :
    (ignore_none_error (some (GoError.wrap "get" (GoError.fastly status_none))) ≡ none)
    × (ignore_none_error (some (GoError.plain "eof")) ≡ some (GoError.plain "eof"))
unfolding ignore_none_error is_fastly_error
ignored = (refl, refl)

-- A name that DNS does not have.
abbrev no_such_name : SendErrorDetail
no_such_name = record {
  tag = 3;
  mask = 6;
  dns_error_rcode = 3;
  dns_error_info_code = 0;
  tls_alert_id = 0;
  h2_error_frame = 0;
  h2_error_code = 0;
}

texts :
    (detail_string no_such_name ≡ some (codes "DNS error (rcode=3, info_code=0)"))
    × (detail_string new_send_error_detail ≡ none)
    × (detail_string (record no_such_name { tag = 23; tls_alert_id = 42 })
        ≡ some (codes "TLS alert received (bad certificate)"))
    × (detail_string (record no_such_name { tag = 99 }) ≡ some (codes "unknown error (99)"))
unfolding detail_string new_send_error_detail dns_text tls_text tls_alert_string unknown_text
    case_of decimal
texts = (refl, refl, refl, refl)

to_send_error_lem_example :
    (status_error ≡ 0 → to_send_error status_error no_such_name ≡ none)
    × (status_error ≢ 0
        → (e : FastlyError) × (to_send_error status_error no_such_name ≡ some e)
          × (e.status ≡ status_error)
          × (no_such_name.tag ≤ 1
              → fastly_error_text e ≡ some (codes "Fastly error: " ++ status_text status_error))
          × (2 ≤ no_such_name.tag
              → (t : Bytes) × (detail_string no_such_name ≡ some t)
                × (fastly_error_text e ≡ some (codes "Fastly error: send error: " ++ t))
                × (cause_of t ≡ some no_such_name.tag)))
to_send_error_lem_example = to_send_error_lem status_error no_such_name
