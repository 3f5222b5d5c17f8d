-- ===== src/Abi/SendErrors.antt =====
-- internal/abi/fastly/types.go: `SendErrorDetail`, its text, and the error of a failed send.
use Prim.Native.String.{String}
use compute_sdk_go.Common.{
  ℕ, ◌+◌, Bool, ◌||◌, not, Option, none, some, List, [], ◌∷◌, ◌++◌, ◌==◌, if◌then◌else◌, Bytes,
  codes, is_empty,
}
use compute_sdk_go.Common.Int.{decimal}
use compute_sdk_go.Abi.Status.{status_string}

-- The host fills the fields.
pub record SendErrorDetail : Type 0 where
  pub tag : ℕ
  pub mask : ℕ
  pub dns_error_rcode : ℕ
  pub dns_error_info_code : ℕ
  pub tls_alert_id : ℕ
  pub h2_error_frame : ℕ
  pub h2_error_code : ℕ

abbrev pub tag_uninitialized : ℕ
tag_uninitialized = 0

abbrev pub tag_ok : ℕ
tag_ok = 1

abbrev pub mask_dns_error_rcode : ℕ
mask_dns_error_rcode = 2

abbrev pub mask_dns_error_info : ℕ
mask_dns_error_info = 4

abbrev pub mask_tls_alert_id : ℕ
mask_tls_alert_id = 8

-- What the guest hands to the host: the fields that it understands, which are different bits.
unfoldable pub new_send_error_detail : SendErrorDetail
new_send_error_detail = record {
  tag = tag_uninitialized;
  mask = mask_dns_error_rcode + mask_dns_error_info + mask_tls_alert_id;
  dns_error_rcode = 0;
  dns_error_info_code = 0;
  tls_alert_id = 0;
  h2_error_frame = 0;
  h2_error_code = 0;
}

unfoldable pub valid : SendErrorDetail → Bool
valid d = not (d.tag == tag_uninitialized || d.tag == tag_ok)

-- A `switch` whose cases return texts; `none` is its default.
unfoldable pub case_of : ℕ → List (ℕ × String) → Option Bytes
case_of n [] = none
case_of n ((m, t) ∷ cases) = let rest = case_of n cases in if n == m then some (codes t) else rest

abbrev pub or_else : Option Bytes → Bytes → Bytes
or_else (some t) d = t
or_else none d = d

abbrev tls_alerts : List (ℕ × String)
tls_alerts =
    (0, "close notify")
    ∷ (10, "unexpected message")
    ∷ (20, "bad record MAC")
    ∷ (21, "decryption failed")
    ∷ (22, "record overflow")
    ∷ (30, "decompression failure")
    ∷ (40, "handshake failure")
    ∷ (41, "no certificate")
    ∷ (42, "bad certificate")
    ∷ (43, "unsupported certificate")
    ∷ (44, "certificate revoked")
    ∷ (45, "certificate expired")
    ∷ (46, "certificate unknown")
    ∷ (47, "illegal parameter")
    ∷ (48, "unknown certificate authority")
    ∷ (49, "access denied")
    ∷ (50, "error decoding message")
    ∷ (51, "error decrypting message")
    ∷ (60, "export restriction")
    ∷ (70, "protocol version not supported")
    ∷ (71, "insufficient security level")
    ∷ (80, "internal error")
    ∷ (86, "inappropriate fallback")
    ∷ (90, "user canceled")
    ∷ (100, "no renegotiation")
    ∷ (109, "missing extension")
    ∷ (110, "unsupported extension")
    ∷ (111, "certificate unobtainable")
    ∷ (112, "unrecognized name")
    ∷ (113, "bad certificate status response")
    ∷ (114, "bad certificate hash value")
    ∷ (115, "unknown PSK identity")
    ∷ (116, "certificate required")
    ∷ (120, "no application protocol")
    ∷ []

unfoldable pub tls_alert_string : ℕ → Bytes
unfolding case_of
tls_alert_string id = or_else (case_of id tls_alerts) (decimal id)

abbrev pub causes : List (ℕ × String)
causes =
    (2, "DNS timeout")
    ∷ (4, "destination not found")
    ∷ (5, "destination unavailable")
    ∷ (6, "destination IP unroutable")
    ∷ (7, "connection refused")
    ∷ (8, "connection terminated")
    ∷ (9, "connection timeout")
    ∷ (10, "connection limit reached")
    ∷ (11, "TLS certificate error")
    ∷ (12, "TLS configuration error")
    ∷ (13, "incomplete HTTP response")
    ∷ (14, "HTTP response header section too large")
    ∷ (15, "HTTP response body too large")
    ∷ (16, "HTTP response timeout")
    ∷ (17, "HTTP response status invalid")
    ∷ (18, "HTTP upgrade failed")
    ∷ (19, "HTTP protocol error")
    ∷ (20, "HTTP request cache key invalid")
    ∷ (21, "HTTP request URI invalid")
    ∷ (22, "internal error")
    ∷ (24, "TLS protocol error")
    ∷ (25, "HTTP/2 error")
    ∷ []

unfoldable pub dns_text : SendErrorDetail → Bytes
dns_text d =
    codes "DNS error (rcode="
    ++ (decimal d.dns_error_rcode
        ++ (codes ", info_code=" ++ (decimal d.dns_error_info_code ++ b')' ∷ [])))

unfoldable pub tls_text : SendErrorDetail → Bytes
tls_text d = codes "TLS alert received (" ++ (tls_alert_string d.tls_alert_id ++ b')' ∷ [])

unfoldable pub unknown_text : ℕ → Bytes
unknown_text n = codes "unknown error (" ++ (decimal n ++ b')' ∷ [])

-- `String`; `none` is its panic.
unfoldable pub detail_string : SendErrorDetail → Option Bytes
detail_string d =
    if d.tag == 3
    then some (dns_text d)
    else if d.tag == 23
    then some (tls_text d)
    else if d.tag == tag_uninitialized || d.tag == tag_ok
    then none
    else some (or_else (case_of d.tag causes) (unknown_text d.tag))

-- `SendErrorDetail.Error`
unfoldable pub detail_error : SendErrorDetail → Option Bytes
unfolding detail_string
detail_error d = elim (detail_string d) [ some t ↦ some (codes "send error: " ++ t) | none ↦ none ]

-- A `FastlyError` of a send.
pub record FastlyError : Type 0 where
  pub status : ℕ
  pub detail : Option SendErrorDetail

-- `none` is nil.
unfoldable pub to_send_error : ℕ → SendErrorDetail → Option FastlyError
unfolding valid
to_send_error s d =
    if s == 0
    then none
    else if not (valid d)
    then some (record { status = s; detail = none })
    else some (record { status = s; detail = some d })

-- `FastlyStatus.String`
abbrev pub status_text : ℕ → Bytes
status_text s = elim (status_string s) [
  | some t ↦ codes t
  | none ↦ codes "FastlyStatus(" ++ decimal s ++ b')' ∷ []
]

-- `FastlyError.Error`; `none` is a panic of the detail's.
unfoldable pub fastly_error_text : FastlyError → Option Bytes
unfolding detail_error
fastly_error_text e = elim e.detail [
  | none ↦ some (codes "Fastly error: " ++ status_text e.status)
  | some d ↦ elim (detail_error d) [
    | none ↦ none
    | some t ↦
        if is_empty t
        then some (codes "Fastly error: " ++ status_text e.status)
        else some (codes "Fastly error: " ++ t)
  ]
]
