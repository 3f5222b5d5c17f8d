-- ===== src/Cookie.antt =====
-- fsthttp/cookie.go: the types, and what the package takes from Go's `time` package.
pub mod Token
pub mod Value
pub mod Domain
pub mod Write
pub mod Read
pub mod Safe
pub mod Quoting
pub mod Request
pub mod Loop
pub mod Pairs
pub mod Field
pub mod RoundTrip
pub mod Valid
pub mod Labels
pub mod Grammar
pub mod Attrs
pub mod Steps
pub mod Spread
pub mod SetCookies
mod Tests
use compute_sdk_go.Common.{ℕ, Bool, List, Option, Bytes}
use compute_sdk_go.Common.Int.{ℤ}

-- `SameSite`; `unset` is the zero value of the Go integer.
pub data SameSite : Type 0 where
  unset default_mode lax_mode strict_mode none_mode : SameSite

-- `Cookie`, over the type of `time.Time`.
pub record Cookie (T : Type 0) : Type 0 where
  pub name : Bytes
  pub value : Bytes
  pub path : Bytes
  pub domain : Bytes
  pub expires : T
  pub raw_expires : Bytes
  pub max_age : ℤ
  pub secure : Bool
  pub http_only : Bool
  pub same_site : SameSite
  pub raw : Bytes
  pub unparsed : List Bytes

-- The operations of `time` that the package calls. `year` counts years below 0 as 0.
pub record TimeLib (T : Type 0) : Type 0 where
  pub zero_time : T
  pub year : T → ℕ
  pub utc : T → T
  -- `time.Parse(time.RFC1123, s)`
  pub parse_rfc1123 : Bytes → Option T
  -- `time.Parse("Mon, 02-Jan-2006 15:04:05 MST", s)`
  pub parse_dashed : Bytes → Option T
  -- `AppendFormat(TimeFormat)`
  pub format : T → Bytes
