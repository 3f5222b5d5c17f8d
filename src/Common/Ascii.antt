-- ===== src/Common/Ascii.antt =====
-- Go strings are byte sequences: here lists of native numbers. The functions of Go's `strings`
-- and `net/textproto` packages that the sources call, on such lists.
use Prim.Native.Nat.{ℕ, ◌+◌, ◌-◌, ◌/◌, ◌%◌}
use Prim.Native.Char.{code}
use Prim.Native.String.{String}
use mathlib.Core.Bool.{Bool, true, false, ◌&&◌, ◌||◌}
use mathlib.Core.List.{List, [], ◌∷◌, map}
use mathlib.Core.Option
use mathlib.Core.Option.{Option, none, some}
use compute_sdk_go.Common.Tests.{ltb, leb, ◌==◌, if◌then◌else◌}

abbrev pub Bytes : Type 0
Bytes = List ℕ

-- The bytes of an ASCII literal.
abbrev pub codes : String → Bytes
codes String.[] = []
codes (String.◌∷◌ c s) = code c ∷ codes s

abbrev pub is_empty : Bytes → Bool
is_empty [] = true
is_empty (_ ∷ _) = false

-- Equality of strings.
abbrev pub same : Bytes → Bytes → Bool
same [] [] = true
same (x ∷ xs) (y ∷ ys) = x == y && same xs ys
same _ _ = false

-- `textproto.TrimString` trims these bytes at both ends.
abbrev pub is_space : ℕ → Bool
is_space c = c == b' ' || c == b'\t' || c == b'\n' || c == b'\r'

unfoldable pub trim_left : Bytes → Bytes
trim_left [] = []
trim_left (c ∷ cs) = let rest = trim_left cs in if is_space c then rest else c ∷ cs

-- Spaces go while nothing but spaces follows them.
unfoldable pub trim_right : Bytes → Bytes
trim_right [] = []
trim_right (c ∷ cs) =
    let rest = trim_right cs in if is_space c && is_empty rest then [] else c ∷ rest

unfoldable pub trim : Bytes → Bytes
unfolding trim_left trim_right
trim s = trim_right (trim_left s)

-- `strings.Index(s, sep)` for a separator of one byte, with the slices `s[:i]` and `s[i+1:]`.
unfoldable pub cut : ℕ → Bytes → Option (Bytes × Bytes)
cut b [] = none
cut b (c ∷ cs) =
    let rest = cut b cs in if c == b then some ([], cs) else Option.map (λ p. (c ∷ p.0, p.1)) rest

-- `strings.Split(s, sep)` for a separator of one byte; the first piece, and the others.
unfoldable pub split : ℕ → Bytes → Bytes × List Bytes
split b [] = ([], [])
split b (c ∷ cs) = let (p, ps) = split b cs in if c == b then ([], p ∷ ps) else (c ∷ p, ps)

-- `strings.IndexByte(s, b) >= 0`
unfoldable pub contains : ℕ → Bytes → Bool
contains b [] = false
contains b (c ∷ cs) = c == b || contains b cs

abbrev pub is_digit : ℕ → Bool
is_digit c = leb b'0' c && leb c b'9'

abbrev pub is_letter : ℕ → Bool
is_letter c = (leb b'a' c && leb c b'z') || (leb b'A' c && leb c b'Z')

abbrev pub lower_byte : ℕ → ℕ
lower_byte c = if leb b'A' c && leb c b'Z' then c + 32 else c

-- `strings.ToLower` on ASCII.
abbrev pub ascii_lower : Bytes → Bytes
ascii_lower = map lower_byte

abbrev pub upper_hex : ℕ → ℕ
upper_hex d = if ltb d 10 then b'0' + d else b'A' + (d - 10)

-- `strings.ToUpper(hex.EncodeToString(…))`
abbrev pub hex_key : Bytes → Bytes
hex_key [] = []
hex_key (c ∷ cs) = upper_hex (c / 16) ∷ upper_hex (c % 16) ∷ hex_key cs
