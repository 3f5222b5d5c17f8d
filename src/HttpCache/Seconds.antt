-- ===== src/HttpCache/Seconds.antt =====
-- fsthttp/cache.go: seconds in 32 bits and nanoseconds in 64. `time.Duration` is a signed number of
-- 64 bits, and its division rounds towards 0.
use compute_sdk_go.Common.{ℕ, ◌-◌, ◌*◌, ◌/◌, ◌%◌, ◌^◌, ◌<◌, ◌≡◌, arith, ltb, if◌then◌else◌}

abbrev pub second : ℕ
second = 1_000_000_000

-- `uint32` of a signed quotient.
unfoldable pub u64ns_to_u32s : ℕ → ℕ
u64ns_to_u32s ns =
    if ltb ns (2 ^ 63)
    then (ns / second) % 2 ^ 32
    else (2 ^ 32 - ((2 ^ 64 - ns) / second) % 2 ^ 32) % 2 ^ 32

unfoldable pub u32s_to_u64ns : ℕ → ℕ
u32s_to_u64ns s = (s * second) % 2 ^ 64

-- Every number of seconds in 32 bits survives the way to the host and back.
pub u64ns_to_u32s-u32s_to_u64ns : (s : ℕ) → s < 2 ^ 32 → u64ns_to_u32s (u32s_to_u64ns s) ≡ s
unfolding u64ns_to_u32s u32s_to_u64ns
u64ns_to_u32s-u32s_to_u64ns s h = ground arith
