-- ===== src/Backend/Timeouts.antt =====
-- The timeouts of a backend, and the numbers that reach the host.
use compute_sdk_go.Common.{
  ℕ, suc, ◌+◌, ap, ◌-◌, ◌^◌, ◌≤◌, ◌/◌, ◌<◌, ◌≡◌, refl, true, [], ◌∷◌, ◌++◌, some, arith, ltb,
}
use compute_sdk_go.Common.Int.{ℤ, pos, negsuc}
use compute_sdk_go.Backend.Options.{
  Op, BackendOptions, ValidationError, millisecond, u32_milliseconds, max_backend_timeout, apply,
  connect_timeout, first_byte_timeout, between_bytes_timeout, http_keepalive_time, unless_large,
}

-- What the four calls with the duration `t` set: the number `n`.
abbrev pub AllSet : (ℤ → ℕ) → ℤ → ℕ → BackendOptions → Type 0
AllSet secs t n b =
    ((apply secs (connect_timeout t) b).abi_opts.connect_timeout_ms ≡ some n)
    × ((apply secs (first_byte_timeout t) b).abi_opts.first_byte_timeout ≡ some n)
    × ((apply secs (between_bytes_timeout t) b).abi_opts.between_bytes_timeout ≡ some n)
    × ((apply secs (http_keepalive_time t) b).abi_opts.http_keepalive_time_ms ≡ n)

-- The call adds one error and changes nothing else.
abbrev pub Refuses : (ℤ → ℕ) → Op → BackendOptions → Type 0
Refuses secs o b = (e : ValidationError) × (apply secs o b ≡ record b { errs = b.errs ++ e ∷ [] })

wraps_small : (n : ℕ) → suc n < millisecond → u32_milliseconds (negsuc n) ≡ 0
wraps_small n h = let e : (n + 1) / millisecond ≡ 0 = omega arith in rw e refl

wraps_large :
    (n : ℕ)
    → millisecond ≤ suc n
    → suc n < max_backend_timeout
    → u32_milliseconds (negsuc n) ≡ 2 ^ 32 - suc n / millisecond
wraps_large n h k = omega arith

-- The three timeouts and the keepalive time of HTTP, in milliseconds: a duration from 0 on and below
-- 2^32 milliseconds reaches the host as it is, in whole milliseconds; a longer one is refused with one
-- error more and changes nothing else; but a duration of 2^32 milliseconds, which is not above the
-- limit, is accepted and reaches the host as 0. A negative duration is accepted, too: down to -2^32
-- milliseconds, without that, it reaches the host as 0 if it is above -1 millisecond, and else as 2^32
-- less its whole milliseconds.
pub timeouts_near_limit :
    (secs : ℤ → ℕ) (n : ℕ) (b : BackendOptions)
    → (n < max_backend_timeout → AllSet secs (pos n) (n / millisecond) b)
      × (n ≡ max_backend_timeout → AllSet secs (pos n) 0 b)
      × (max_backend_timeout < n
          → Refuses secs (connect_timeout (pos n)) b
            × Refuses secs (first_byte_timeout (pos n)) b
            × Refuses secs (between_bytes_timeout (pos n)) b
            × Refuses secs (http_keepalive_time (pos n)) b)
      × (suc n < millisecond → AllSet secs (negsuc n) 0 b)
      × (millisecond ≤ suc n
          → suc n < max_backend_timeout
          → AllSet secs (negsuc n) (2 ^ 32 - suc n / millisecond) b)
unfolding apply unless_large
timeouts_near_limit secs n b = (
  λ h. ground arith,
  λ h. ground arith,
  (λ h.
      let e : ltb max_backend_timeout n ≡ true = ground arith in
      rw e ((_, refl), (_, refl), (_, refl), (_, refl))),
  (λ h. let e = wraps_small n h in (ap some e, ap some e, ap some e, e)),
  (λ h k. let e = wraps_large n h k in (ap some e, ap some e, ap some e, e)),
)
