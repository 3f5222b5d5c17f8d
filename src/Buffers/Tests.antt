-- ===== src/Buffers/Tests.antt =====
-- internal/abi/fastly: tests of the loops around a host call, and their theorems at concrete hosts.
use compute_sdk_go.Common.{
  ℕ, ◌≡◌, refl, [], ◌∷◌, none, some, arith, ltb, if◌then◌else◌, Bytes, codes, length,
}
use compute_sdk_go.Abi.Errors.{ok}
use compute_sdk_go.Buffers.{Reply, with_adaptive_buffer, Taken, Written, write}
use compute_sdk_go.Buffers.Adaptive.{Gives, with_adaptive_buffer-Gives}
use compute_sdk_go.Buffers.Writes.{Takes, Tells, write-Tells}

abbrev region : ℕ → Reply
region n =
    if ltb n 5
    then record { status = 4; nvalue = 5; buffer = [] }
    else record { status = 0; nvalue = 5; buffer = codes "Paris" }

region-Gives : Gives (codes "Paris") region
region-Gives = record {
  too_small = λ n h. (ground arith, ground arith);
  fits = λ n h. (ground arith, ground arith);
}

with_adaptive_buffer-Gives_example : with_adaptive_buffer region 2 3 ≡ some (ok (codes "Paris"))
with_adaptive_buffer-Gives_example =
    with_adaptive_buffer-Gives (codes "Paris") region 0 3 region-Gives

-- A host that takes two bytes at a time.
abbrev by_two : ℕ → Bytes → Taken
by_two i p = record { status = 0; nwritten = if ltb (length p) 2 then length p else 2 }

by_two-Takes : Takes by_two
by_two-Takes i p some_bytes fine = (ground arith, ground arith)

write-Tells_example :
    (w : Written) × (write by_two 6 (codes "hello") ≡ some w) × Tells (codes "hello") 0 w
write-Tells_example = write-Tells by_two (codes "hello") 6 by_two-Takes (omega arith)

in_three :
    write by_two 6 (codes "hello")
    ≡ some (record { n = 5; error = none; pieces = codes "he" ∷ codes "ll" ∷ codes "o" ∷ [] })
unfolding write
in_three = refl

-- A host that takes nothing and reports no error: the loop does not end.
endless : write (λ i p. record { status = 0; nwritten = 0 }) 50 (codes "x") ≡ none
unfolding write
endless = refl
