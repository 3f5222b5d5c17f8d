-- ===== src/Buffers/Adaptive.antt =====
-- `withAdaptiveBuffer` returns the value of the host, whatever the first size is.
use compute_sdk_go.Common.{
  ℕ, suc, ◌<◌, ◌≤◌, ◌≡◌, refl, inl, inr, some, arith, ltb, Bool-cases, Bytes, length, take,
}
use compute_sdk_go.Abi.Status.{status_ok, status_buf_len}
use compute_sdk_go.Abi.Errors.{ok}
use compute_sdk_go.Buffers.{Reply, with_adaptive_buffer}

-- The host has the value `v`: it writes it where it fits, and else says how long it is.
pub record Gives (v : Bytes) (host : ℕ → Reply) : Type 0 where
  pub too_small :
      (n : ℕ) → n < length v → ((host n).status ≡ status_buf_len) × ((host n).nvalue ≡ length v)
  pub fits :
      (n : ℕ)
      → length v ≤ n
      → ((host n).status ≡ status_ok) × (take (host n).nvalue (host n).buffer ≡ v)

fits_once :
    (v : Bytes) (host : ℕ → Reply) (fuel n : ℕ)
    → Gives v host
    → length v ≤ n
    → with_adaptive_buffer host (suc fuel) n ≡ some (ok v)
unfolding with_adaptive_buffer
fits_once v host fuel n g le = let (s, t) = g.fits n le in rw s (rw t refl)

grows_once :
    (v : Bytes) (host : ℕ → Reply) (fuel n : ℕ)
    → Gives v host
    → n < length v
    → with_adaptive_buffer host (suc fuel) n ≡ with_adaptive_buffer host fuel (length v)
unfolding with_adaptive_buffer
grows_once v host fuel n g lt = let (s, t) = g.too_small n lt in ground arith

-- `withAdaptiveBuffer` calls the host twice at most and returns its value, whatever the first size
-- is, where the host writes a value that fits and else says how long it is.
pub with_adaptive_buffer-Gives :
    (v : Bytes) (host : ℕ → Reply) (fuel n : ℕ)
    → Gives v host
    → with_adaptive_buffer host (suc (suc fuel)) n ≡ some (ok v)
with_adaptive_buffer-Gives v host fuel n g = elim (Bool-cases (ltb n (length v))) [
  | inl short ↦
      rw (grows_once v host (suc fuel) n g (ground arith))
        (fits_once v host fuel (length v) g (omega arith))
  | inr long ↦ fits_once v host (suc fuel) n g (ground arith)
]
