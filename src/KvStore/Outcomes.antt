-- ===== src/KvStore/Outcomes.antt =====
-- When an operation on a store succeeds, and when it says that the key is missing.
use compute_sdk_go.Common.{ℕ, ◌≡◌, ◌≢◌, ◌↔◌, arith}
use compute_sdk_go.Abi.Errors.{to_error, is_fastly_error}
use compute_sdk_go.Abi.Answers.{Answer}
use compute_sdk_go.KvStore.{
  key_not_found, done, fails, Waited, invalid_handle, kv_error_ok, operation, map_fastly_err,
}

-- The operation starts, and waiting for it leaves this code.
abbrev pub Waits {ℓ} : {A : Type ℓ} → Answer ℕ → (ℕ → Answer (Waited A)) → ℕ → Type 0
Waits start wait code =
    (start.status ≡ 0)
    × (start.value ≢ invalid_handle)
    × ((wait start.value).status ≡ 0)
    × ((wait start.value).value.kv_err ≡ code)

-- An operation succeeds with a value exactly if it starts, with a handle that is valid, and waiting for
-- it leaves no error and this value; and it says that the key is missing exactly if it starts and
-- waiting for it leaves the code for that, never on a failure of another kind.
pub operation_lem {ℓ} :
    {A : Type ℓ} (start : Answer ℕ) (wait : ℕ → Answer (Waited A))
    → ((v : A)
        → (operation start wait ≡ done v)
          ↔ (Waits start wait kv_error_ok × ((wait start.value).value.value ≡ v)))
      × ((operation start wait ≡ fails key_not_found) ↔ Waits start wait 3)
unfolding operation to_error is_fastly_error map_fastly_err
operation_lem start wait =
    (λ v. (λ e. ground arith, λ w. ground arith), (λ e. ground arith, λ w. ground arith))
