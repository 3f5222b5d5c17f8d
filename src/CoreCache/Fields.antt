-- ===== src/CoreCache/Fields.antt =====
-- What a found object knows of the answers of the host.
use compute_sdk_go.Common.{
  ℕ, ◌≡◌, refl, Bool, List, [], ◌∷◌, none, some, if◌then◌else◌, Bytes, arith,
}
use compute_sdk_go.Common.Int.{pos}
use compute_sdk_go.Abi.Errors.{to_error, is_fastly_error, ignore_none_error}
use compute_sdk_go.Abi.Answers.{
  Answer, checked, missing_or_ok, answered, first_refused, judged, Agrees, first_refused-Agrees,
}
use compute_sdk_go.CoreCache.{
  error_of_status, map_fastly_error, Try, done, fails, ◌>>=◌, mapped, duration, Entry, Found, bound,
  new_found,
}

abbrev test : {A : Type 0} → Answer A → ℕ × Bool
test a = (a.status, missing_or_ok a.status)

-- The tests that the answers are put to, in the order of the calls.
abbrev pub field_tests : Entry → ℕ → ℕ → List (ℕ × Bool)
field_tests e from to =
    (e.get_max_age_ns.status, missing_or_ok e.get_max_age_ns.status)
    ∷ (e.get_length.status, missing_or_ok e.get_length.status)
    ∷ (e.get_age_ns.status, missing_or_ok e.get_age_ns.status)
    ∷ (e.get_stale_while_revalidate_ns.status, missing_or_ok e.get_stale_while_revalidate_ns.status)
    ∷ (e.get_hits.status, missing_or_ok e.get_hits.status)
    ∷ (
      (e.get_body (bound from) (bound to)).status,
      missing_or_ok (e.get_body (bound from) (bound to)).status,
    )
    ∷ []

abbrev pub found_of : Bytes → Entry → ℕ → ℕ → ℕ → Found
found_of key e state from to = record {
  abi_entry = e;
  state = state;
  key = key;
  ttl = answered (pos 0) duration e.get_max_age_ns;
  length = answered 0 (λ n. n) e.get_length;
  age = answered (pos 0) duration e.get_age_ns;
  stale_while_revalidate = answered (pos 0) duration e.get_stale_while_revalidate_ns;
  hits = answered 0 (λ n. n) e.get_hits;
  body = answered none some (e.get_body (bound from) (bound to));
}

abbrev pub refused_with : ℕ → Try Found
refused_with s = fails (error_of_status s)

mapped-checked {ℓ κ μ} :
    {A : Type ℓ} {B : Type κ} {C : Type μ} (z : B) (f : A → B) (a : Answer A) (k : B → Try C)
    → (mapped (checked ignore_none_error z f a) >>= k)
      ≡ (if missing_or_ok a.status then k (answered z f a) else fails (error_of_status a.status))
unfolding to_error is_fastly_error ignore_none_error map_fastly_error
mapped-checked z f a k = ground arith

checked-Agrees {ℓ κ} :
    {A : Type ℓ} {B : Type κ} (good : Try Found) (z : B) (f : A → B) (a : Answer A)
    (k : B → Try Found) (l : List (ℕ × Bool))
    → Agrees refused_with good (k (answered z f a)) l
    → Agrees refused_with good
        (mapped (checked ignore_none_error z f a) >>= k)
        ((a.status, missing_or_ok a.status) ∷ l)
checked-Agrees good z f a k l e =
    first_refused-Agrees a.status (missing_or_ok a.status) _ _ (mapped-checked z f a k) e

-- `newFound` fails with the first status that is neither "ok" nor "none", mapped to an error of the
-- package; else it fills every field, with the zero value where the host has none, and with the
-- body for the bounds that are above 0, or no body where the host has none.
pub new_found_lem :
    (key : Bytes) (e : Entry) (state from to : ℕ)
    → new_found key e state from to
      ≡ judged refused_with
          (done (found_of key e state from to))
          (first_refused (field_tests e from to))
unfolding new_found
new_found_lem key e state from to =
    (checked-Agrees _ (pos 0) duration e.get_max_age_ns _ _ (
      checked-Agrees _ 0 (λ n. n) e.get_length _ _
        (checked-Agrees _ (pos 0) duration e.get_age_ns _ _ (
          checked-Agrees _ (pos 0) duration e.get_stale_while_revalidate_ns _ _ (
            checked-Agrees _ 0 (λ n. n) e.get_hits _ _
              (checked-Agrees _ none some (e.get_body (bound from) (bound to)) _ []
                (record { same_result = refl }))))))).same_result
