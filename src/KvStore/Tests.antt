-- ===== src/KvStore/Tests.antt =====
-- Runs of the definitions on small inputs, and instances of the theorems about the key-value store.
use compute_sdk_go.Common.{
  ℕ, ◌-◌, ◌^◌, ◌≡◌, refl, ◌↔◌, [], ◌∷◌, none, some, ◌==◌, if◌then◌else◌, codes, arith, same,
  is_empty,
}
use compute_sdk_go.Abi.Errors.{ok, to_error, is_fastly_error}
use compute_sdk_go.Abi.Answers.{Answer}
use compute_sdk_go.KvStore.{
  key_not_found, too_many_requests, invalid_key, done, fails, Waited, kv_error_ok, Entry, Host,
  operation, lookup, insert_with_config, open_store, store_not_found, map_fastly_err, host_body,
}
use compute_sdk_go.KvStore.Outcomes.{Waits, operation_lem}
use compute_sdk_go.KvStore.Listing.{ListHost, ListConfig, list, fetch, list_config}
use compute_sdk_go.KvStore.Pages.{
  complete, Serves, last_page, one_page, at_cursor, Collects, iterate-list,
}

abbrev answer : {A : Type 0} → ℕ → A → Answer A
answer s v = record { status = s; value = v }

abbrev waits : {A : Type 0} → ℕ → A → Answer (Waited A)
waits c v = answer 0 (record { kv_err = c; value = v })

-- The handle 3 waits for a key that is missing.
abbrev entry_wait : ℕ → Answer (Waited Entry)
entry_wait h = waits (if h == 3 then 3 else 1) (record { body = 7; meta = []; generation = 1 })

operation_lem_example :
    ((v : Entry)
      → (operation (answer 0 3) entry_wait ≡ done v)
        ↔ (Waits (answer 0 3) entry_wait kv_error_ok × ((entry_wait 3).value.value ≡ v)))
    × ((operation (answer 0 3) entry_wait ≡ fails key_not_found) ↔ Waits (answer 0 3) entry_wait 3)
operation_lem_example = operation_lem (answer 0 3) entry_wait

abbrev host : Host
host = record {
  lookup = λ key. answer (if is_empty key then 2 else 0) 3;
  lookup_wait = entry_wait;
  insert = λ key body c. answer 0 4;
  insert_wait = λ h. waits 7 tt;
  delete = λ key. answer 0 (2 ^ 32 - 2);
  delete_wait = λ h. waits 1 tt;
}

misses_key : lookup host (codes "k") ≡ fails key_not_found
unfolding lookup operation to_error map_fastly_err
misses_key = refl

refuses_key : lookup host [] ≡ fails invalid_key
unfolding lookup operation to_error map_fastly_err is_fastly_error
refuses_key = refl

inserts_too_often : insert_with_config host (codes "k") (host_body 5) none ≡ fails too_many_requests
unfolding insert_with_config operation to_error map_fastly_err
inserts_too_often = refl

opens_no_store : open_store (answer 2 0) ≡ fails store_not_found
unfolding open_store to_error is_fastly_error
opens_no_store = refl

abbrev wants_all : ListConfig
wants_all = record { mode = 1; limit = 2; prefix = codes "p"; cursor = [] }

-- Two pages: the handle of a list tells which one is asked for.
abbrev list_host : ListHost
list_host = record {
  list = λ c. answer 0 (elim c.cursor [ none ↦ 1 | some _ ↦ 2 ]);
  list_wait = λ h. waits 1 h;
  read_all = λ b. ok (b ∷ []);
  unmarshal = λ buf.
      if same buf (1 ∷ [])
      then ok (record {
        keys = codes "p1" ∷ codes "p2" ∷ [];
        meta = at_cursor wants_all (codes "next");
      })
      else ok (record { keys = codes "p3" ∷ []; meta = at_cursor wants_all [] });
}

serves_pages :
    Serves list_host wants_all [] ((codes "p1" ∷ codes "p2" ∷ []) ∷ (codes "p3" ∷ []) ∷ []) complete
unfolding fetch operation list_config to_error
serves_pages =
    one_page [] (codes "p1") (codes "p2" ∷ []) b'n' (codes "ext") _ complete refl
      (last_page (codes "next") (codes "p3") [] refl)

iterate-list_example :
    Collects list_host 3
      (list wants_all)
      ((codes "p1" ∷ codes "p2" ∷ []) ∷ (codes "p3" ∷ []) ∷ [])
      none
iterate-list_example =
    iterate-list list_host wants_all 3 ((codes "p1" ∷ codes "p2" ∷ []) ∷ (codes "p3" ∷ []) ∷ [])
      complete serves_pages (omega arith)
