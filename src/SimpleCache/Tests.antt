-- ===== src/SimpleCache/Tests.antt =====
-- Runs of the definitions on small inputs, and instances of the theorems about the simple cache.
use compute_sdk_go.Common.{
  ℕ, ◌≡◌, refl, [], ◌∷◌, Option, none, some, Bytes, codes, ◌==◌, if◌then◌else◌, true, false, Bool,
  List, length, same, arith,
}
use compute_sdk_go.Common.Int.{pos}
use compute_sdk_go.Abi.Status.{lookup_must_insert_or_update}
use compute_sdk_go.Abi.Errors.{plain, ok, to_error, is_fastly_error, ignore_none_error}
use compute_sdk_go.Abi.Answers.{Answer}
use compute_sdk_go.CoreCache.{
  done, fails, Entry, Call, close_body, abandon_body, write_body, close_entry, new_found,
  map_fastly_error, has_bit,
}
use compute_sdk_go.CoreCache.Options.{
  Requests, no_lookup_options, AbiWriteOptions, abi_write_options, abi_lookup_options,
}
use compute_sdk_go.CoreCache.Fields.{found_of}
use compute_sdk_go.CoreCache.Lookups.{Cache}
use compute_sdk_go.CoreCache.Transactions.{
  TransactionHost, begun, must_insert_or_update, new_transaction, insert_and_stream_back,
  stream_back, close,
}
use compute_sdk_go.CoreCache.Transactions.Runs.{closings}
use compute_sdk_go.SimpleCache.{
  CacheEntry, Writer, io_copy, write_entry, get_or_set, set, write_options, purge, purge_scope_pop,
  purge_scope_global,
}
use compute_sdk_go.SimpleCache.Writing.{abandonings, LastIsClose, write_entry_lem}
use compute_sdk_go.SimpleCache.Handles.{get_or_set-closings}
use compute_sdk_go.SimpleCache.Contents.{Object, written_to, Reflects, Returns, get_or_set-Reflects}
use compute_sdk_go.SimpleCache.Purging.{read_keys, purge-write_options}

abbrev answer : {A : Type 0} → ℕ → A → Answer A
answer s v = record { status = s; value = v }

abbrev entry : ℕ → ℕ → Entry
entry h state = record {
  h = h;
  get_state = answer 0 state;
  get_max_age_ns = answer 0 100;
  get_length = answer 10 0;
  get_age_ns = answer 0 7;
  get_stale_while_revalidate_ns = answer 10 0;
  get_hits = answer 0 3;
  get_body = λ from to. answer 0 9;
}

abbrev requests : Requests
requests = record { new_request = answer 0 1; set_header_values = λ k vs. 0 }

-- A cache without objects.
abbrev cache : Cache
cache = record {
  requests = requests;
  lookup = λ key opts. answer 0 (entry 5 0);
  transaction_lookup = λ key opts. answer 0 (entry 5 8);
  insert = λ key opts. answer 0 6;
}

abbrev host : TransactionHost
host = record {
  insert = λ h w. answer 0 6;
  insert_and_stream_back = λ h w. answer 0 (6, entry 7 3);
  update = λ h w. 0;
  cancel = λ h. 0;
  close = λ h. 0;
}

-- An entry whose body cannot be read to its end, and one whose body can.
abbrev broken : CacheEntry
broken = record { body = codes "fre"; read_error = some (plain "unexpected EOF"); ttl = pos 60 }

abbrev whole : CacheEntry
whole = record { body = codes "fresh"; read_error = none; ttl = pos 60 }

-- A writer that takes all bytes.
abbrev works : Writer
works = record { write = λ w bs. (length bs, none); close_status = λ w. 0 }

-- A stand-in for the digest.
abbrev digest : Bytes → Bytes
digest s = 171 ∷ s

write_entry_lem_example :
    let r = write_entry works broken 6 (found_of [] (entry 7 3) 3 0 0) in
    ((b : Option ℕ) → r.result ≡ done b → (b ≡ some 9) × (abandonings 6 r.calls ≡ 0))
    × ((x : _) → r.result ≡ fails x → abandonings 6 r.calls ≡ 1)
    × LastIsClose 6 r.calls
write_entry_lem_example = write_entry_lem works broken 6 (found_of [] (entry 7 3) 3 0 0)

get_or_set-closings_example :
    let g = get_or_set cache host works digest (codes "LHR") (codes "k") (ok broken) in
    (closings 5 g.calls ≡ 1)
    × (g.set_run ≡ must_insert_or_update (begun (codes "k") no_lookup_options (entry 5 8)))
get_or_set-closings_example =
    get_or_set-closings cache host works digest (codes "LHR") (codes "k") (ok broken)
      (begun (codes "k") no_lookup_options (entry 5 8)) (unfold new_transaction in refl) (λ w. refl)

abandons :
    (get_or_set cache host works digest (codes "LHR") (codes "k") (ok broken)).calls
    ≡ write_body 6 (codes "fre") ∷ abandon_body 6 ∷ close_body 6 ∷ close_entry 5 ∷ []
unfolding get_or_set new_transaction must_insert_or_update set insert_and_stream_back stream_back
    close write_entry io_copy to_error abi_write_options abi_lookup_options new_found
    is_fastly_error ignore_none_error map_fastly_error has_bit
abandons = refl

purge-write_options_example :
    (abi : AbiWriteOptions) × (abi_write_options requests
        (write_options digest (codes "LHR") (codes "k") (pos 60))
      ≡ ok abi)
    × (abi.request ≡ none)
    × (read_keys abi
        ≡ (purge (λ sk. 0) digest (codes "LHR") (codes "k") purge_scope_pop).0
          ∷ (purge (λ sk. 0) digest (codes "LHR") (codes "k") purge_scope_global).0
          ∷ [])
purge-write_options_example =
    purge-write_options requests (λ sk. 0) digest (codes "LHR") (codes "k") (pos 60)

-- A cache with one object, whose body is the handle 4. The body 9 is read back while it is written by
-- way of the handle 6.
abbrev has_old : Bool → Entry
has_old true = record (entry 5 3) { get_body = λ from to. answer 0 4 }
has_old false = entry 5 8

abbrev one_object : Cache
one_object = record cache {
  transaction_lookup = λ key opts. answer 0 (has_old (same key (codes "old")));
}

abbrev holds_old : Bool → Option Bytes
holds_old true = some (codes "stale")
holds_old false = none

abbrev store : Bytes → Option Bytes
store key = holds_old (same key (codes "old"))

abbrev contents : List Call → ℕ → Bytes
contents cs b = if b == 9 then written_to 6 cs else codes "stale"

old-Object :
    (b : Bool) (c : Bytes)
    → holds_old b ≡ some c
    → Object (has_old b)
      × (has_bit (has_old b).get_state.value lookup_must_insert_or_update ≡ false)
      × ((cs : List Call) → contents cs ((has_old b).get_body none none).value ≡ c)
unfolding has_bit
old-Object true c s =
    (record { state_ok = refl; is_found = refl; fields_ok = refl; body_ok = refl }, refl, λ cs. cc)
old-Object false c s = absurd (ground arith)

no_object :
    (b : Bool)
    → holds_old b ≡ none
    → ((has_old b).get_state.status ≡ 0)
      × (has_bit (has_old b).get_state.value lookup_must_insert_or_update ≡ true)
unfolding has_bit
no_object true s = absurd (ground arith)
no_object false s = (refl, refl)

new-Object : Object (entry 7 3)
unfolding has_bit
new-Object = record { state_ok = refl; is_found = refl; fields_ok = refl; body_ok = refl }

store-Reflects : Reflects store contents one_object host works
store-Reflects = record {
  opens = λ key. refl;
  hits = λ key c s. old-Object (same key (codes "old")) c s;
  misses = λ key s. no_object (same key (codes "old")) s;
  takes = λ key o s. (refl, new-Object, (λ bs. refl), refl, λ cs h. refl);
}

get_or_set-Reflects_example :
    let g = get_or_set one_object host works digest (codes "LHR") (codes "k") (ok whole) in
    ((c : Bytes) → store (codes "k") ≡ some c → Returns contents c false g)
    × (store (codes "k") ≡ none → Returns contents (codes "fresh") true g)
get_or_set-Reflects_example =
    get_or_set-Reflects contents one_object host works digest (codes "LHR") store (codes "k") whole
      store-Reflects refl
