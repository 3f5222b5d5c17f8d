-- ===== src/KvStore/Listing.antt =====
-- kvstore/kvstore.go: `ListIter`, an iterator over pages of keys. Decoding a page from JSON is a
-- parameter.
use mathlib.Core.Option
use compute_sdk_go.Common.{
  ℕ, zero, suc, Bool, true, false, not, ◌&&◌, List, [], ◌∷◌, Option, none, some, ◌==◌,
  if◌then◌else◌, Bytes, codes, same, is_empty,
}
use compute_sdk_go.Abi.Errors.{Result, ok, err}
use compute_sdk_go.Abi.Answers.{Answer}
use compute_sdk_go.KvStore.{Error, other, Try, done, fails, ◌>>=◌, Waited, operation, unless_zero}

-- `ListMetadata`
pub record Metadata : Type 0 where
  pub limit : ℕ
  pub next_cursor : Bytes
  pub prefix : Bytes
  pub mode : Bytes

-- `ListPage`
pub record ListPage : Type 0 where
  pub keys : List Bytes
  pub meta : Metadata

-- `KVListConfig` of the host.
pub record AbiListConfig : Type 0 where
  pub mode : ℕ
  pub limit : Option ℕ
  pub prefix : Option Bytes
  pub cursor : Option Bytes

-- `consistencyString`
abbrev pub consistency_string : ℕ → Bytes
consistency_string m =
    if m == 0 then codes "strong" else if m == 1 then codes "eventual" else codes "unknown"

-- `consistencyMode`
abbrev pub consistency_mode : Bytes → ℕ
consistency_mode m = if same m (codes "eventual") then 1 else 0

abbrev pub unless_blank : Bytes → Option Bytes
unless_blank [] = none
unless_blank (c ∷ cs) = some (c ∷ cs)

-- The request for the page after one with this metadata; the mode of a request is "strong" unless
-- it is set.
unfoldable pub list_config : Metadata → AbiListConfig
list_config m = record {
  mode = if is_empty m.mode then 0 else consistency_mode m.mode;
  limit = unless_zero m.limit;
  prefix = unless_blank m.prefix;
  cursor = unless_blank m.next_cursor;
}

-- The host, and the functions that read a body to its end and decode it.
pub record ListHost : Type 0 where
  pub list : AbiListConfig → Answer ℕ
  pub list_wait : ℕ → Answer (Waited ℕ)
  pub read_all : ℕ → Result Bytes
  pub unmarshal : Bytes → Result ListPage

abbrev pub passed {ℓ} : {A : Type ℓ} → Result A → Try A
passed (ok a) = done a
passed (err e) = fails (other e)

-- The page that the host sends for a request.
unfoldable pub fetch : ListHost → AbiListConfig → Try ListPage
unfolding operation
fetch host c = operation (host.list c) host.list_wait >>= λ body.
    passed (host.read_all body) >>= λ buf. passed (host.unmarshal buf)

-- `ListIter`
pub record ListIter : Type 0 where
  pub page : ListPage
  pub error : Option Error

-- No page has come yet, or there is a next one.
unfoldable pub at_end : ListPage → Bool
at_end p = is_empty p.meta.next_cursor && not (elim p.keys [ [] ↦ true | _ ∷ _ ↦ false ])

-- `Next`
unfoldable pub next : ListHost → ListIter → Bool × ListIter
unfolding at_end list_config fetch
next host it = elim it.error [
  | some e ↦ (false, it)
  | none ↦ if at_end it.page then (false, it) else elim (fetch host (list_config it.page.meta)) [
    | fails e ↦ (false, record it { error = some e })
    | done p ↦ elim p.keys [ [] ↦ (false, it) | _ ∷ _ ↦ (true, record it { page = p }) ]
  ]
]

-- `ListConfig`
pub record ListConfig : Type 0 where
  pub mode : ℕ
  pub limit : ℕ
  pub prefix : Bytes
  pub cursor : Bytes

-- `List`
abbrev pub list : ListConfig → ListIter
list c = record {
  page = record {
    keys = [];
    meta = record {
      limit = c.limit;
      next_cursor = c.cursor;
      prefix = c.prefix;
      mode = consistency_string c.mode;
    };
  };
  error = none;
}

abbrev pub with_page : List Bytes → List (List Bytes) × ListIter → List (List Bytes) × ListIter
with_page keys (pages, last) = (keys ∷ pages, last)

-- A loop over the pages, `for it.Next() { … it.Page() … }`: the keys, and the iterator at the end;
-- `none` where the fuel has run out.
unfoldable pub iterate : ListHost → ℕ → ListIter → Option (List (List Bytes) × ListIter)
unfolding next
iterate host zero it = none
iterate host (suc fuel) it =
    let (more, it') = next host it in
    let rest = iterate host fuel it' in
    if more then Option.map (with_page it'.page.keys) rest else some ([], it')
