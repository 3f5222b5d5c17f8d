-- ===== src/KvStore/Pages.antt =====
-- A loop over the pages of a list sees the pages of the host, in order.
use compute_sdk_go.Common.{
  ap, ◌∙◌, ◌==◌, Bool-cases, inl, inr, if◌then◌else◌, ==_iff, ℕ, zero, suc, ◌<◌, ◌≡◌, refl, true,
  false, ◌&&◌, List, [], ◌∷◌, Option, none, some, Bytes, is_empty, length, arith,
}
use compute_sdk_go.KvStore.{unless_zero, Error, done, fails}
use compute_sdk_go.KvStore.Listing.{
  AbiListConfig, consistency_mode, unless_blank, Metadata, ListHost, ListIter, ListConfig,
  consistency_string, list_config, fetch, at_end, next, list, iterate,
}

-- The metadata with this cursor.
abbrev pub at_cursor : ListConfig → Bytes → Metadata
at_cursor c cursor = record {
  limit = c.limit;
  next_cursor = cursor;
  prefix = c.prefix;
  mode = consistency_string c.mode;
}

-- The request for the page at this cursor: the options of the list, whose mode is "strong" unless it
-- is "eventual".
abbrev pub request_at : ListConfig → Bytes → AbiListConfig
request_at c cursor = record {
  mode = if c.mode == 1 then 1 else 0;
  limit = unless_zero c.limit;
  prefix = unless_blank c.prefix;
  cursor = unless_blank cursor;
}

mode_kept :
    (m : ℕ)
    → (if is_empty (consistency_string m) then 0 else consistency_mode (consistency_string m))
      ≡ (if m == 1 then 1 else 0)
mode_kept m = elim (Bool-cases (m == 0)) [
  | inl z ↦ let e : m ≡ 0 = (==_iff m 0).0 z in rw e refl
  | inr nz ↦ elim (Bool-cases (m == 1)) [ inl o ↦ rw (nz, o) refl | inr p ↦ rw (nz, p) refl ]
]

list_config-request_at :
    (c : ListConfig) (cursor : Bytes) → list_config (at_cursor c cursor) ≡ request_at c cursor
unfolding list_config
list_config-request_at c cursor =
    ap
      (λ (m : ℕ). record {
        mode = m;
        limit = unless_zero c.limit;
        prefix = unless_blank c.prefix;
        cursor = unless_blank cursor;
      })
      (mode_kept c.mode)

-- How a list ends: with its last page, with an error of the host, or cut short by a page without keys
-- behind which the host has more.
pub data Ending : Type 0 where
  complete : Ending
  broken : Error → Ending
  cut_short : Ending

-- From a cursor on, the host sends these pages, each with the metadata of the request and the cursor
-- of the next page, and then ends so. A list is complete behind a page without a cursor, be it without
-- keys or not; the pages behind a page without keys are not listed here.
pub data Serves (host : ListHost) (c : ListConfig)
    : Bytes → List (List Bytes) → Ending → Type 0 where
  last_page :
      (cursor key : Bytes) (keys : List Bytes)
      → fetch host (request_at c cursor)
        ≡ done (record { keys = key ∷ keys; meta = at_cursor c [] })
      → Serves host c cursor ((key ∷ keys) ∷ []) complete
  empty_page :
      (cursor : Bytes) (meta : Metadata)
      → fetch host (request_at c cursor) ≡ done (record { keys = []; meta = meta })
      → is_empty meta.next_cursor ≡ true
      → Serves host c cursor [] complete
  gap :
      (cursor : Bytes) (meta : Metadata)
      → fetch host (request_at c cursor) ≡ done (record { keys = []; meta = meta })
      → is_empty meta.next_cursor ≡ false
      → Serves host c cursor [] cut_short
  no_page :
      (cursor : Bytes) (e : Error)
      → fetch host (request_at c cursor) ≡ fails e
      → Serves host c cursor [] (broken e)
  one_page :
      (cursor key : Bytes) (keys : List Bytes) (d : ℕ) (ds : Bytes) (pages : List (List Bytes))
      (ending : Ending)
      → fetch host (request_at c cursor)
        ≡ done (record { keys = key ∷ keys; meta = at_cursor c (d ∷ ds) })
      → Serves host c (d ∷ ds) pages ending
      → Serves host c cursor ((key ∷ keys) ∷ pages) ending

-- The error that the iterator has at the end.
abbrev pub reported : Ending → Option Error
reported complete = none
reported (broken e) = some e
reported cut_short = none

-- The iterator behind a page, or at the start, where it has no keys.
abbrev at : ListConfig → Bytes → List Bytes → ListIter
at c cursor keys = record { page = record { keys = keys; meta = at_cursor c cursor }; error = none }

-- What the loop comes to.
abbrev pub Collects : ListHost → ℕ → ListIter → List (List Bytes) → Option Error → Type 0
Collects host fuel it pages outcome =
    (last : ListIter) × (iterate host fuel it ≡ some (pages, last)) × (last.error ≡ outcome)

module _ (host : ListHost) (c : ListConfig) where
  next_page :
      (cursor : Bytes) (keys : List Bytes) (k : Bytes) (ks : List Bytes) (m : Metadata)
      → at_end (record { keys = keys; meta = at_cursor c cursor }) ≡ false
      → fetch host (list_config (at_cursor c cursor)) ≡ done (record { keys = k ∷ ks; meta = m })
      → next host (at c cursor keys)
        ≡ (true, record { page = record { keys = k ∷ ks; meta = m }; error = none })
  unfolding next
  next_page cursor keys k ks m a f = rw (next, a, f) refl

  next_empty :
      (cursor : Bytes) (keys : List Bytes) (m : Metadata)
      → at_end (record { keys = keys; meta = at_cursor c cursor }) ≡ false
      → fetch host (list_config (at_cursor c cursor)) ≡ done (record { keys = []; meta = m })
      → next host (at c cursor keys) ≡ (false, at c cursor keys)
  unfolding next
  next_empty cursor keys m a f = rw (next, a, f) refl

  next_broken :
      (cursor : Bytes) (keys : List Bytes) (e : Error)
      → at_end (record { keys = keys; meta = at_cursor c cursor }) ≡ false
      → fetch host (list_config (at_cursor c cursor)) ≡ fails e
      → next host (at c cursor keys) ≡ (false, record (at c cursor keys) { error = some e })
  unfolding next
  next_broken cursor keys e a f = rw (next, a, f) refl

  stops :
      (fuel : ℕ) (it it' : ListIter) (outcome : Option Error)
      → next host it ≡ (false, it')
      → it'.error ≡ outcome
      → Collects host (suc fuel) it [] outcome
  unfolding iterate
  stops fuel it it' outcome n e = (it', rw n refl, e)

  goes_on :
      (fuel : ℕ) (it it' : ListIter) (pages : List (List Bytes)) (outcome : Option Error)
      → next host it ≡ (true, it')
      → Collects host fuel it' pages outcome
      → Collects host (suc fuel) it (it'.page.keys ∷ pages) outcome
  unfolding iterate
  goes_on fuel it it' pages outcome n (last, i, e) = (last, rw (iterate, n, i) refl, e)

  -- Behind the last page, nothing is asked.
  next_behind :
      (key : Bytes) (keys : List Bytes)
      → next host (at c [] (key ∷ keys)) ≡ (false, at c [] (key ∷ keys))
  unfolding next at_end
  next_behind key keys = refl

  asks :
      (cursor : Bytes)
      → fetch host (list_config (at_cursor c cursor)) ≡ fetch host (request_at c cursor)
  asks cursor = ap (fetch host) (list_config-request_at c cursor)

  iterate-Serves :
      (fuel : ℕ) (cursor : Bytes) (keys : List Bytes) (pages : List (List Bytes)) (ending : Ending)
      → at_end (record { keys = keys; meta = at_cursor c cursor }) ≡ false
      → Serves host c cursor pages ending
      → length pages < fuel
      → Collects host fuel (at c cursor keys) pages (reported ending)
  unfolding at_end
  iterate-Serves zero cursor keys pages ending a s lt = absurd (omega arith)
  iterate-Serves (suc fuel) cursor keys _ _ a (empty_page _ m f z) lt =
      stops fuel _ _ none (next_empty cursor keys m a (asks cursor ∙ f)) refl
  iterate-Serves (suc fuel) cursor keys _ _ a (gap _ m f z) lt =
      stops fuel _ _ none (next_empty cursor keys m a (asks cursor ∙ f)) refl
  iterate-Serves (suc fuel) cursor keys _ _ a (no_page _ e f) lt =
      stops fuel _ _ (some e) (next_broken cursor keys e a (asks cursor ∙ f)) refl
  iterate-Serves (suc fuel) cursor keys _ _ a (one_page _ k ks d ds pages ending f s) lt =
      goes_on fuel _ _ pages (reported ending) (next_page cursor keys k ks _ a (asks cursor ∙ f))
        (iterate-Serves fuel (d ∷ ds) (k ∷ ks) pages ending refl s (omega arith))
  iterate-Serves (suc zero) cursor keys _ _ a (last_page _ k ks f) lt = absurd (omega arith)
  iterate-Serves (suc (suc fuel)) cursor keys _ _ a (last_page _ k ks f) lt =
      goes_on (suc fuel) _ _ [] none (next_page cursor keys k ks _ a (asks cursor ∙ f))
        (stops fuel _ _ none (next_behind k ks) refl)

-- A loop over a list sees the pages of the host, each once and in order, up to the first page without
-- keys, and one round for each page and one more are enough. Where the list is complete then, it ends
-- without an error; where the host has reported an error, it ends with that error; and where the page
-- without keys has a cursor, it also ends without an error, and sees nothing of what is behind. The host
-- is one that answers the requests with the options of the list and the cursor of the page before, and
-- keeps the limit, the prefix and the mode in the metadata of its pages with keys.
pub iterate-list :
    (host : ListHost) (c : ListConfig) (fuel : ℕ) (pages : List (List Bytes)) (ending : Ending)
    → Serves host c c.cursor pages ending
    → length pages < fuel
    → Collects host fuel (list c) pages (reported ending)
unfolding at_end
iterate-list host c fuel pages ending s lt =
    iterate-Serves host c fuel c.cursor [] pages ending (starts c.cursor) s lt
  where
    starts : (cursor : Bytes) → (is_empty cursor && false) ≡ false
    starts [] = refl
    starts (b ∷ bs) = refl
