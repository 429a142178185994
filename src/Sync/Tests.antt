-- ===== src/Sync/Tests.antt =====
-- Runs of `sync` over three episodes of which two changed at one moment.
use podarium.Prelude.{
  ℕ, ◌≡◌, refl, arith, true, none, some, List, [], ◌∷◌, map, any, filter, sort_by, insert_sorted,
}
use podarium.Model.Enums.{Stamp}
use podarium.Samples.{episode}
use podarium.Queue.{ordered, owned, before, by_position}
use podarium.Sync.{
  Change, Tables, changed_at, change_before, is_in_delta, is_after_cursor, page_rows, next_cursor,
  reported_now, feed_changed_at, changed_feeds, answer, sync,
}
use podarium.Sync.Pages.{join_pages, read_pages}
use podarium.Sync.Paging.{is_row, read_pages-contains}
use podarium.Sync.Whole.{read_pages-whole}

program : Unit {0}
unfolding changed_at change_before is_in_delta is_after_cursor page_rows next_cursor reported_now
    feed_changed_at changed_feeds answer sync ordered owned before by_position sort_by insert_sorted
    join_pages read_pages is_row
program = tt

abbrev change : ℕ → Stamp → Change
change id t = record { episode = record episode { id = id; updated_at = t }; state = none }

abbrev tables : List Change → Tables
tables cs = record { changes = cs; feeds = []; queue = []; deleted = [] }

abbrev before_all : Tables
before_all = tables (change 3 70 ∷ change 2 50 ∷ change 1 50 ∷ [])

-- The first episode has changed again since the first page.
abbrev after_one : Tables
after_one = tables (change 3 70 ∷ change 2 50 ∷ change 1 90 ∷ [])

run :
    read_pages 10 1 (some 55) 1 none (map (λ m. (m, before_all)) (100 ∷ 101 ∷ 102 ∷ 103 ∷ []))
    ≡ some (change 1 50 ∷ change 2 50 ∷ change 3 70 ∷ [])
unfolding program
run = refl

abbrev RunContains : List Change → Type 0
RunContains out = any (is_row 2 50) out ≡ true

read_pages-contains_example :
    RunContains (change 1 50 ∷ change 2 50 ∷ change 3 70 ∷ change 1 90 ∷ [])
unfolding program
read_pages-contains_example =
    read_pages-contains 10 1 none 1 2 50
      ((100, before_all) ∷ (101, before_all) ∷ (102, after_one) ∷ (103, after_one) ∷ [])
      (change 1 50 ∷ change 2 50 ∷ change 3 70 ∷ change 1 90 ∷ []) (omega arith) refl
      (refl, (refl, (refl, (refl, tt)))) refl

read_pages-whole_example :
    read_pages 10 1 (some 55) 1 none (map (λ m. (m, before_all)) (100 ∷ 101 ∷ 102 ∷ 103 ∷ []))
    ≡ some (
        sort_by change_before
          (filter (λ c. is_in_delta 10 (some 55) (changed_at c)) before_all.changes))
read_pages-whole_example =
    read_pages-whole 10 1 (some 55) 1 before_all (100 ∷ 101 ∷ 102 ∷ 103 ∷ []) (omega arith)
      ((refl, (refl, tt)), ((refl, tt), (tt, tt))) (omega arith)
