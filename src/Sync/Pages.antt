-- ===== src/Sync/Pages.antt =====
-- How a client of `sync` reads a delta page by page, as the top of
-- src/podarium/api/sync_routes.py tells it to: with the cursor of each answer, until there is none.
use podarium.Prelude.{
  ℕ, ◌+◌, ◌≡◌, refl, ap, arith, true, false, Option, none, some, List, [], ◌∷◌, ◌++◌, ◌<◌, ◌≤◌, suc,
  ltb, length, lt→ltb, take,
}
use podarium.Keyset.{take-take, length-take-lt, take_all, last_of}
use podarium.Model.Enums.{Stamp}
use podarium.Sync.{
  Change, Cursor, change_before, changed_at, page_rows, next_cursor, reported_now, Tables, answer,
  sync,
}

-- A page in front of those that its cursor leads to.
unfoldable pub join_pages :
    List Change → Option Cursor → (Cursor → Option (List Change)) → Option (List Change)
join_pages page none later = some page
join_pages page (some k) later = elim (later k) [ none ↦ none | some rest ↦ some (page ++ rest) ]

-- The episodes of a run, where every page has a moment and the tables of that moment. It is none
-- if there are more pages than moments.
unfoldable pub read_pages :
    Stamp → ℕ → Option Stamp → ℕ → Option Cursor → List (Stamp × Tables) → Option (List Change)
unfolding join_pages sync
read_pages overlap u since limit cursor [] = none
read_pages overlap u since limit cursor ((now, t) ∷ later) =
    let out = sync overlap u now since cursor limit t in
    join_pages out.episodes out.next (λ k. read_pages overlap u since limit (some k) later)

pub change_before_total : (a b : Change) → change_before a b ≡ false → change_before b a ≡ true
unfolding change_before
change_before_total a b h = ground arith

pub change_before_trans :
    (a b c : Change)
    → change_before a b ≡ true
    → change_before b c ≡ true
    → change_before a c ≡ true
unfolding change_before
change_before_trans a b c h k = ground arith

-- A page of a run, by the rows that its query reads.
pub read_pages-page :
    (overlap : Stamp) (u : ℕ) (now : Stamp) (since : Option Stamp) (cursor : Option Cursor)
    (limit : ℕ) (t : Tables) (later : List (Stamp × Tables))
    → read_pages overlap u since limit cursor ((now, t) ∷ later)
      ≡ join_pages
          (take limit (page_rows overlap since cursor limit t.changes))
          (next_cursor limit
            (reported_now now cursor)
            (page_rows overlap since cursor limit t.changes))
          (λ k. read_pages overlap u since limit (some k) later)
unfolding read_pages sync answer
read_pages-page overlap u now since none limit t later = refl
read_pages-page overlap u now since (some k) limit t later = refl

-- The cursor of a page with rows behind it.
pub next_cursor-some :
    (limit : ℕ) (now : Stamp) (l : List Change) (x : Change)
    → limit < length l
    → last_of (take limit l) ≡ some x
    → next_cursor limit now (take (limit + 1) l)
      ≡ some (record { stamp = changed_at x; id = x.episode.id; checkpoint = some now })
unfolding next_cursor
next_cursor-some limit now l x h e =
    rw (lt→ltb limit (length (take (limit + 1) l)) (length-take-lt limit l h), take-take limit l, e)
      refl

le→ltb_false : (a b : ℕ) → b ≤ a → ltb a b ≡ false
le→ltb_false a b h = ground arith

-- A page that is the last one of its run.
pub join_pages-last :
    (n : ℕ) (now : Stamp) (l : List Change) (later : Cursor → Option (List Change))
    → length l ≤ suc n
    → join_pages (take (suc n) l) (next_cursor (suc n) now (take (suc n + 1) l)) later ≡ some l
unfolding join_pages next_cursor
join_pages-last n now l later h =
    rw
      (
        take_all (suc n + 1) l (omega arith),
        take_all (suc n) l h,
        le→ltb_false (suc n) (length l) h,
      )
      refl

-- A page with rows behind it.
pub join_pages-more :
    (page rest : List Change) (k : Cursor) (later : Cursor → Option (List Change))
    → later k ≡ some rest
    → join_pages page (some k) later ≡ some (page ++ rest)
unfolding join_pages
join_pages-more page rest k later h =
    ap
      (λ (o : Option (List Change)). elim o as (λ x. Option (List Change)) [
        | none ↦ none
        | some r ↦ some (page ++ r)
      ])
      h
