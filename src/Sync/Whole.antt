-- ===== src/Sync/Whole.antt =====
-- A run of pages over tables that do not change is the whole delta.
use podarium.Prelude.{
  ℕ, zero, suc, ◌+◌, ◌<◌, ◌≡◌, refl, arith, sym, ap, ◌∙◌, Bool, true, false, ◌&&◌, ◌||◌, not,
  Option, none, some, List, [], ◌∷◌, map, ltb, leb, leb→le, ◌==◌, filter, filter_keeps,
  length-sort_by, length-filter-le, All, length, take, drop, take-append-drop, sort_by,
  sort_by-IsSorted, IsSorted, filter-sort_by, Bool-cases, inl, inr,
}
use podarium.Model.Enums.{Stamp}
use podarium.Keyset.{
  take-take, filter_both, IsSorted-filter, filter_within, sort_by-leaves, last_of, last_of-filter,
  length-drop_lt, last_of-take, filter-leaves,
}
use podarium.Sync.Pages.{
  join_pages, read_pages, change_before_total, change_before_trans, read_pages-page,
  next_cursor-some, join_pages-last, join_pages-more,
}
use podarium.Sync.{
  Change, Cursor, changed_at, change_before, is_in_delta, is_after_cursor, page_rows, next_cursor,
  reported_now, Tables,
}

-- The changes of different episodes, as the primary keys have it.
abbrev pub differs : Change → Change → Bool
differs a b = not (a.episode.id == b.episode.id)

-- What a cursor made of the first row leaves of the second.
abbrev leaves : Change → Change → Bool
leaves x c =
    ltb (changed_at x) (changed_at c)
    || changed_at c == changed_at x && ltb x.episode.id c.episode.id

leaves-sym : (x y : Change) → leaves x y ≡ true → leaves y x ≡ false
leaves-sym x y h = ground arith

leaves_refl : (x : Change) → leaves x x ≡ false
leaves_refl x = ground arith

differs-sym : (x y : Change) → differs x y ≡ true → differs y x ≡ true
differs-sym x y h = ground arith

before-leaves : (x y : Change) → change_before x y ≡ true → differs x y ≡ true → leaves x y ≡ true
unfolding change_before
before-leaves x y h k = ground arith

left_behind :
    (cursor : Option Cursor) (x c : Change)
    → is_after_cursor cursor x ≡ true
    → is_after_cursor cursor c ≡ false
    → leaves x c ≡ false
unfolding is_after_cursor
left_behind none x c h n = absurd (ground arith)
left_behind (some k) x c h n = ground arith

-- The rows of the delta that a cursor leaves.
abbrev rows_left : Stamp → Option Stamp → Option Cursor → List Change → List Change
rows_left overlap since cursor changes =
    filter (is_after_cursor cursor)
      (sort_by change_before (filter (λ c. is_in_delta overlap since (changed_at c)) changes))

page_rows-take :
    (overlap : Stamp) (since : Option Stamp) (cursor : Option Cursor) (limit : ℕ)
    (changes : List Change)
    → page_rows overlap since cursor limit changes
      ≡ take (limit + 1) (rows_left overlap since cursor changes)
unfolding page_rows
page_rows-take overlap since cursor limit changes =
    ap (λ l. take (limit + 1) l)
      (ap (sort_by change_before) (
          filter_both (λ c. is_in_delta overlap since (changed_at c)) (is_after_cursor cursor)
            changes)
        ∙ sym (
            filter-sort_by change_before change_before_total change_before_trans
              (is_after_cursor cursor)
              (filter (λ c. is_in_delta overlap since (changed_at c)) changes)))

rows_left-IsSorted :
    (overlap : Stamp) (since : Option Stamp) (cursor : Option Cursor) (changes : List Change)
    → IsSorted differs changes
    → IsSorted leaves (rows_left overlap since cursor changes)
rows_left-IsSorted overlap since cursor changes h =
    let l = filter (λ c. is_in_delta overlap since (changed_at c)) changes in
    IsSorted-filter leaves (is_after_cursor cursor) (sort_by change_before l) (
      sort_by-leaves change_before leaves differs differs-sym before-leaves l
        (sort_by-IsSorted change_before change_before_total change_before_trans l)
        (IsSorted-filter differs _ changes h))

-- What the cursor of a page leaves is what that page does not have.
rows_left-next :
    (overlap : Stamp) (since : Option Stamp) (n : ℕ) (cursor : Option Cursor) (now : Stamp)
    (x : Change) (changes : List Change)
    → IsSorted differs changes
    → last_of (take (suc n) (rows_left overlap since cursor changes)) ≡ some x
    → rows_left overlap since
        (some (record { stamp = changed_at x; id = x.episode.id; checkpoint = some now }))
        changes
      ≡ drop (suc n) (rows_left overlap since cursor changes)
unfolding is_after_cursor
rows_left-next overlap since n cursor now x changes d last =
    sym (
      filter_within (is_after_cursor cursor) (leaves x) _
        (λ c. left_behind cursor x c (last_of-filter (is_after_cursor cursor) (suc n) x _ last)))
    ∙ filter-leaves leaves leaves_refl leaves-sym n x (rows_left overlap since cursor changes)
        (rows_left-IsSorted overlap since cursor changes d) last

All-true : (l : List Change) → All (λ c. true ≡ true) l
All-true [] = tt
All-true (c ∷ l) = (refl, All-true l)

rows_left-none :
    (overlap : Stamp) (since : Option Stamp) (changes : List Change)
    → rows_left overlap since none changes
      ≡ sort_by change_before (filter (λ c. is_in_delta overlap since (changed_at c)) changes)
unfolding is_after_cursor
rows_left-none overlap since changes = filter_keeps _ _ (All-true _)

leb_false→lt : (a b : ℕ) → leb a b ≡ false → b < a
leb_false→lt a b h = ground arith

-- The first page of a run, by the rows that its cursor leaves.
read_pages-first :
    (overlap : Stamp) (u : ℕ) (now : Stamp) (since : Option Stamp) (n : ℕ) (t : Tables)
    (cursor : Option Cursor) (pages : List (Stamp × Tables))
    → read_pages overlap u since (suc n) cursor ((now, t) ∷ pages)
      ≡ join_pages
          (take (suc n) (rows_left overlap since cursor t.changes))
          (next_cursor
            (suc n)
            (reported_now now cursor)
            (take (suc n + 1) (rows_left overlap since cursor t.changes)))
          (λ k. read_pages overlap u since (suc n) (some k) pages)
read_pages-first overlap u now since n t cursor pages =
    let l = rows_left overlap since cursor t.changes in
    let later : Cursor → Option (List Change) =
      λ k. read_pages overlap u since (suc n) (some k) pages in
    let next : List Change → Option Cursor = next_cursor (suc n) (reported_now now cursor) in
    read_pages-page overlap u now since cursor (suc n) t pages
    ∙ ap (λ r. join_pages (take (suc n) r) (next r) later)
        (page_rows-take overlap since cursor (suc n) t.changes)
    ∙ ap (λ r. join_pages r (next (take (suc n + 1) l)) later) (take-take (suc n) l)

-- The run that begins at a cursor, if it is long enough.
read_pages-rest :
    (overlap : Stamp) (u : ℕ) (since : Option Stamp) (n : ℕ) (t : Tables) (cursor : Option Cursor)
    (moments : List Stamp)
    → IsSorted differs t.changes
    → length (rows_left overlap since cursor t.changes) < length moments
    → read_pages overlap u since (suc n) cursor (map (λ m. (m, t)) moments)
      ≡ some (rows_left overlap since cursor t.changes)
read_pages-rest overlap u since n t cursor [] d h = absurd (omega arith)
read_pages-rest overlap u since n t cursor (now ∷ moments) d h =
    let l : List Change = rows_left overlap since cursor t.changes in
    let pages : List (Stamp × Tables) = map (λ m. (m, t)) moments in
    let later : Cursor → Option (List Change) =
      λ k. read_pages overlap u since (suc n) (some k) pages in
    let now' : Stamp = reported_now now cursor in
    read_pages-first overlap u now since n t cursor pages
    ∙ elim (Bool-cases (leb (length l) (suc n))) [
      | inl e ↦ join_pages-last n now' l later (leb→le _ _ e)
      | inr e ↦
          let more : suc n < length l = leb_false→lt (length l) (suc n) e in
          let (x, last) = last_of-take n l (omega arith) in
          let k : Cursor = record {
            stamp = changed_at x;
            id = x.episode.id;
            checkpoint = some now';
          } in
          let left = rows_left-next overlap since n cursor now' x t.changes d last in
          ap (λ o. join_pages (take (suc n) l) o later)
            (next_cursor-some (suc n) now' l x more last)
          ∙ join_pages-more (take (suc n) l) (drop (suc n) l) k later (
              read_pages-rest overlap u since n t (some k) moments d
                (rw left (omega (arith, length-drop_lt n l more)))
              ∙ ap some left)
          ∙ ap some (take-append-drop (suc n) l)
    ]

-- If the tables stay as they are while a delta is read, and no two changes are of one episode, the
-- run ends, in at most a page more than there are changes, and it is the whole delta: every episode
-- that is changed since `since`, by the moment of its last change, none left out and none twice.
pub read_pages-whole :
    (overlap : Stamp) (u : ℕ) (since : Option Stamp) (limit : ℕ) (t : Tables) (moments : List Stamp)
    → 0 < limit
    → IsSorted differs t.changes
    → length t.changes < length moments
    → read_pages overlap u since limit none (map (λ m. (m, t)) moments)
      ≡ some
          (sort_by change_before (filter (λ c. is_in_delta overlap since (changed_at c)) t.changes))
read_pages-whole overlap u since zero t moments page d h = absurd (omega arith)
read_pages-whole overlap u since (suc n) t moments page d h =
    let all = rows_left-none overlap since t.changes in
    read_pages-rest overlap u since n t none moments d (
      rw
        (
          all,
          length-sort_by change_before
              (filter (λ c. is_in_delta overlap since (changed_at c)) t.changes),
        )
        (omega (arith, length-filter-le (λ c. is_in_delta overlap since (changed_at c)) t.changes)))
    ∙ ap some all
