-- ===== src/Sync/Paging.antt =====
-- A run of pages misses nothing that stays where it is.
use podarium.Prelude.{
  ℕ, zero, suc, ◌+◌, ◌<◌, ◌≡◌, ◌⊎◌, refl, arith, sym, ◌∙◌, subst, Bool, true, false, ◌&&◌, ◌||◌,
  Option, none, some, List, [], ◌∷◌, ◌++◌, ltb, ◌==◌, filter, any, All, length, take, sort_by,
  sort_by-IsSorted, IsSorted, any-sort_by, Bool-cases, Option-cases, inl, inr,
}
use podarium.Keyset.{take-take, last_of}
use podarium.Model.Enums.{Stamp}
use podarium.Sync.Pages.{
  join_pages, read_pages, change_before_total, change_before_trans, read_pages-page,
  next_cursor-some,
}
use podarium.Sync.{
  Change, Cursor, changed_at, change_before, is_in_delta, is_after_cursor, page_rows, next_cursor,
  reported_now, Tables,
}

-- The row of an episode, with the moment of its last change.
unfoldable pub is_row : ℕ → Stamp → Change → Bool
is_row id t c = c.episode.id == id && changed_at c == t

-- A row that is not before another, and is not that one, is after its cursor.
abbrev key_after : Change → ℕ → Stamp → Bool
key_after c id t = ltb (changed_at c) t || t == changed_at c && ltb c.episode.id id

before_any :
    (y : Change) (id : ℕ) (t : Stamp) (l : List Change)
    → All (λ z. change_before y z ≡ true) l
    → any (is_row id t) l ≡ true
    → is_row id t y ≡ false
    → key_after y id t ≡ true
unfolding change_before is_row
before_any y id t [] h k n = absurd (ground arith)
before_any y id t (z ∷ l) h k n = ground (arith, before_any y id t l h.1)

any-pos : (p : Change → Bool) (l : List Change) → any p l ≡ true → 0 < length l
any-pos p [] h = absurd (ground arith)
any-pos p (x ∷ l) h = omega arith

-- In a sorted list a row stands in front, or behind the last one in front.
take-row :
    (n id : ℕ) (t : Stamp) (l : List Change)
    → IsSorted change_before l
    → any (is_row id t) l ≡ true
    → (any (is_row id t) (take (suc n) l) ≡ true)
      ⊎ ((x : Change) × (last_of (take (suc n) l) ≡ some x)
          × (key_after x id t ≡ true)
          × (suc n < length l))
take-row n id t [] s h = absurd (ground arith)
take-row zero id t (y ∷ l) s h = elim (Bool-cases (is_row id t y)) [
  | inl e ↦ inl (rw e refl)
  | inr e ↦
      let later : any (is_row id t) l ≡ true = subst (λ b. (b || any (is_row id t) l) ≡ true) e h in
      inr (y, refl, before_any y id t l s.0 later e, omega (arith, any-pos (is_row id t) l later))
]
take-row (suc n) id t (y ∷ l) s h = elim (Bool-cases (is_row id t y)) [
  | inl e ↦ inl (rw e refl)
  | inr e ↦
      let later : any (is_row id t) l ≡ true = subst (λ b. (b || any (is_row id t) l) ≡ true) e h in
      elim (take-row n id t l s.1 later) [
        | inl k ↦ inl (rw e k)
        | inr (x, k, after, more) ↦ inr (x, rw k refl, after, omega arith)
      ]
]

any-filter_row :
    (id : ℕ) (t : Stamp) (q : Change → Bool) (l : List Change)
    → ((c : Change) → is_row id t c ≡ true → q c ≡ true)
    → any (is_row id t) l ≡ true
    → any (is_row id t) (filter q l) ≡ true
any-filter_row id t q [] h k = k
any-filter_row id t q (c ∷ l) h k = ground (arith, h c, any-filter_row id t q l h)

-- The rows that a cursor leaves are those after its key.
abbrev after_key : Option Cursor → ℕ → Stamp → Bool
after_key none id t = true
after_key (some k) id t = ltb k.stamp t || t == k.stamp && ltb k.id id

in_page :
    (overlap : Stamp) (since : Option Stamp) (cursor : Option Cursor) (id : ℕ) (t : Stamp)
    (c : Change)
    → is_in_delta overlap since t ≡ true
    → after_key cursor id t ≡ true
    → is_row id t c ≡ true
    → (is_in_delta overlap since (changed_at c) && is_after_cursor cursor c) ≡ true
unfolding is_row is_after_cursor is_in_delta
in_page overlap none none id t c h k m = refl
in_page overlap (some s) none id t c h k m = ground arith
in_page overlap none (some x) id t c h k m = ground arith
in_page overlap (some s) (some x) id t c h k m = ground arith

any-append_front : (p : Change → Bool) (l m : List Change) → any p l ≡ true → any p (l ++ m) ≡ true
any-append_front p [] m h = absurd (ground arith)
any-append_front p (x ∷ l) m h = ground (arith, any-append_front p l m)

any-append_back : (p : Change → Bool) (l m : List Change) → any p m ≡ true → any p (l ++ m) ≡ true
any-append_back p [] m h = h
any-append_back p (x ∷ l) m h = ground (arith, any-append_back p l m h)

-- A row of a page is in the run that the page begins.
join_pages-front :
    (p : Change → Bool) (page : List Change) (next : Option Cursor)
    (later : Cursor → Option (List Change)) (out : List Change)
    → any p page ≡ true
    → join_pages page next later ≡ some out
    → any p out ≡ true
unfolding join_pages
join_pages-front p page none later out h e = subst (λ l. any p l ≡ true) (ground arith) h
join_pages-front p page (some k) later out h e = elim (Option-cases (later k)) [
  | inl n ↦ absurd (ground arith)
  | inr (rest, r) ↦ subst (λ l. any p l ≡ true) (ground arith) (any-append_front p page rest h)
]

join_pages-back :
    (p : Change → Bool) (page : List Change) (k : Cursor) (later : Cursor → Option (List Change))
    (out : List Change)
    → ((rest : List Change) → later k ≡ some rest → any p rest ≡ true)
    → join_pages page (some k) later ≡ some out
    → any p out ≡ true
unfolding join_pages
join_pages-back p page k later out h e = elim (Option-cases (later k)) [
  | inl n ↦ absurd (ground arith)
  | inr (rest, r) ↦
      subst (λ l. any p l ≡ true) (ground arith) (any-append_back p page rest (h rest r))
]

page_rows-any :
    (overlap : Stamp) (since : Option Stamp) (cursor : Option Cursor) (id : ℕ) (t : Stamp)
    (changes : List Change)
    → is_in_delta overlap since t ≡ true
    → after_key cursor id t ≡ true
    → any (is_row id t) changes ≡ true
    → any (is_row id t) (
        sort_by change_before (
          filter
            (λ c. is_in_delta overlap since (changed_at c) && is_after_cursor cursor c)
            changes))
      ≡ true
page_rows-any overlap since cursor id t changes fresh after h =
    any-sort_by change_before (is_row id t) _
    ∙ any-filter_row id t
        (λ c. is_in_delta overlap since (changed_at c) && is_after_cursor cursor c) changes
        (λ c. in_page overlap since cursor id t c fresh after) h

-- A row that stays as it is while the pages are read, and that a cursor does not leave behind, is
-- in the run from that cursor.
read_pages-after :
    (overlap : Stamp) (u : ℕ) (since : Option Stamp) (n id : ℕ) (t : Stamp) (cursor : Option Cursor)
    (pages : List (Stamp × Tables)) (out : List Change)
    → is_in_delta overlap since t ≡ true
    → after_key cursor id t ≡ true
    → All (λ p. any (is_row id t) p.1.changes ≡ true) pages
    → read_pages overlap u since (suc n) cursor pages ≡ some out
    → any (is_row id t) out ≡ true
unfolding read_pages page_rows
read_pages-after overlap u since n id t cursor [] out fresh after there e = absurd (ground arith)
read_pages-after overlap u since n id t cursor ((now, tb) ∷ pages) out fresh after there e =
    let changes = tb.changes in
    let l = sort_by change_before (
      filter (λ c. is_in_delta overlap since (changed_at c) && is_after_cursor cursor c) changes) in
    let page = take (suc n) (take (suc n + 1) l) in
    let later : Cursor → Option (List Change) =
      λ k. read_pages overlap u since (suc n) (some k) pages in
    let run = sym (read_pages-page overlap u now since cursor (suc n) tb pages) ∙ e in
    elim (take-row n id t l
      (sort_by-IsSorted change_before change_before_total change_before_trans _)
      (page_rows-any overlap since cursor id t changes fresh after there.0)) [
        | inl front ↦
            join_pages-front (is_row id t) page
              (next_cursor (suc n) (reported_now now cursor) (take (suc n + 1) l)) later out
              (subst (λ r. any (is_row id t) r ≡ true) (sym (take-take (suc n) l)) front) run
        | inr (x, last, behind, more) ↦
            let k : Cursor = record {
              stamp = changed_at x;
              id = x.episode.id;
              checkpoint = some (reported_now now cursor);
            } in
            join_pages-back (is_row id t) page k later out
              (λ rest.
                read_pages-after overlap u since n id t (some k) pages rest fresh behind there.1)
              (subst (λ o. join_pages page o later ≡ some out)
                (next_cursor-some (suc n) (reported_now now cursor) l x more last) run)
      ]

-- If the tables change between the pages of a run, but one row stays as it is, that row is in what
-- the run returns: a page holds at least one row, and the row is changed since `since`.
pub read_pages-contains :
    (overlap : Stamp) (u : ℕ) (since : Option Stamp) (limit id : ℕ) (t : Stamp)
    (pages : List (Stamp × Tables)) (out : List Change)
    → 0 < limit
    → is_in_delta overlap since t ≡ true
    → All (λ p. any (is_row id t) p.1.changes ≡ true) pages
    → read_pages overlap u since limit none pages ≡ some out
    → any (is_row id t) out ≡ true
read_pages-contains overlap u since zero id t pages out some_rows fresh there e =
    absurd (omega arith)
read_pages-contains overlap u since (suc n) id t pages out some_rows fresh there e =
    read_pages-after overlap u since n id t none pages out fresh refl there e
