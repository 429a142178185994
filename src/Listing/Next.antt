-- ===== src/Listing/Next.antt =====
-- A page and the one that its cursor leads to.
use podarium.Prelude.{
  ℕ, suc, ◌+◌, ◌≡◌, refl, arith, sym, ap, ap₂, ◌∙◌, Bool, true, false, ◌&&◌, ◌||◌, not, Option,
  none, some, List, ◌++◌, map, map-append, ltb, ◌==◌, if◌then◌else◌, filter, length, take, drop,
  sort_by, sort_by-IsSorted, filter-sort_by, IsSorted, Bool-cases, Option-cases, inl, inr,
}
use podarium.Model.Enums.{Stamp}
use podarium.Keyset.{
  last_of, take-take, take-append-take, filter_both, filter_within, IsSorted-filter, last_of-filter,
  filter-leaves, sort_by-leaves,
}
use podarium.Listing.{
  Listed, Query, sort_key, is_listed, listed_first, is_behind, listed_rows, next_listed,
  without_notes, list_episodes,
}

-- The rows of different episodes.
abbrev pub differs : Listed → Listed → Bool
differs a b = not (a.episode.id == b.episode.id)

differs-sym : (x y : Listed) → differs x y ≡ true → differs y x ≡ true
differs-sym x y h = ground arith

module _ (q : Query) where
  abbrev leaves : Listed → Listed → Bool
  leaves x r =
      ltb (sort_key q r) (sort_key q x)
      || sort_key q r == sort_key q x && ltb r.episode.id x.episode.id

  leaves_refl : (x : Listed) → leaves x x ≡ false
  leaves_refl x = ground arith

  leaves-sym : (x y : Listed) → leaves x y ≡ true → leaves y x ≡ false
  leaves-sym x y h = ground arith

  first-leaves : (x y : Listed) → listed_first q x y ≡ true → differs x y ≡ true → leaves x y ≡ true
  unfolding listed_first
  first-leaves x y h k = ground arith

  first_total : (a b : Listed) → listed_first q a b ≡ false → listed_first q b a ≡ true
  unfolding listed_first
  first_total a b h = ground arith

  first_trans :
      (a b c : Listed)
      → listed_first q a b ≡ true
      → listed_first q b c ≡ true
      → listed_first q a c ≡ true
  unfolding listed_first
  first_trans a b c h k = ground arith

  -- What the cursor leaves of the whole listing.
  abbrev rest : Option (Stamp × ℕ) → List Listed → List Listed
  rest c rows = filter (is_behind q c) (sort_by (listed_first q) (filter (is_listed q) rows))

  listed_rows-take :
      (c : Option (Stamp × ℕ)) (limit : ℕ) (rows : List Listed)
      → listed_rows q c limit rows ≡ take (limit + 1) (rest c rows)
  unfolding listed_rows
  listed_rows-take c limit rows = ap (take (limit + 1)) (
      ap (sort_by (listed_first q)) (filter_both (is_listed q) (is_behind q c) rows)
      ∙ sym (
          filter-sort_by (listed_first q) first_total first_trans (is_behind q c)
            (filter (is_listed q) rows)))

  rest-IsSorted :
      (c : Option (Stamp × ℕ)) (rows : List Listed)
      → IsSorted differs rows
      → IsSorted leaves (rest c rows)
  rest-IsSorted c rows h =
      let l = filter (is_listed q) rows in
      IsSorted-filter leaves (is_behind q c) (sort_by (listed_first q) l) (
        sort_by-leaves (listed_first q) leaves differs differs-sym first-leaves l
          (sort_by-IsSorted (listed_first q) first_total first_trans l)
          (IsSorted-filter differs (is_listed q) rows h))

  behind_behind :
      (c : Option (Stamp × ℕ)) (x r : Listed)
      → is_behind q c x ≡ true
      → is_behind q c r ≡ false
      → leaves x r ≡ false
  unfolding is_behind
  behind_behind none x r h n = absurd (ground arith)
  behind_behind (some k) x r h n = ground arith

  rest-next :
      (n : ℕ) (c : Option (Stamp × ℕ)) (x : Listed) (rows : List Listed)
      → IsSorted differs rows
      → last_of (take (suc n) (rest c rows)) ≡ some x
      → rest (some (sort_key q x, x.episode.id)) rows ≡ drop (suc n) (rest c rows)
  unfolding is_behind
  rest-next n c x rows d last =
      sym (
        filter_within (is_behind q c) (leaves x) _
          (λ r. behind_behind c x r (last_of-filter (is_behind q c) (suc n) x _ last)))
      ∙ filter-leaves leaves leaves_refl leaves-sym n x (rest c rows) (rest-IsSorted c rows d) last

  -- The rows in the shape of the answer.
  abbrev shown : List Listed → List Listed
  shown l = if q.notes then l else map without_notes l

  shown-append : (l m : List Listed) → shown (l ++ m) ≡ shown l ++ shown m
  shown-append l m = elim (Bool-cases q.notes) [
    | inl e ↦ rw e refl
    | inr e ↦ rw e (map-append without_notes l m)
  ]

  list_episodes-items :
      (c : Option (Stamp × ℕ)) (limit : ℕ) (rows : List Listed)
      → (list_episodes q c limit rows).items ≡ shown (take limit (rest c rows))
  unfolding list_episodes
  list_episodes-items c limit rows =
      ap (λ l. shown (take limit l)) (listed_rows-take c limit rows)
      ∙ ap shown (take-take limit (rest c rows))

  next_listed-some :
      (limit : ℕ) (found : List Listed) {k : Stamp × ℕ}
      → next_listed q limit found ≡ some k
      → (x : Listed) × (last_of (take limit found) ≡ some x) × (k ≡ (sort_key q x, x.episode.id))
  unfolding next_listed
  next_listed-some limit found {k} h = elim (Bool-cases (ltb limit (length found))) [
    | inl e ↦ elim (Option-cases (last_of (take limit found))) [
      | inl z ↦ absurd (ground arith)
      | inr (x, z) ↦ (x, z, ground arith)
    ]
    | inr e ↦ absurd (ground arith)
  ]

  list_episodes-next :
      (c : Option (Stamp × ℕ)) (limit : ℕ) (rows : List Listed) {k : Stamp × ℕ}
      → (list_episodes q c limit rows).next_cursor ≡ some k
      → (x : Listed) × (last_of (take limit (rest c rows)) ≡ some x)
        × (k ≡ (sort_key q x, x.episode.id))
  unfolding list_episodes
  list_episodes-next c limit rows {k} h =
      let (x, last, key) = next_listed-some limit (listed_rows q c limit rows) h in
      (
        x,
        sym (
              ap last_of
                (ap (take limit) (listed_rows-take c limit rows) ∙ take-take limit (rest c rows)))
            ∙ last,
        key,
      )

-- Two pages of a listing that does not change in between are one page of both lengths, for rows of
-- different episodes: nothing is skipped at the seam and nothing shown twice, whatever the order
-- and the filters are.
pub list_episodes-append :
    (q : Query) (c : Option (Stamp × ℕ)) (n m : ℕ) (rows : List Listed) {k : Stamp × ℕ}
    → IsSorted differs rows
    → (list_episodes q c (suc n) rows).next_cursor ≡ some k
    → (list_episodes q c (suc n) rows).items ++ (list_episodes q (some k) m rows).items
      ≡ (list_episodes q c (suc n + m) rows).items
list_episodes-append q c n m rows {k} d h =
    let (x, last, key) = list_episodes-next q c (suc n) rows h in
    let seam : rest q (some k) rows ≡ drop (suc n) (rest q c rows) =
      ap (λ k. rest q (some k) rows) key ∙ rest-next q n c x rows d last in
    ap₂ ◌++◌ (list_episodes-items q c (suc n) rows)
      (list_episodes-items q (some k) m rows ∙ ap (λ l. shown q (take m l)) seam)
    ∙ sym (shown-append q (take (suc n) (rest q c rows)) (take m (drop (suc n) (rest q c rows))))
    ∙ ap (shown q) (take-append-take (suc n) m (rest q c rows))
    ∙ sym (list_episodes-items q c (suc n + m) rows)
