-- ===== src/Queue/Insert.antt =====
-- `add_to_queue`: where a new row lands.
use podarium.Prelude.{
  ℕ, zero, suc, ◌+◌, ◌≤◌, ◌<◌, ◌≡◌, refl, sym, ap, ap₂, ◌∙◌, max, true, false, Option, some, none,
  [], ◌∷◌, ◌++◌, map, arith, leb, if◌then◌else◌, or_else, is_some, ==_refl, length, take, drop, inl,
  inr, Option-cases, sort_by, insert_sorted, map-sort_by,
}
use podarium.Model.Enums.{Stamp}
use podarium.Model.Episode.{QueueItem}
use podarium.Queue.{
  Table, owned, before, ordered, compact_queue_positions, shift, next_position, make_room,
  insert_item, add_item, find_item,
}
use podarium.Queue.Order.{
  episodes, IsDense, IsDenseFrom, ordered-compact_queue_positions, renumber-episodes,
  compact_queue_positions-IsDense,
}

-- The push of `shift`, on a row that is the user's.
push : ℕ → QueueItem → QueueItem
push p r = if leb p r.position then record r { position = suc r.position } else r

before-push : (p : ℕ) (x y : QueueItem) → before (push p x) (push p y) ≡ before x y
unfolding push before
before-push p x y = ground arith

owned-map-shift : (u p : ℕ) (t : Table) → owned u (map (shift u p) t) ≡ map (push p) (owned u t)
unfolding owned shift push
owned-map-shift u p [] = refl
owned-map-shift u p (r ∷ t) = ground (arith, owned-map-shift u p t)

-- Pushing rows down and putting them in order commute.
ordered-map-shift :
    (u p : ℕ) (t : Table)
    → sort_by before (owned u (map (shift u p) t)) ≡ map (push p) (ordered u t)
unfolding ordered
ordered-map-shift u p t =
    ap (sort_by before) (owned-map-shift u p t)
    ∙ map-sort_by before before (push p) (before-push p) (owned u t)

episodes-map-push : (p : ℕ) (q : Table) → episodes (map (push p) q) ≡ episodes q
unfolding push
episodes-map-push p [] = refl
episodes-map-push p (r ∷ q) = ground (arith, episodes-map-push p q)

map-push_dense : (p i : ℕ) (q : Table) → IsDenseFrom i q → i + length q ≤ p → map (push p) q ≡ q
unfolding push
map-push_dense p i [] d h = refl
map-push_dense p i (r ∷ q) d h = ground (arith, map-push_dense p (suc i) q d.1)

before_pushed :
    (new r : QueueItem) → new.position ≡ r.position → before new (push new.position r) ≡ true
unfolding before push
before_pushed new r h = ground arith

after_pushed :
    (new r : QueueItem) → r.position < new.position → before new (push new.position r) ≡ false
unfolding before push
after_pushed new r h = ground arith

pushed_episode : (p : ℕ) (r : QueueItem) → (push p r).episode_id ≡ r.episode_id
unfolding push
pushed_episode p r = ground arith

-- In a queue numbered from i, a row at position i + k lands after the first k.
insert_dense :
    (new : QueueItem) (k i : ℕ) (q : Table)
    → new.position ≡ i + k
    → IsDenseFrom i q
    → episodes (insert_sorted before new (map (push new.position) q))
      ≡ take k (episodes q) ++ new.episode_id ∷ drop k (episodes q)
unfolding insert_sorted
insert_dense new zero i [] e d = refl
insert_dense new (suc k) i [] e d = refl
insert_dense new zero i (r ∷ q) e d =
    rw (before_pushed new r (omega arith))
      (ap (◌∷◌ new.episode_id) (episodes-map-push new.position (r ∷ q)))
insert_dense new (suc k) i (r ∷ q) e d =
    rw (after_pushed new r (omega arith))
      (ap₂ ◌∷◌ (pushed_episode new.position r) (insert_dense new k (suc i) q (omega arith) d.1))

next_position-insert_sorted :
    (r : QueueItem) (q : Table)
    → next_position (insert_sorted before r q) ≡ max (suc r.position) (next_position q)
unfolding next_position insert_sorted
next_position-insert_sorted r [] = refl
next_position-insert_sorted r (x ∷ q) = ground (arith, next_position-insert_sorted r q)

next_position-sort_by : (q : Table) → next_position (sort_by before q) ≡ next_position q
unfolding next_position sort_by
next_position-sort_by [] = refl
next_position-sort_by (x ∷ q) =
    next_position-insert_sorted x (sort_by before q)
    ∙ ap (max (suc x.position)) (next_position-sort_by q)

next_position_dense : (i : ℕ) (q : Table) → IsDenseFrom i q → max i (next_position q) ≡ i + length q
unfolding next_position
next_position_dense i [] d = omega arith
next_position_dense i (r ∷ q) d = omega (arith, next_position_dense (suc i) q d.1)

length-episodes : (q : Table) → length (episodes q) ≡ length q
length-episodes [] = refl
length-episodes (r ∷ q) = ap suc (length-episodes q)

module _ (u e id : ℕ) (now : Stamp) (t : Table) (dense : IsDense u t) where
  abbrev row : ℕ → QueueItem
  row p = record { id = id; user_id = u; episode_id = e; position = p; added_at = now }

  -- The rows of `make_room`, ordered, are the queue with the rows from the new position on pushed.
  insert_row :
      (p : ℕ) (rest : Table)
      → sort_by before (owned u rest) ≡ map (push p) (ordered u t)
      → episodes (ordered u (compact_queue_positions u (row p ∷ rest)))
        ≡ take p (episodes (ordered u t)) ++ e ∷ drop p (episodes (ordered u t))
  unfolding ordered owned sort_by
  insert_row p rest h =
      ap episodes (ordered-compact_queue_positions u (row p ∷ rest))
      ∙ renumber-episodes 0 _
      ∙ rw (==_refl u, h) (insert_dense (row p) p 0 (ordered u t) (omega arith) dense)

  next : next_position (owned u t) ≡ length (episodes (ordered u t))
  unfolding ordered
  next = omega (
    arith,
    next_position-sort_by (owned u t),
    next_position_dense 0 (ordered u t) dense,
    length-episodes (ordered u t),
  )

  -- In a dense queue a new episode lands at the position that was asked for, or at the end.
  pub insert_item_lem :
      (position : Option ℕ)
      → let es = episodes (ordered u t) in
        let p = or_else position (length es) in
        episodes (ordered u (insert_item u e position id now t)) ≡ take p es ++ e ∷ drop p es
  unfolding insert_item make_room ordered
  insert_item_lem (some p) = insert_row p (map (shift u p) t) (ordered-map-shift u p t)
  insert_item_lem none =
      let n = length (episodes (ordered u t)) in
      rw next (
        insert_row n t (
          sym (
            map-push_dense n 0 (ordered u t) dense (omega (arith, length-episodes (ordered u t))))))

  -- A new episode lands at the position that was asked for, or at the end; one that is queued
  -- already stays where it is.
  pub add_item_lem :
      (position : Option ℕ)
      → let es = episodes (ordered u t) in
        let p = or_else position (length es) in
        episodes (ordered u (add_item u e position id now t))
        ≡ (if is_some (find_item u e t) then es else take p es ++ e ∷ drop p es)
  unfolding add_item
  add_item_lem position = elim (Option-cases (find_item u e t)) [
    | inl new ↦ rw (new, add_item) (insert_item_lem position)
    | inr (r, queued) ↦ rw (queued, add_item)
  ]

  pub add_item-IsDense : (position : Option ℕ) → IsDense u (add_item u e position id now t)
  unfolding add_item insert_item
  add_item-IsDense position = elim (Option-cases (find_item u e t)) [
    | inl new ↦ rw (new, add_item) (compact_queue_positions-IsDense u _)
    | inr (r, queued) ↦ rw (queued, add_item) dense
  ]
