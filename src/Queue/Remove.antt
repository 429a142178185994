-- ===== src/Queue/Remove.antt =====
-- `remove_from_queue`: where no episode is queued twice, the deletion of the row that is found is
-- `drop_from_queue` of its episode.
use podarium.Prelude.{
  ℕ, ◌≤◌, ◌≡◌, refl, arith, sym, ap, ◌∙◌, subst, Bool, ◌&&◌, not, none, some, [], ◌∷◌, ◌==◌, filter,
  length, length-sort_by, List-cases, inl, inr,
}
use podarium.Model.Episode.{QueueItem}
use podarium.Queue.{
  Table, owned, before, ordered, is_dropped, drop_from_queue, compact_queue_positions, find_item,
  delete_item, ok, err, not_found, remove_from_queue,
}
use podarium.Queue.Order.{episodes, ordered-filter}
use podarium.Queue.Once.{IsOnce, length-filter-episodes}

module _ (u e : ℕ) where
  abbrev found : QueueItem → Bool
  found r = r.user_id == u && r.episode_id == e

  length-found :
      (t : Table) → length (filter found t) ≡ length (owned u (filter (λ r. r.episode_id == e) t))
  unfolding owned
  length-found [] = refl
  length-found (r ∷ t) = ground (arith, length-found t)

  found_once : (t : Table) → IsOnce (episodes (ordered u t)) → length (filter found t) ≤ 1
  unfolding ordered
  found_once t once =
      subst (λ n. n ≤ 1)
        (sym (
          length-found t
          ∙ sym (length-sort_by before (owned u (filter (λ r. r.episode_id == e) t)))
          ∙ ap length (ordered-filter u (λ r. r.episode_id == e) t)
          ∙ length-filter-episodes e (ordered u t)))
        (once e)

  delete_item_none :
      (t : Table) → length (filter found t) ≡ 0 → filter (λ r. not (is_dropped u (e ∷ []) r)) t ≡ t
  unfolding is_dropped
  delete_item_none [] h = refl
  delete_item_none (r ∷ t) h = ground (arith, delete_item_none t)

  -- At most one row is found, so the others are what is not dropped.
  delete_item-filter :
      (t : Table)
      → length (filter found t) ≤ 1
      → delete_item u e t ≡ filter (λ r. not (is_dropped u (e ∷ []) r)) t
  unfolding delete_item is_dropped
  delete_item-filter [] h = refl
  delete_item-filter (r ∷ t) h = ground (arith, delete_item_none t, delete_item-filter t)

  find_none : (t : Table) → find_item u e t ≡ none → filter (is_dropped u (e ∷ [])) t ≡ []
  unfolding find_item is_dropped
  find_none [] h = refl
  find_none (r ∷ t) h = ground (arith, find_none t)

  find_dropped : (t : Table) → filter (is_dropped u (e ∷ [])) t ≡ [] → find_item u e t ≡ none
  unfolding find_item is_dropped
  find_dropped [] h = refl
  find_dropped (r ∷ t) h = ground (arith, find_dropped t)

  find_some :
      (t : Table) {r : QueueItem}
      → find_item u e t ≡ some r
      → (x : QueueItem) × (xs : Table) × (filter (is_dropped u (e ∷ [])) t ≡ x ∷ xs)
  find_some t {r} h = elim (List-cases (filter (is_dropped u (e ∷ [])) t)) [
    | inl k ↦ let gone : find_item u e t ≡ none = find_dropped t k in absurd (ground arith)
    | inr (x, xs, k) ↦ (x, xs, k)
  ]

  pub remove_from_queue_missing :
      (t : Table)
      → find_item u e t ≡ none
      → (remove_from_queue u e t ≡ err not_found) × ((drop_from_queue u (e ∷ []) t).0 ≡ t)
  unfolding remove_from_queue drop_from_queue
  remove_from_queue_missing t h =
      (rw (h, remove_from_queue) refl, rw (find_none t h, drop_from_queue) refl)

  pub remove_from_queue_found :
      (t : Table) {r : QueueItem}
      → IsOnce (episodes (ordered u t))
      → find_item u e t ≡ some r
      → remove_from_queue u e t ≡ ok (drop_from_queue u (e ∷ []) t).0
  unfolding remove_from_queue drop_from_queue
  remove_from_queue_found t {r} once h =
      let (x, xs, k) = find_some t h in
      rw (h, remove_from_queue, k, drop_from_queue)
        (ap (λ q. ok (compact_queue_positions u q)) (delete_item-filter t (found_once t once)))
