-- ===== src/Queue/Drop.antt =====
-- `drop_from_queue` and `remove_from_queue`: what is left, and in what order.
use podarium.Prelude.{
  ℕ, ◌≡◌, ◌≢◌, refl, ap, ◌∙◌, Bool, true, not, List, [], ◌∷◌, arith, ◌==◌, length, filter, contains,
  All, List-cases, filter_keeps, subst, inl, inr,
}
use podarium.Model.Episode.{QueueItem}
use podarium.Queue.{Table, ordered, is_dropped, drop_from_queue}
use podarium.Queue.Order.{
  episodes, IsDense, ordered-filter, ordered-compact_queue_positions, renumber-episodes, All-owned,
  compact_queue_positions-IsDense, ordered_other-compact_queue_positions,
}

-- The row is not one of the episodes.
abbrev pub stays : List ℕ → QueueItem → Bool
stays ids r = not (contains r.episode_id ids)

filter_dropped :
    (u : ℕ) (ids : List ℕ) (q : Table)
    → All (λ r. (r.user_id == u) ≡ true) q
    → filter (λ r. not (is_dropped u ids r)) q ≡ filter (stays ids) q
unfolding is_dropped
filter_dropped u ids [] a = refl
filter_dropped u ids (r ∷ q) a = ground (arith, filter_dropped u ids q a.1)

-- Where no row is dropped, every row of the user's stays.
none_dropped :
    (u : ℕ) (ids : List ℕ) (t : Table)
    → filter (is_dropped u ids) t ≡ []
    → filter (λ r. not (is_dropped u ids r)) t ≡ t
none_dropped u ids [] e = refl
none_dropped u ids (r ∷ t) e = ground (arith, none_dropped u ids t)

not_dropped :
    (u v : ℕ) (ids : List ℕ)
    → v ≢ u
    → (q : Table) → All (λ r. (r.user_id == v) ≡ true) q
    → All (λ r. not (is_dropped u ids r) ≡ true) q
unfolding is_dropped
not_dropped u v ids h [] a = tt
not_dropped u v ids h (r ∷ q) a = (ground arith, not_dropped u v ids h q a.1)

module _ (u : ℕ) (ids : List ℕ) (t : Table) where
  kept_episodes :
      episodes (ordered u (filter (λ r. not (is_dropped u ids r)) t))
      ≡ episodes (filter (stays ids) (ordered u t))
  kept_episodes =
      ap episodes (ordered-filter u _ t ∙ filter_dropped u ids (ordered u t) (All-owned u t))

  -- The queue plays what it played before, less the dropped episodes and in the same order, and
  -- the count is that of the user's rows that held one of them.
  pub drop_from_queue_lem :
      let (t', n) = drop_from_queue u ids t in
      (episodes (ordered u t') ≡ episodes (filter (stays ids) (ordered u t)))
      × (n ≡ length (filter (is_dropped u ids) t))
  unfolding drop_from_queue
  drop_from_queue_lem = elim (List-cases (filter (is_dropped u ids) t)) [
    | inl e ↦
        rw (e, drop_from_queue)
          (
            subst (λ x. episodes (ordered u x) ≡ episodes (filter (stays ids) (ordered u t)))
                (none_dropped u ids t e) kept_episodes,
            refl,
          )
    | inr (r, rs, e) ↦
        rw (e, drop_from_queue)
          (
            ap episodes (ordered-compact_queue_positions u _)
                ∙ renumber-episodes 0 _
                ∙ kept_episodes,
            refl,
          )
  ]

  -- A dense queue stays dense.
  pub drop_from_queue-IsDense : IsDense u t → IsDense u (drop_from_queue u ids t).0
  unfolding drop_from_queue
  drop_from_queue-IsDense d = elim (List-cases (filter (is_dropped u ids) t)) [
    | inl e ↦ rw (e, drop_from_queue) d
    | inr (r, rs, e) ↦ rw (e, drop_from_queue) (compact_queue_positions-IsDense u _)
  ]

  -- The other users' queues are left alone.
  pub drop_from_queue_other : (v : ℕ) → v ≢ u → ordered v (drop_from_queue u ids t).0 ≡ ordered v t
  unfolding drop_from_queue
  drop_from_queue_other v h = elim (List-cases (filter (is_dropped u ids) t)) [
    | inl e ↦ rw (e, drop_from_queue)
    | inr (r, rs, e) ↦
        rw (e, drop_from_queue)
          (ordered_other-compact_queue_positions u v _ h
            ∙ ordered-filter v _ t
            ∙ filter_keeps _ (ordered v t) (not_dropped u v ids h (ordered v t) (All-owned v t)))
  ]
