-- ===== src/Queue/Reorder.antt =====
-- `reorder_queue`: the order that was asked for, and what was left out of it after that.
use podarium.Prelude.{
  ℕ, suc, ◌+◌, ◌≤◌, ◌≡◌, ◌≢◌, refl, sym, ap, ap₂, ◌∙◌, subst, Bool, true, false, not, ◌&&◌, ◌||◌,
  some, List, [], ◌∷◌, ◌++◌, arith, ◌==◌, if◌then◌else◌, length, filter, contains, find, All, inl,
  inr, any, Option-cases, Bool-cases, sort_by, any-sort_by, IsSorted, sort_by-sorted, All-sort_by,
  All-filter_of, All-filter, All-append, add-zero, zero-add, map-append, List-cases, ==_iff,
}
use podarium.Model.Episode.{QueueItem}
use podarium.Queue.{
  Table, ok, err, unprocessable, owned, others, before, ordered, renumber, place, by_position,
  remaining, unknown_ids, reorder_queue,
}
use podarium.Queue.Order.{
  episodes, IsDense, IsDenseFrom, renumber-episodes, All-before, renumber-IsDenseFrom,
  IsDenseFrom-All-le, IsDenseFrom-IsSorted, All-owned-renumber, owned-beside,
}

-- The ids in the order of their last mention.
abbrev pub last_mentions : List ℕ → List ℕ
last_mentions [] = []
last_mentions (e ∷ es) = if contains e es then last_mentions es else e ∷ last_mentions es

-- No id is named twice.
abbrev pub IsDistinct : List ℕ → Type 0
IsDistinct [] = Unit
IsDistinct (e ∷ es) = (contains e es ≡ false) × IsDistinct es

find_of_any :
    (e : ℕ) (items : Table)
    → any (λ r. r.episode_id == e) items ≡ true
    → (r : QueueItem) × (find (λ r. r.episode_id == e) items ≡ some r) × (r.episode_id ≡ e)
find_of_any e [] h = cc
find_of_any e (r ∷ items) h = elim (Bool-cases (r.episode_id == e)) [
  | inl here ↦ (r, rw here, ground arith)
  | inr there ↦
      let (x, found, same) = find_of_any e items (ground arith) in (x, rw there found, same)
]

find-All {κ} :
    (P : QueueItem → Type κ) (p : QueueItem → Bool) (items : Table) (r : QueueItem)
    → All P items
    → find p items ≡ some r
    → P r
find-All P p [] r a h = cc
find-All P p (x ∷ items) r a h = elim (Bool-cases (p x)) [
  | inl e ↦ subst P (ground arith) a.0
  | inr e ↦ find-All P p items r a.1 (ground arith)
]

unknown_ids-cons :
    (e : ℕ) (es : List ℕ) (items : Table)
    → unknown_ids (e ∷ es) items ≡ []
    → (any (λ r. r.episode_id == e) items ≡ true) × (unknown_ids es items ≡ [])
unfolding unknown_ids
unknown_ids-cons e es items h = ground arith

module _ (items : Table) where
  All-owned-place :
      (u i : ℕ) (ids : List ℕ)
      → All (λ r. (r.user_id == u) ≡ true) items
      → All (λ r. (r.user_id == u) ≡ true) (place i ids items)
  unfolding place
  All-owned-place u i [] a = tt
  All-owned-place u i (e ∷ es) a = elim (Bool-cases (contains e es)) [
    | inl again ↦ rw again (All-owned-place u (suc i) es a)
    | inr last ↦ elim (Option-cases (find (λ r. r.episode_id == e) items)) [
      | inl missing ↦ rw (last, missing) (All-owned-place u (suc i) es a)
      | inr (r, found) ↦
          rw (last, found)
            (
              find-All (λ r. (r.user_id == u) ≡ true) _ items r a found,
              All-owned-place u (suc i) es a,
            )
    ]
  ]

  -- The rows that are named stand in the order of their last mention.
  place-episodes :
      (i : ℕ) (ids : List ℕ)
      → unknown_ids ids items ≡ []
      → episodes (place i ids items) ≡ last_mentions ids
  unfolding place
  place-episodes i [] h = refl
  place-episodes i (e ∷ es) h =
      let (known, rest) = unknown_ids-cons e es items h in
      let (r, found, same) = find_of_any e items known in
      elim (Bool-cases (contains e es)) [
        | inl again ↦ rw again (place-episodes (suc i) es rest)
        | inr last ↦ rw (last, found) (ap₂ ◌∷◌ same (place-episodes (suc i) es rest))
      ]

  module _ (rest : Table) where
    abbrev numbered : ℕ → List ℕ → Table
    numbered i ids = place i ids items ++ renumber (i + length ids) rest

    numbered-All-le : (j i : ℕ) (ids : List ℕ) → j ≤ i → All (λ r. j ≤ r.position) (numbered i ids)
    unfolding place
    numbered-All-le j i [] h =
        IsDenseFrom-All-le j (i + 0) _ (omega arith) (renumber-IsDenseFrom (i + 0) rest)
    numbered-All-le j i (e ∷ es) h =
        let ih : All (λ r. j ≤ r.position) (numbered (suc i) es) =
          numbered-All-le j (suc i) es (omega arith) in
        let e' : i + suc (length es) ≡ suc i + length es = omega arith in
        rw e' (elim (Bool-cases (contains e es)) [
          | inl again ↦ rw again ih
          | inr last ↦ elim (Option-cases (find (λ r. r.episode_id == e) items)) [
            | inl missing ↦ rw (last, missing) ih
            | inr (r, found) ↦ rw (last, found) (h, ih)
          ]
        ])

    numbered-IsSorted : (i : ℕ) (ids : List ℕ) → IsSorted before (numbered i ids)
    unfolding place
    numbered-IsSorted i [] = IsDenseFrom-IsSorted (i + 0) _ (renumber-IsDenseFrom (i + 0) rest)
    numbered-IsSorted i (e ∷ es) =
        let ih : IsSorted before (numbered (suc i) es) = numbered-IsSorted (suc i) es in
        let e' : i + suc (length es) ≡ suc i + length es = omega arith in
        rw e' (elim (Bool-cases (contains e es)) [
          | inl again ↦ rw again ih
          | inr last ↦ elim (Option-cases (find (λ r. r.episode_id == e) items)) [
            | inl missing ↦ rw (last, missing) ih
            | inr (r, found) ↦
                rw (last, found)
                  (
                    All-before (record r { position = i }) _
                        (numbered-All-le (suc i) (suc i) es (omega arith)),
                    ih,
                  )
          ]
        ])

    -- With no id named twice the numbering leaves no gap.
    numbered-IsDenseFrom :
        (i : ℕ) (ids : List ℕ)
        → IsDistinct ids
        → unknown_ids ids items ≡ []
        → IsDenseFrom i (numbered i ids)
    unfolding place
    numbered-IsDenseFrom i [] d h = rw (add-zero i) (renumber-IsDenseFrom i rest)
    numbered-IsDenseFrom i (e ∷ es) d h =
        let (known, rest_known) = unknown_ids-cons e es items h in
        let (r, found, same) = find_of_any e items known in
        let e' : i + suc (length es) ≡ suc i + length es = omega arith in
        rw (e', d.0, found) (refl, numbered-IsDenseFrom (suc i) es d.1 rest_known)

remaining-owned :
    (u : ℕ) (ids : List ℕ) (t : Table)
    → All (λ r. (r.user_id == u) ≡ true) (remaining ids (owned u t))
unfolding remaining owned
remaining-owned u ids t =
    All-sort_by by_position (λ r. (r.user_id == u) ≡ true) _
      (All-filter_of (λ r. (r.user_id == u) ≡ true) _ _ (All-filter _ t))

owned-All : (u : ℕ) (t : Table) → All (λ r. (r.user_id == u) ≡ true) (owned u t)
unfolding owned
owned-All u t = All-filter _ t

contains-append :
    (e : ℕ) (xs ys : List ℕ) → contains e (xs ++ ys) ≡ (contains e xs || contains e ys)
contains-append e [] ys = refl
contains-append e (x ∷ xs) ys = ground (arith, contains-append e xs ys)

contains-last_mentions : (e : ℕ) (ids : List ℕ) → contains e (last_mentions ids) ≡ contains e ids
contains-last_mentions e [] = refl
contains-last_mentions e (x ∷ ids) = elim (Bool-cases (contains x ids)) [
  | inl again ↦ rw again (ground (arith, contains-last_mentions e ids, again))
  | inr last ↦ rw last (ground (arith, contains-last_mentions e ids))
]

contains-episodes : (e : ℕ) (q : Table) → contains e (episodes q) ≡ any (λ r. r.episode_id == e) q
contains-episodes e [] = refl
contains-episodes e (r ∷ q) = ground (arith, contains-episodes e q)

any-left_out :
    (e : ℕ) (ids : List ℕ) (q : Table)
    → any (λ r. r.episode_id == e) (filter (λ r. not (contains r.episode_id ids)) q)
      ≡ (not (contains e ids) && any (λ r. r.episode_id == e) q)
any-left_out e ids [] = ground arith
any-left_out e ids (r ∷ q) = elim (Bool-cases (r.episode_id == e)) [
  | inl same ↦
      ground
        (arith, any-left_out e ids q, ap (λ x. contains x ids) ((==_iff r.episode_id e).0 same))
  | inr other ↦ ground (arith, any-left_out e ids q)
]

known_id :
    (e : ℕ) (ids : List ℕ) (items : Table)
    → unknown_ids ids items ≡ []
    → contains e ids ≡ true
    → any (λ r. r.episode_id == e) items ≡ true
known_id e [] items h c = cc
known_id e (x ∷ ids) items h c =
    let (known, rest) = unknown_ids-cons x ids items h in
    elim (Bool-cases (e == x)) [
      | inl same ↦
          subst (λ y. any (λ r. r.episode_id == y) items ≡ true) (sym ((==_iff e x).0 same)) known
      | inr other ↦ known_id e ids items rest (ground arith)
    ]

module _ (u : ℕ) (ids : List ℕ) (t : Table) where
  abbrev left : Table
  left = remaining ids (owned u t)

  abbrev reordered : Table
  reordered = place 0 ids (owned u t) ++ renumber (length ids) left

  numbered-reordered : numbered (owned u t) left 0 ids ≡ reordered
  numbered-reordered = rw (zero-add (length ids))

  All-owned-reordered : All (λ r. (r.user_id == u) ≡ true) reordered
  All-owned-reordered =
      All-append _ _ _ (All-owned-place (owned u t) u 0 ids (owned-All u t))
        (All-owned-renumber u (length ids) left (remaining-owned u ids t))

  ordered-reordered : ordered u (others u t ++ reordered) ≡ reordered
  unfolding ordered
  ordered-reordered =
      ap (sort_by before) (owned-beside u t reordered All-owned-reordered)
      ∙ sort_by-sorted before reordered
          (subst (IsSorted before) numbered-reordered (numbered-IsSorted (owned u t) left 0 ids))

  module _ (known : unknown_ids ids (owned u t) ≡ []) where
    reordered-ok : reorder_queue u ids t ≡ ok (others u t ++ reordered)
    unfolding reorder_queue
    reordered-ok = rw (known, reorder_queue)

    reordered-episodes : episodes reordered ≡ last_mentions ids ++ episodes left
    reordered-episodes =
        map-append (λ r. r.episode_id) (place 0 ids (owned u t)) _
        ∙ ap₂ ◌++◌ (place-episodes (owned u t) 0 ids known) (renumber-episodes (length ids) left)

    -- If every id is queued, the queue plays them in the order of their last mention, and then the
    -- rest by its old position.
    pub reorder_queue-ok :
        (t' : Table) × (reorder_queue u ids t ≡ ok t')
        × (episodes (ordered u t') ≡ last_mentions ids ++ episodes left)
    reorder_queue-ok =
        (others u t ++ reordered, reordered-ok, ap episodes ordered-reordered ∙ reordered-episodes)

    -- If moreover no id is named twice, the queue is numbered without a gap.
    pub reorder_queue-IsDense :
        IsDistinct ids → (t' : Table) × (reorder_queue u ids t ≡ ok t') × IsDense u t'
    reorder_queue-IsDense d = (
      others u t ++ reordered,
      reordered-ok,
      subst (IsDenseFrom 0) (sym ordered-reordered) (
          subst (IsDenseFrom 0) numbered-reordered
            (numbered-IsDenseFrom (owned u t) left 0 ids d known)),
    )

    contains-left :
        (e : ℕ)
        → contains e (episodes left) ≡ (not (contains e ids) && contains e (episodes (ordered u t)))
    unfolding remaining ordered
    contains-left e =
        contains-episodes e left
        ∙ any-sort_by by_position _ _
        ∙ any-left_out e ids (owned u t)
        ∙ ap (λ b. not (contains e ids) && b)
            (sym (contains-episodes e (ordered u t) ∙ any-sort_by before _ _))

    known_episode : (e : ℕ) → contains e ids ≡ true → contains e (episodes (ordered u t)) ≡ true
    unfolding ordered
    known_episode e c =
        contains-episodes e (ordered u t)
        ∙ any-sort_by before _ _
        ∙ known_id e ids (owned u t) known c

    covered :
        (e : ℕ)
        → (contains e (last_mentions ids) || contains e (episodes left))
          ≡ contains e (episodes (ordered u t))
    covered e =
        rw (contains-last_mentions e ids, contains-left e)
          (elim (Bool-cases (contains e ids)) [ inl c ↦ rw (c, known_episode e c) | inr c ↦ rw c ])

    -- A partial list drops nothing from the queue, and no list adds to it.
    pub reorder_queue-contains :
        (e : ℕ)
        → (t' : Table) × (reorder_queue u ids t ≡ ok t')
          × (contains e (episodes (ordered u t')) ≡ contains e (episodes (ordered u t)))
    reorder_queue-contains e = (
      others u t ++ reordered,
      reordered-ok,
      ap (λ q. contains e (episodes q)) ordered-reordered
          ∙ ap (contains e) reordered-episodes
          ∙ contains-append e (last_mentions ids) (episodes left)
          ∙ covered e,
    )

  -- If one is not, the request is refused with the ids that are not, and nothing moves.
  pub reorder_queue-err :
      unknown_ids ids (owned u t) ≢ []
      → reorder_queue u ids t ≡ err (unprocessable (unknown_ids ids (owned u t)))
  unfolding reorder_queue
  reorder_queue-err h = elim (List-cases (unknown_ids ids (owned u t))) [
    | inl e ↦ absurd (h e)
    | inr (x, r, e) ↦ rw (e, reorder_queue)
  ]
