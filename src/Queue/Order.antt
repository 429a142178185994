-- ===== src/Queue/Order.antt =====
-- What compacting and dropping do to the playing order.
use podarium.Prelude.{
  ℕ, suc, ◌≤◌, ◌≡◌, ◌≢◌, refl, sym, ap, ◌∙◌, Bool, true, false, List, [], ◌∷◌, ◌++◌, map, arith,
  ◌==◌, filter, All, sort_by, IsSorted, filter-append, filter_keeps, filter_drops, All-filter,
  All-sort_by, sort_by-sorted, filter-sort_by, append-nil,
}
use podarium.Model.Episode.{QueueItem}
use podarium.Queue.{Table, owned, others, before, ordered, renumber, compact_queue_positions}

-- The positions are i, i + 1, i + 2, ….
abbrev pub IsDenseFrom : ℕ → Table → Type 0
IsDenseFrom i [] = Unit
IsDenseFrom i (r ∷ rs) = (r.position ≡ i) × IsDenseFrom (suc i) rs

-- The user's queue is numbered 0, 1, 2, … in playing order.
abbrev pub IsDense : ℕ → Table → Type 0
IsDense u t = IsDenseFrom 0 (ordered u t)

pub renumber-IsDenseFrom : (i : ℕ) (q : Table) → IsDenseFrom i (renumber i q)
unfolding renumber
renumber-IsDenseFrom i [] = tt
renumber-IsDenseFrom i (r ∷ rs) = (refl, renumber-IsDenseFrom (suc i) rs)

pub IsDenseFrom-All-le :
    (i j : ℕ) (q : Table) → i ≤ j → IsDenseFrom j q → All (λ r. i ≤ r.position) q
IsDenseFrom-All-le i j [] h d = tt
IsDenseFrom-All-le i j (r ∷ rs) h d =
    (omega arith, IsDenseFrom-All-le i (suc j) rs (omega arith) d.1)

pub All-before :
    (r : QueueItem) (q : Table)
    → All (λ x. suc r.position ≤ x.position) q
    → All (λ x. before r x ≡ true) q
unfolding before
All-before r [] h = tt
All-before r (x ∷ q) h = (ground arith, All-before r q h.1)

pub IsDenseFrom-IsSorted : (i : ℕ) (q : Table) → IsDenseFrom i q → IsSorted before q
IsDenseFrom-IsSorted i [] d = tt
IsDenseFrom-IsSorted i (r ∷ rs) d = (
  All-before r rs (IsDenseFrom-All-le (suc r.position) (suc i) rs (omega arith) d.1),
  IsDenseFrom-IsSorted (suc i) rs d.1,
)

-- Renumbering keeps what the queue plays.
pub renumber-episodes :
    (i : ℕ) (q : Table) → map (λ r. r.episode_id) (renumber i q) ≡ map (λ r. r.episode_id) q
unfolding renumber
renumber-episodes i [] = refl
renumber-episodes i (r ∷ rs) = ap (◌∷◌ r.episode_id) (renumber-episodes (suc i) rs)

-- A queue that is dense already is left alone.
pub renumber_dense : (i : ℕ) (q : Table) → IsDenseFrom i q → renumber i q ≡ q
unfolding renumber
renumber_dense i [] d = refl
renumber_dense i (r ∷ rs) d = rw (renumber_dense (suc i) rs d.1) (rw (← d.0))

pub All-owned-renumber :
    (u i : ℕ) (q : Table)
    → All (λ r. (r.user_id == u) ≡ true) q
    → All (λ r. (r.user_id == u) ≡ true) (renumber i q)
unfolding renumber
All-owned-renumber u i [] h = tt
All-owned-renumber u i (r ∷ rs) h = (h.0, All-owned-renumber u (suc i) rs h.1)

owned-others : (u : ℕ) (t : Table) → owned u (others u t) ≡ []
unfolding owned others
owned-others u [] = refl
owned-others u (r ∷ t) = ground (arith, owned-others u t)

owned_other-others : (u v : ℕ) (t : Table) → v ≢ u → owned v (others u t) ≡ owned v t
unfolding owned others
owned_other-others u v [] h = refl
owned_other-others u v (r ∷ t) h = ground (arith, owned_other-others u v t h)

pub All-owned : (u : ℕ) (t : Table) → All (λ r. (r.user_id == u) ≡ true) (ordered u t)
unfolding ordered owned
All-owned u t = All-sort_by before (λ r. (r.user_id == u) ≡ true) _ (All-filter _ t)

not_owned :
    (u v : ℕ) (q : Table)
    → v ≢ u
    → All (λ r. (r.user_id == u) ≡ true) q
    → All (λ r. (r.user_id == v) ≡ false) q
not_owned u v [] h a = tt
not_owned u v (r ∷ q) h a = (ground arith, not_owned u v q h a.1)

-- Rows of one user beside the rows of the others: the user's own come back, and only they change.
pub owned-beside :
    (u : ℕ) (t q : Table) → All (λ r. (r.user_id == u) ≡ true) q → owned u (others u t ++ q) ≡ q
unfolding owned
owned-beside u t q a =
    filter-append (λ r. r.user_id == u) (others u t) q ∙ rw (filter_keeps _ q a, owned-others u t)

pub owned_other-beside :
    (u v : ℕ) (t q : Table)
    → v ≢ u
    → All (λ r. (r.user_id == u) ≡ true) q
    → owned v (others u t ++ q) ≡ owned v t
unfolding owned
owned_other-beside u v t q h a =
    filter-append (λ r. r.user_id == v) (others u t) q
    ∙ rw (filter_drops _ q (not_owned u v q h a), append-nil) (owned_other-others u v t h)

pub before_total : (x y : QueueItem) → before x y ≡ false → before y x ≡ true
unfolding before
before_total x y h = ground arith

pub before_trans : (x y z : QueueItem) → before x y ≡ true → before y z ≡ true → before x z ≡ true
unfolding before
before_trans x y z p q = ground arith

-- Compacting numbers the user's queue 0, 1, 2, … in the order it had.
pub ordered-compact_queue_positions :
    (u : ℕ) (t : Table) → ordered u (compact_queue_positions u t) ≡ renumber 0 (ordered u t)
unfolding ordered compact_queue_positions
ordered-compact_queue_positions u t =
    let q = renumber 0 (ordered u t) in
    ap (sort_by before) (owned-beside u t q (All-owned-renumber u 0 _ (All-owned u t)))
    ∙ sort_by-sorted before q (IsDenseFrom-IsSorted 0 q (renumber-IsDenseFrom 0 _))

-- Compacting one user's queue leaves the others' alone.
pub ordered_other-compact_queue_positions :
    (u v : ℕ) (t : Table) → v ≢ u → ordered v (compact_queue_positions u t) ≡ ordered v t
unfolding ordered compact_queue_positions
ordered_other-compact_queue_positions u v t h =
    ap (sort_by before) (owned_other-beside u v t _ h (All-owned-renumber u 0 _ (All-owned u t)))

-- Compaction numbers a queue without gaps from zero.
pub compact_queue_positions-IsDense : (u : ℕ) (t : Table) → IsDense u (compact_queue_positions u t)
compact_queue_positions-IsDense u t =
    rw (ordered-compact_queue_positions u t) (renumber-IsDenseFrom 0 (ordered u t))

abbrev pub episodes : Table → List ℕ
episodes = map (λ r. r.episode_id)

owned-filter :
    (u : ℕ) (p : QueueItem → Bool) (t : Table) → owned u (filter p t) ≡ filter p (owned u t)
unfolding owned
owned-filter u p [] = refl
owned-filter u p (r ∷ t) = ground (arith, owned-filter u p t)

-- Taking rows out keeps the order of the rest.
pub ordered-filter :
    (u : ℕ) (p : QueueItem → Bool) (t : Table) → ordered u (filter p t) ≡ filter p (ordered u t)
unfolding ordered
ordered-filter u p t =
    ap (sort_by before) (owned-filter u p t)
    ∙ sym (filter-sort_by before before_total before_trans p (owned u t))
