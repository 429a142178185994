-- ===== src/Queue/Left.antt =====
-- What a new order leaves out, where the queue is numbered without gaps.
use podarium.Prelude.{
  ℕ, ◌≡◌, refl, arith, sym, ap, subst, ◌∙◌, Bool, true, not, List, [], ◌∷◌, ◌==◌, if◌then◌else◌,
  filter, All, IsSorted, sort_by, insert_sorted, All-sort_by, All-filter_of, suc, ◌≤◌,
  filter-sort_by, Bool-cases, inl, inr,
}
use podarium.Model.Episode.{QueueItem}
use podarium.Queue.{Table, owned, before, by_position, ordered, remaining}
use podarium.Queue.Order.{IsDense, IsDenseFrom, IsDenseFrom-All-le, before_total, before_trans}
use podarium.Queue.Drop.{stays}

-- Rows that both orders of the code sort in the same way.
abbrev agree : QueueItem → QueueItem → Bool
agree a b = not (a.position == b.position)

All-insert_back :
    (p : QueueItem → Bool) (y : QueueItem) (ys : Table)
    → All (λ z. p z ≡ true) (insert_sorted before y ys)
    → (p y ≡ true) × All (λ z. p z ≡ true) ys
unfolding insert_sorted
All-insert_back p y [] h = (h.0, tt)
All-insert_back p y (z ∷ ys) h = elim (Bool-cases (before y z)) [
  | inl e ↦
      subst
        (λ b.
          All (λ w. p w ≡ true) (if b then y ∷ z ∷ ys else z ∷ insert_sorted before y ys)
          → (p y ≡ true) × All (λ w. p w ≡ true) (z ∷ ys))
        (sym e) (λ k. k) h
  | inr e ↦
      subst
        (λ b.
          All (λ w. p w ≡ true) (if b then y ∷ z ∷ ys else z ∷ insert_sorted before y ys)
          → (p y ≡ true) × All (λ w. p w ≡ true) (z ∷ ys))
        (sym e) (λ k. let r = All-insert_back p y ys k.1 in (r.0, (k.0, r.1))) h
]

All-sort_back :
    (p : QueueItem → Bool) (l : Table)
    → All (λ z. p z ≡ true) (sort_by before l)
    → All (λ z. p z ≡ true) l
unfolding sort_by
All-sort_back p [] h = tt
All-sort_back p (x ∷ l) h =
    let r = All-insert_back p x (sort_by before l) h in (r.0, All-sort_back p l r.1)

insert_back :
    (x : QueueItem) (ys : Table)
    → IsSorted agree (insert_sorted before x ys)
    → All (λ z. agree x z ≡ true) ys × IsSorted agree ys
unfolding insert_sorted
insert_back x [] h = (tt, tt)
insert_back x (y ∷ ys) h = elim (Bool-cases (before x y)) [
  | inl e ↦
      subst
        (λ b.
          IsSorted agree (if b then x ∷ y ∷ ys else y ∷ insert_sorted before x ys)
          → All (λ z. agree x z ≡ true) (y ∷ ys) × IsSorted agree (y ∷ ys))
        (sym e) (λ k. k) h
  | inr e ↦
      subst
        (λ b.
          IsSorted agree (if b then x ∷ y ∷ ys else y ∷ insert_sorted before x ys)
          → All (λ z. agree x z ≡ true) (y ∷ ys) × IsSorted agree (y ∷ ys))
        (sym e)
        (λ k.
          let r = insert_back x ys k.1 in
          let q = All-insert_back (agree y) x ys k.0 in ((ground (arith, q.0), r.0), (q.1, r.1)))
        h
]

sort_back : (l : Table) → IsSorted agree (sort_by before l) → IsSorted agree l
unfolding sort_by
sort_back [] h = tt
sort_back (x ∷ l) h =
    let r = insert_back x (sort_by before l) h in (All-sort_back (agree x) l r.0, sort_back l r.1)

insert_sorted-agree :
    (x : QueueItem) (ys : Table)
    → All (λ z. agree x z ≡ true) ys
    → insert_sorted by_position x ys ≡ insert_sorted before x ys
unfolding insert_sorted by_position before
insert_sorted-agree x [] h = refl
insert_sorted-agree x (y ∷ ys) h = ground (arith, h.0, insert_sorted-agree x ys h.1)

sort_by-agree : (l : Table) → IsSorted agree l → sort_by by_position l ≡ sort_by before l
unfolding sort_by
sort_by-agree [] h = refl
sort_by-agree (x ∷ l) h =
    ap (insert_sorted by_position x) (sort_by-agree l h.1)
    ∙ insert_sorted-agree x (sort_by before l) (All-sort_by before (λ z. agree x z ≡ true) l h.0)

All-agree :
    (x : QueueItem) (q : Table)
    → All (λ r. suc x.position ≤ r.position) q
    → All (λ z. agree x z ≡ true) q
All-agree x [] h = tt
All-agree x (y ∷ q) h = (ground (arith, h.0), All-agree x q h.1)

IsDenseFrom-agree : (i : ℕ) (q : Table) → IsDenseFrom i q → IsSorted agree q
IsDenseFrom-agree i [] d = tt
IsDenseFrom-agree i (r ∷ rs) d = (
  All-agree r rs (IsDenseFrom-All-le (suc r.position) (suc i) rs (omega arith) d.1),
  IsDenseFrom-agree (suc i) rs d.1,
)

IsSorted-agree-filter :
    (p : QueueItem → Bool) (l : Table) → IsSorted agree l → IsSorted agree (filter p l)
IsSorted-agree-filter p [] h = tt
IsSorted-agree-filter p (x ∷ l) h = elim (Bool-cases (p x)) [
  | inl e ↦ rw e (All-filter_of (λ z. agree x z ≡ true) p l h.0, IsSorted-agree-filter p l h.1)
  | inr e ↦ rw e (IsSorted-agree-filter p l h.1)
]

-- What a new order leaves out stays in the order of the queue.
pub remaining-dense :
    (u : ℕ) (ids : List ℕ) (t : Table)
    → IsDense u t
    → remaining ids (owned u t) ≡ filter (stays ids) (ordered u t)
unfolding remaining ordered
remaining-dense u ids t d =
    sort_by-agree (filter (stays ids) (owned u t)) (
      IsSorted-agree-filter (stays ids) (owned u t)
        (sort_back (owned u t) (IsDenseFrom-agree 0 (sort_by before (owned u t)) d)))
    ∙ sym (filter-sort_by before before_total before_trans (stays ids) (owned u t))
