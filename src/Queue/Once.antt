-- ===== src/Queue/Once.antt =====
-- Lists of episodes that name none of them twice.
use podarium.Prelude.{
  ℕ, zero, suc, ◌+◌, ◌≤◌, ◌≡◌, refl, arith, Bool, true, false, not, List, [], ◌∷◌, ◌++◌, ◌==◌,
  ==_iff, if◌then◌else◌, filter, contains, take, drop, length, Bool-cases, inl, inr, ap,
}
use podarium.Queue.{Table}
use podarium.Queue.Order.{episodes}
use podarium.Queue.Reorder.{last_mentions, IsDistinct}

-- How often a list names an episode.
abbrev pub count : ℕ → List ℕ → ℕ
count e [] = 0
count e (x ∷ es) = let rest = count e es in if x == e then suc rest else rest

-- The constraint on the table, that a user has an episode in the queue once, as its list shows it.
abbrev pub IsOnce : List ℕ → Type 0
IsOnce es = (e : ℕ) → count e es ≤ 1

count-append : (e : ℕ) (xs ys : List ℕ) → count e (xs ++ ys) ≡ count e xs + count e ys
count-append e [] ys = omega arith
count-append e (x ∷ xs) ys = ground (arith, count-append e xs ys)

count-filter : (e : ℕ) (p : ℕ → Bool) (es : List ℕ) → count e (filter p es) ≤ count e es
count-filter e p [] = omega arith
count-filter e p (x ∷ es) = ground (arith, count-filter e p es)

count_absent : (e : ℕ) (es : List ℕ) → contains e es ≡ false → count e es ≡ 0
count_absent e [] h = refl
count_absent e (x ∷ es) h = ground (arith, count_absent e es, ==_iff x e, ==_iff e x)

count-put :
    (e x p : ℕ) (es : List ℕ)
    → count e (take p es ++ x ∷ drop p es) ≡ (if x == e then suc (count e es) else count e es)
count-put e x zero es = refl
count-put e x (suc p) [] = refl
count-put e x (suc p) (y ∷ es) = ground (arith, count-put e x p es)

pub put-IsOnce :
    (x p : ℕ) (es : List ℕ)
    → contains x es ≡ false
    → IsOnce es
    → IsOnce (take p es ++ x ∷ drop p es)
put-IsOnce x p es h once e = elim (Bool-cases (x == e)) [
  | inl same ↦
      ground
        (arith, count-put e x p es, count_absent x es h, ap (λ y. count y es) ((==_iff x e).0 same))
  | inr other ↦ ground (arith, count-put e x p es, once e)
]

pub filter-IsOnce : (p : ℕ → Bool) (es : List ℕ) → IsOnce es → IsOnce (filter p es)
filter-IsOnce p es once e = ground (arith, count-filter e p es, once e)

count-last_mentions :
    (e : ℕ) (ids : List ℕ) → IsDistinct ids → count e (last_mentions ids) ≡ count e ids
count-last_mentions e [] h = refl
count-last_mentions e (x ∷ ids) h = rw (h.0) (ground (arith, count-last_mentions e ids h.1))

count_distinct : (e : ℕ) (ids : List ℕ) → IsDistinct ids → count e ids ≤ 1
count_distinct e [] h = omega arith
count_distinct e (x ∷ ids) h = elim (Bool-cases (x == e)) [
  | inl same ↦ ground (arith, count_absent x ids h.0, ap (λ y. count y ids) ((==_iff x e).0 same))
  | inr other ↦ ground (arith, count_distinct e ids h.1)
]

count-left :
    (e : ℕ) (ids es : List ℕ)
    → contains e ids ≡ true
    → count e (filter (λ x. not (contains x ids)) es) ≡ 0
count-left e ids [] h = refl
count-left e ids (x ∷ es) h = elim (Bool-cases (x == e)) [
  | inl same ↦ ground (arith, count-left e ids es h, ap (λ y. contains y ids) ((==_iff x e).0 same))
  | inr other ↦ ground (arith, count-left e ids es h)
]

pub arrange-IsOnce :
    (ids es : List ℕ)
    → IsDistinct ids
    → IsOnce es
    → IsOnce (last_mentions ids ++ filter (λ x. not (contains x ids)) es)
arrange-IsOnce ids es h once e = elim (Bool-cases (contains e ids)) [
  | inl named ↦ ground (
    arith,
    count-append e (last_mentions ids) (filter (λ x. not (contains x ids)) es),
    count-last_mentions e ids h,
    count_distinct e ids h,
    count-left e ids es named,
  )
  | inr other ↦ ground (
    arith,
    count-append e (last_mentions ids) (filter (λ x. not (contains x ids)) es),
    count-last_mentions e ids h,
    count_absent e ids other,
    count-filter e (λ x. not (contains x ids)) es,
    once e,
  )
]

pub length-filter-episodes :
    (e : ℕ) (q : Table) → length (filter (λ r. r.episode_id == e) q) ≡ count e (episodes q)
length-filter-episodes e [] = refl
length-filter-episodes e (r ∷ q) = ground (arith, length-filter-episodes e q)
