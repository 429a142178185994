-- ===== src/Queue/Refine.antt =====
-- What a queue promises: a list of episodes, without positions and rows. The detailed operations
-- implement it.
use podarium.Prelude.{
  ℕ, ◌≡◌, refl, arith, sym, ap, ◌∙◌, true, false, not, Option, List, [], ◌∷◌, ◌++◌, ◌==◌,
  if◌then◌else◌, or_else, is_some, filter, any, all, contains, take, drop, length, All, any-sort_by,
  Bool-cases, List-cases, Option-cases, subst, inl, inr,
}
use podarium.Model.Enums.{Stamp}
use podarium.Queue.{
  Table, ok, err, Result, owned, before, ordered, add_item, find_item, drop_from_queue, unknown_ids,
  reorder_queue, remove_from_queue,
}
use podarium.Queue.Order.{episodes, IsDense}
use podarium.Queue.Once.{IsOnce, put-IsOnce, filter-IsOnce, arrange-IsOnce}
use podarium.Queue.Remove.{remove_from_queue_missing, remove_from_queue_found}
use podarium.Queue.Left.{remaining-dense}
use podarium.Queue.Insert.{add_item_lem, add_item-IsDense}
use podarium.Queue.Drop.{stays, drop_from_queue_lem, drop_from_queue-IsDense}
use podarium.Queue.Reorder.{
  last_mentions, IsDistinct, reorder_queue-ok, reorder_queue-IsDense, reorder_queue-err,
}

-- What a user, or the end of an episode, asks of the queue.
pub data Command : Type 0 where
  -- An episode, the position that is asked for, and what the database assigns to its row.
  put : ℕ → Option ℕ → ℕ → Stamp → Command
  discard : List ℕ → Command
  remove : ℕ → Command
  arrange : List ℕ → Command

-- No id is named twice in a new order.
abbrev pub IsTidy : Command → Type 0
IsTidy (put e position id now) = Unit
IsTidy (discard ids) = Unit
IsTidy (remove e) = Unit
IsTidy (arrange ids) = IsDistinct ids

-- A refused command changes nothing.
abbrev pub arranged : Table → Result Table → Table
arranged t (ok t') = t'
arranged t (err e) = t

abbrev pub perform : ℕ → Command → Table → Table
perform u (put e position id now) t = add_item u e position id now t
perform u (discard ids) t = (drop_from_queue u ids t).0
perform u (remove e) t = arranged t (remove_from_queue u e t)
perform u (arrange ids) t = arranged t (reorder_queue u ids t)

-- The same on a list of episodes.
abbrev pub promise : Command → List ℕ → List ℕ
promise (put e position id now) es =
    let p = or_else position (length es) in if contains e es then es else take p es ++ e ∷ drop p es
promise (discard ids) es = filter (λ e. not (contains e ids)) es
promise (remove e) es = filter (λ x. not (x == e)) es
promise (arrange ids) es =
    if all (λ e. contains e es) ids
    then last_mentions ids ++ filter (λ e. not (contains e ids)) es
    else es

abbrev pub perform_all : ℕ → List Command → Table → Table
perform_all u [] t = t
perform_all u (c ∷ cs) t = perform_all u cs (perform u c t)

abbrev pub promise_all : List Command → List ℕ → List ℕ
promise_all [] es = es
promise_all (c ∷ cs) es = promise_all cs (promise c es)

contains-episodes : (e : ℕ) (q : Table) → contains e (episodes q) ≡ any (λ r. r.episode_id == e) q
contains-episodes e [] = refl
contains-episodes e (r ∷ q) = ground (arith, contains-episodes e q)

contains-ordered :
    (u e : ℕ) (t : Table)
    → contains e (episodes (ordered u t)) ≡ any (λ r. r.episode_id == e) (owned u t)
unfolding ordered
contains-ordered u e t =
    contains-episodes e _ ∙ any-sort_by before (λ r. r.episode_id == e) (owned u t)

find_item-is_some :
    (u e : ℕ) (t : Table) → is_some (find_item u e t) ≡ any (λ r. r.episode_id == e) (owned u t)
unfolding find_item owned
find_item-is_some u e [] = refl
find_item-is_some u e (r ∷ t) = ground (arith, find_item-is_some u e t)

episodes-stays :
    (ids : List ℕ) (q : Table)
    → episodes (filter (stays ids) q) ≡ filter (λ e. not (contains e ids)) (episodes q)
episodes-stays ids [] = refl
episodes-stays ids (r ∷ q) = ground (arith, episodes-stays ids q)

all_known :
    (u : ℕ) (t : Table) (ids : List ℕ)
    → unknown_ids ids (owned u t) ≡ []
    → all (λ e. contains e (episodes (ordered u t))) ids ≡ true
unfolding unknown_ids
all_known u t [] h = refl
all_known u t (e ∷ es) h = ground (arith, contains-ordered u e t, all_known u t es)

not_all_known :
    (u : ℕ) (t : Table) (ids : List ℕ) {x : ℕ} {xs : List ℕ}
    → unknown_ids ids (owned u t) ≡ x ∷ xs
    → all (λ e. contains e (episodes (ordered u t))) ids ≡ false
unfolding unknown_ids
not_all_known u t [] {x} {xs} h = absurd (ground arith)
not_all_known u t (e ∷ es) {x} {xs} h =
    elim (Bool-cases (any (λ r. r.episode_id == e) (owned u t))) [
      | inl k ↦
          rw (contains-ordered u e t, k) (not_all_known u t es {x = x} {xs = xs} (ground arith))
      | inr k ↦ rw (contains-ordered u e t, k) refl
    ]

abbrev Keeps : ℕ → Command → Table → Table → Type 0
Keeps u c t t' = IsDense u t' × (episodes (ordered u t') ≡ promise c (episodes (ordered u t)))

arrange-Keeps :
    (u : ℕ) (ids : List ℕ) (t : Table)
    → IsDense u t
    → IsDistinct ids
    → Keeps u (arrange ids) t (perform u (arrange ids) t)
arrange-Keeps u ids t d distinct = elim (List-cases (unknown_ids ids (owned u t))) [
  | inl known ↦
      let (t', done, dense) = reorder_queue-IsDense u ids t known distinct in
      let (t2, done2, plays) = reorder_queue-ok u ids t known in
      let same : t2 ≡ t' = ap (arranged t) (sym done2 ∙ done) in
      rw (done, all_known u t ids known)
        (
          dense,
          ap (λ x. episodes (ordered u x)) (sym same)
              ∙ plays
              ∙ ap (λ q. last_mentions ids ++ q)
                  (ap episodes (remaining-dense u ids t d) ∙ episodes-stays ids (ordered u t)),
        )
  | inr (x, xs, unknown) ↦
      rw (reorder_queue-err u ids t (λ e. ground arith), not_all_known u t ids unknown) (d, refl)
]

filter_others :
    (e : ℕ) (es : List ℕ)
    → filter (λ x. not (contains x (e ∷ []))) es ≡ filter (λ x. not (x == e)) es
filter_others e [] = refl
filter_others e (x ∷ es) = ground (arith, filter_others e es)

discard-Keeps :
    (u : ℕ) (ids : List ℕ) (t : Table)
    → IsDense u t
    → Keeps u (discard ids) t (perform u (discard ids) t)
discard-Keeps u ids t d = (
  drop_from_queue-IsDense u ids t d,
  (drop_from_queue_lem u ids t).0 ∙ episodes-stays ids (ordered u t),
)

-- Where no episode is queued twice, a removal is the dropping of its episode.
remove-discard :
    (u e : ℕ) (t : Table)
    → IsOnce (episodes (ordered u t))
    → perform u (remove e) t ≡ perform u (discard (e ∷ [])) t
remove-discard u e t once = elim (Option-cases (find_item u e t)) [
  | inl h ↦
      let (refused, same) = remove_from_queue_missing u e t h in ap (arranged t) refused ∙ sym same
  | inr (r, h) ↦ ap (arranged t) (remove_from_queue_found u e t once h)
]

remove-Keeps :
    (u e : ℕ) (t : Table)
    → IsDense u t
    → IsOnce (episodes (ordered u t))
    → Keeps u (remove e) t (perform u (remove e) t)
remove-Keeps u e t d once =
    let (dense, plays) = discard-Keeps u (e ∷ []) t d in
    let same = remove-discard u e t once in
    (
      subst (IsDense u) (sym same) dense,
      ap (λ x. episodes (ordered u x)) same ∙ plays ∙ filter_others e (episodes (ordered u t)),
    )

-- No command queues an episode twice.
promise-IsOnce : (c : Command) (es : List ℕ) → IsTidy c → IsOnce es → IsOnce (promise c es)
promise-IsOnce (put e position id now) es h once = elim (Bool-cases (contains e es)) [
  | inl there ↦ rw there once
  | inr absent ↦ rw absent (put-IsOnce e (or_else position (length es)) es absent once)
]
promise-IsOnce (discard ids) es h once = filter-IsOnce (λ e. not (contains e ids)) es once
promise-IsOnce (remove e) es h once = filter-IsOnce (λ x. not (x == e)) es once
promise-IsOnce (arrange ids) es h once = elim (Bool-cases (all (λ e. contains e es) ids)) [
  | inl known ↦ rw known (arrange-IsOnce ids es h once)
  | inr unknown ↦ rw unknown once
]

perform-Keeps :
    (u : ℕ) (c : Command) (t : Table)
    → IsDense u t
    → IsOnce (episodes (ordered u t))
    → IsTidy c
    → Keeps u c t (perform u c t)
perform-Keeps u (put e position id now) t d once h = (
  add_item-IsDense u e id now t d position,
  add_item_lem u e id now t d position
      ∙ rw (contains-ordered u e t, sym (find_item-is_some u e t)) refl,
)
perform-Keeps u (discard ids) t d once h = discard-Keeps u ids t d
perform-Keeps u (remove e) t d once h = remove-Keeps u e t d once
perform-Keeps u (arrange ids) t d once h = arrange-Keeps u ids t d h

-- Whatever a user adds to, removes from or reorders in a queue that is numbered without gaps and that
-- has no episode twice, and whatever episodes are dropped from it, refused requests included: it stays
-- so, and it plays what the same commands make of the list of its episodes, as long as no new order
-- names an id twice.
pub perform_all-promise_all :
    (u : ℕ) (cs : List Command) (t : Table)
    → IsDense u t
    → IsOnce (episodes (ordered u t))
    → All IsTidy cs
    → IsDense u (perform_all u cs t)
      × (episodes (ordered u (perform_all u cs t)) ≡ promise_all cs (episodes (ordered u t)))
      × IsOnce (episodes (ordered u (perform_all u cs t)))
perform_all-promise_all u [] t d once h = (d, refl, once)
perform_all-promise_all u (c ∷ cs) t d once h =
    let (dense, plays) = perform-Keeps u c t d once h.0 in
    let once' = subst IsOnce (sym plays) (promise-IsOnce c (episodes (ordered u t)) h.0 once) in
    let (dense_all, plays_all, once_all) =
      perform_all-promise_all u cs (perform u c t) dense once' h.1 in
    (dense_all, plays_all ∙ ap (promise_all cs) plays, once_all)
