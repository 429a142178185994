-- ===== src/Badge/Clear.antt =====
-- Opening the inbox clears the counts, and other clients hear of it.
use podarium.Prelude.{
  ℕ, ◌+◌, ◌≤◌, ◌<◌, ◌≡◌, ◌≢◌, refl, arith, sym, subst, true, ◌&&◌, Option, none, some, List, [],
  ◌∷◌, ◌==◌, ==_refl, filter, any, map, contains, All, Bool-cases, inl, inr,
}
use podarium.Model.Enums.{Stamp}
use podarium.Model.Episode.{Episode, EpisodeState}
use podarium.Model.Feed.{Feed, FeedState}
use podarium.Badge.{
  feed_state, seen_at, new_count, counts_of, mark_seen, mark_each, mark_all_feeds_seen,
}
use podarium.Sync.{is_in_delta, feed_changed_at}

-- The row of a feed that has been seen.
abbrev pub IsMarked : Stamp → Option FeedState → Type 0
IsMarked now none = ⊥
IsMarked now (some s) = (s.last_seen_at ≡ now) × (s.updated_at ≡ now)

feed_state-mark_seen :
    (u : ℕ) (now : Stamp) (id : ℕ) (marks : List FeedState)
    → IsMarked now (feed_state u id (mark_seen u now id marks))
unfolding feed_state mark_seen
feed_state-mark_seen u now id [] = rw (==_refl u, ==_refl id) (refl, refl)
feed_state-mark_seen u now id (s ∷ ss) = elim (Bool-cases (s.user_id == u && s.feed_id == id)) [
  | inl e ↦ rw (e, e) (refl, refl)
  | inr e ↦ rw (e, e) (feed_state-mark_seen u now id ss)
]

feed_state_other-mark_seen :
    (u : ℕ) (now : Stamp) (id other : ℕ) (marks : List FeedState)
    → other ≢ id
    → feed_state u other (mark_seen u now id marks) ≡ feed_state u other marks
unfolding feed_state mark_seen
feed_state_other-mark_seen u now id other [] h = ground arith
feed_state_other-mark_seen u now id other (s ∷ ss) h =
    ground (arith, feed_state_other-mark_seen u now id other ss h)

mark_each-kept :
    (u : ℕ) (now : Stamp) (id : ℕ) (ids : List ℕ) (marks : List FeedState)
    → IsMarked now (feed_state u id marks)
    → IsMarked now (feed_state u id (mark_each u now ids marks))
mark_each-kept u now id [] marks h = h
mark_each-kept u now id (x ∷ ids) marks h = elim (Bool-cases (id == x)) [
  | inl e ↦ mark_each-kept u now id ids (mark_seen u now x marks) (
      subst (λ y. IsMarked now (feed_state u id (mark_seen u now y marks))) {x = id} {y = x}
        (ground arith) (feed_state-mark_seen u now id marks))
  | inr e ↦
      mark_each-kept u now id ids (mark_seen u now x marks)
        (subst (IsMarked now) (sym (feed_state_other-mark_seen u now x id marks (ground arith))) h)
]

mark_each-IsMarked :
    (u : ℕ) (now : Stamp) (id : ℕ) (ids : List ℕ) (marks : List FeedState)
    → contains id ids ≡ true
    → IsMarked now (feed_state u id (mark_each u now ids marks))
mark_each-IsMarked u now id [] marks h = absurd (ground arith)
mark_each-IsMarked u now id (x ∷ ids) marks h = elim (Bool-cases (id == x)) [
  | inl e ↦ mark_each-kept u now id ids (mark_seen u now x marks) (
      subst (λ y. IsMarked now (feed_state u id (mark_seen u now y marks))) {x = id} {y = x}
        (ground arith) (feed_state-mark_seen u now id marks))
  | inr e ↦ mark_each-IsMarked u now id ids (mark_seen u now x marks) (ground arith)
]

contains-active :
    (id : ℕ) (feeds : List Feed)
    → any (λ g. g.id == id && g.active) feeds ≡ true
    → contains id (map (λ g. g.id) (filter (λ g. g.active) feeds)) ≡ true
contains-active id [] h = h
contains-active id (g ∷ feeds) h = ground (arith, contains-active id feeds)

new_count_seen :
    (u : ℕ) (states : List EpisodeState) (now : Stamp) (rows : List Episode)
    → All (λ e. e.first_seen_at ≤ now) rows
    → new_count u states now rows ≡ 0
unfolding new_count
new_count_seen u states now [] h = refl
new_count_seen u states now (e ∷ rows) h = ground (arith, h.0, new_count_seen u states now rows h.1)

counts_of-IsMarked :
    (u : ℕ) (now : Stamp) (states : List EpisodeState) (f : Feed) (rows : List Episode)
    (o : Option FeedState)
    → IsMarked now o
    → All (λ e. e.first_seen_at ≤ now) rows
    → new_count u states (seen_at f o) rows ≡ 0
unfolding seen_at
counts_of-IsMarked u now states f rows none m h = absurd m
counts_of-IsMarked u now states f rows (some s) m h = rw (m.0) (new_count_seen u states now rows h)

in_delta-IsMarked :
    (overlap now since : Stamp) (f : Feed) (o : Option FeedState)
    → IsMarked now o
    → since < now + overlap
    → is_in_delta overlap (some since) (feed_changed_at (f, o)) ≡ true
unfolding is_in_delta feed_changed_at
in_delta-IsMarked overlap now since f none m h = absurd m
in_delta-IsMarked overlap now since f (some s) m h = ground (arith, m.1)

-- When the inbox is opened, every active show has nothing new for that user afterwards, unless
-- something is first seen later, and is in the next delta of the clients of the user.
pub mark_all_feeds_seen_clears :
    (u : ℕ) (now overlap since : Stamp) (feeds : List Feed) (marks : List FeedState)
    (states : List EpisodeState) (f : Feed) (rows : List Episode)
    → any (λ g. g.id == f.id && g.active) feeds ≡ true
    → All (λ e. e.first_seen_at ≤ now) rows
    → since < now + overlap
    → let marks' = (mark_all_feeds_seen u now feeds marks).1 in
      ((counts_of u marks' states f rows).new ≡ 0)
      × (is_in_delta overlap (some since) (feed_changed_at (f, feed_state u f.id marks')) ≡ true)
unfolding mark_all_feeds_seen counts_of
mark_all_feeds_seen_clears u now overlap since feeds marks states f rows active seen before =
    let ids = map (λ g. g.id) (filter (λ g. g.active) feeds) in
    let marked = mark_each-IsMarked u now f.id ids marks (contains-active f.id feeds active) in
    (
      counts_of-IsMarked u now states f rows (feed_state u f.id (mark_each u now ids marks)) marked
          seen,
      in_delta-IsMarked overlap now since f (feed_state u f.id (mark_each u now ids marks)) marked
          before,
    )
