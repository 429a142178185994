-- ===== src/Badge/Tests.antt =====
-- The inbox of a user with one show that has something new.
use podarium.Prelude.{◌≡◌, refl, arith, true, some, [], ◌∷◌}
use podarium.Model.Episode.{Episode}
use podarium.Samples.{episode, feed}
use podarium.Sync.{is_in_delta, feed_changed_at}
use podarium.Badge.{
  has_played, feed_state, seen_at, new_count, counts_of, feed_counts, mark_seen,
  mark_all_feeds_seen,
}
use podarium.Badge.Clear.{mark_all_feeds_seen_clears}

program : Unit {0}
unfolding has_played feed_state seen_at new_count counts_of feed_counts mark_seen
    mark_all_feeds_seen is_in_delta feed_changed_at
program = tt

abbrev fresh : Episode
fresh = record episode { first_seen_at = 20 }

before_opening : (counts_of 1 [] [] feed (fresh ∷ [])).new ≡ 1
unfolding program
before_opening = refl

mark_all_feeds_seen_clears_example :
    ((counts_of 1 (mark_all_feeds_seen 1 30 (feed ∷ []) []).1 [] feed (fresh ∷ [])).new ≡ 0)
    × (is_in_delta 0
          (some 29)
          (feed_changed_at (feed, feed_state 1 1 (mark_all_feeds_seen 1 30 (feed ∷ []) []).1))
        ≡ true)
mark_all_feeds_seen_clears_example =
    mark_all_feeds_seen_clears 1 30 0 29 (feed ∷ []) [] [] feed (fresh ∷ []) refl (omega arith, tt)
      (omega arith)
