-- ===== src/Badge.antt =====
-- The counts of what is new, and what clears them: `feed_counts`, `unseen_episode_count`,
-- `mark_inbox_seen`, `mark_feed_seen` and `mark_all_feeds_seen` of src/podarium/services.py.
pub mod Clear
mod Tests
use podarium.Prelude.{
  ℕ, suc, ◌+◌, Bool, true, false, ◌&&◌, ◌||◌, not, Option, none, some, List, [], ◌∷◌, ◌++◌, ltb,
  ◌==◌, if◌then◌else◌, or_else, filter, find, any, map, length, contains,
}
use podarium.Model.Enums.{Stamp}
use podarium.Model.Episode.{Episode, EpisodeState}
use podarium.Model.Feed.{Feed, FeedState}
use podarium.Model.User.{User}

-- `func.coalesce(EpisodeState.played, False)`
unfoldable pub has_played : ℕ → List EpisodeState → Episode → Bool
has_played u states e = any (λ s. s.user_id == u && s.episode_id == e.id && s.played) states

-- The row of the user for a feed, if there is one.
unfoldable pub feed_state : ℕ → ℕ → List FeedState → Option FeedState
feed_state u id = find (λ s. s.user_id == u && s.feed_id == id)

-- `func.coalesce(FeedState.last_seen_at, Feed.created_at)`
unfoldable pub seen_at : Feed → Option FeedState → Stamp
seen_at f none = f.created_at
seen_at f (some s) = s.last_seen_at

-- The episodes of a feed that are new to the user.
unfoldable pub new_count : ℕ → List EpisodeState → Stamp → List Episode → ℕ
unfolding has_played
new_count u states seen rows =
    length (filter (λ e. ltb seen e.first_seen_at && not (has_played u states e)) rows)

pub record Counts : Type 0 where
  pub total : ℕ
  pub unplayed : ℕ
  pub new : ℕ

-- Of one feed whose rows these are.
unfoldable pub counts_of : ℕ → List FeedState → List EpisodeState → Feed → List Episode → Counts
unfolding has_played new_count feed_state seen_at
counts_of u marks states f rows = record {
  total = length rows;
  unplayed = length (filter (λ e. not (has_played u states e)) rows);
  new = new_count u states (seen_at f (feed_state u f.id marks)) rows;
}

-- The groups of the query: feeds without an episode have none.
unfoldable pub feed_counts :
    ℕ → List FeedState → List EpisodeState → List Episode → List Feed → List (ℕ × Counts)
unfolding counts_of
feed_counts u marks states rows [] = []
feed_counts u marks states rows (f ∷ fs) =
    let rest = feed_counts u marks states rows fs in
    elim (filter (λ e. e.feed_id == f.id) rows) [
      | [] ↦ rest
      | e ∷ es ↦ (f.id, counts_of u marks states f (e ∷ es)) ∷ rest
    ]

-- Over the episodes of active feeds.
unfoldable pub unseen_episode_count : User → List EpisodeState → List Feed → List Episode → ℕ
unfolding new_count
unseen_episode_count u states feeds rows =
    new_count u.id states (or_else u.inbox_seen_at u.created_at)
      (filter (λ e. any (λ f. f.id == e.feed_id && f.active) feeds) rows)

unfoldable pub mark_inbox_seen : ℕ → Stamp → List User → List User
mark_inbox_seen u now users =
    map (λ x. if x.id == u then record x { inbox_seen_at = some now } else x) users

-- One row of an upsert.
unfoldable pub mark_seen : ℕ → Stamp → ℕ → List FeedState → List FeedState
mark_seen u now id [] =
    record { user_id = u; feed_id = id; last_seen_at = now; updated_at = now } ∷ []
mark_seen u now id (s ∷ ss) =
    let rest = mark_seen u now id ss in
    if s.user_id == u && s.feed_id == id
    then record s { last_seen_at = now; updated_at = now } ∷ ss
    else s ∷ rest

unfoldable pub mark_feed_seen : ℕ → Stamp → ℕ → List FeedState → List FeedState
unfolding mark_seen
mark_feed_seen u now id marks = mark_seen u now id marks

abbrev pub mark_each : ℕ → Stamp → List ℕ → List FeedState → List FeedState
mark_each u now [] marks = marks
mark_each u now (id ∷ ids) marks = mark_each u now ids (mark_seen u now id marks)

-- How many feeds there were, and the rows afterwards.
unfoldable pub mark_all_feeds_seen : ℕ → Stamp → List Feed → List FeedState → ℕ × List FeedState
unfolding mark_seen
mark_all_feeds_seen u now feeds marks =
    let ids = map (λ f. f.id) (filter (λ f. f.active) feeds) in
    (length ids, mark_each u now ids marks)
