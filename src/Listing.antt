-- ===== src/Listing.antt =====
-- The listing of episodes: `list_episodes` of src/podarium/api/episode_routes.py, on the rows that
-- its joins give for one user. What PostgreSQL finds for a text is a parameter; the shapes of the
-- answer are left out.
pub mod Next
mod Tests
use podarium.Prelude.{
  ℕ, suc, ◌+◌, min, String, Bool, true, false, ◌&&◌, ◌||◌, not, Option, none, some, List, [], ◌∷◌,
  map, ltb, leb, ◌==◌, if◌then◌else◌, or_else, is_some, is_none, filter, length, take, sort_by,
}
use podarium.Model.Enums.{Stamp}
use podarium.Model.Episode.{Episode, EpisodeState}
use podarium.Model.Feed.{Feed}
use podarium.Keyset.{last_of}

-- An episode with its feed and the state that the user has for it.
pub record Listed : Type 0 where
  pub episode : Episode
  pub feed : Feed
  pub state : Option EpisodeState

-- The parameters of the request; `matches` is the search for its text, if it has one.
pub record Query : Type 0 where
  pub feed_id : Option ℕ
  pub unplayed : Option Bool
  pub downloaded : Option Bool
  pub starred : Option Bool
  pub in_progress : Option Bool
  pub matches : Option (Listed → Bool)
  pub notes : Bool
  pub since : Option Stamp

abbrev pub is_yes : Option Bool → Bool
is_yes none = false
is_yes (some b) = b

abbrev pub is_no : Option Bool → Bool
is_no none = false
is_no (some b) = not b

abbrev pub in_progress_min_elapsed : ℕ
in_progress_min_elapsed = 60

abbrev pub in_progress_min_remaining : ℕ
in_progress_min_remaining = 60

-- When it was last listened to; a row without a state is filtered out where this is the key.
unfoldable pub resume_key : Option EpisodeState → Stamp
resume_key none = 0
resume_key (some s) = or_else s.last_played_at s.updated_at

-- When it was published, but not later than it was first seen.
unfoldable pub catalogue_key : Episode → Stamp
catalogue_key e = min (or_else e.published_at e.first_seen_at) e.first_seen_at

unfoldable pub sort_key : Query → Listed → Stamp
unfolding resume_key catalogue_key
sort_key q r = if is_yes q.in_progress then resume_key r.state else catalogue_key r.episode

abbrev pub is_played : Option EpisodeState → Bool
is_played none = false
is_played (some s) = s.played

abbrev pub is_starred : Option EpisodeState → Bool
is_starred none = false
is_starred (some s) = s.starred

-- `duration - position > remaining`, where there is a duration.
abbrev pub is_far : Option ℕ → ℕ → Bool
is_far none position = true
is_far (some duration) position = ltb (position + in_progress_min_remaining) duration

unfoldable pub is_resumable : Episode → Option EpisodeState → Bool
is_resumable e none = false
is_resumable e (some s) =
    not s.played
    && ltb in_progress_min_elapsed s.position_seconds
    && is_far e.duration_seconds s.position_seconds

-- The conditions of the query, without the cursor.
unfoldable pub is_listed : Query → Listed → Bool
unfolding is_resumable
is_listed q r =
    (elim q.feed_id [ none ↦ true | some id ↦ r.episode.feed_id == id ])
    && (is_some q.feed_id || is_yes q.starred || r.feed.active)
    && (elim q.unplayed [
      | none ↦ true
      | some true ↦ not (is_played r.state)
      | some false ↦ is_played r.state
    ])
    && (elim q.downloaded [
      | none ↦ true
      | some true ↦ is_some r.episode.local_path
      | some false ↦ is_none r.episode.local_path
    ])
    && (not (is_yes q.starred) || is_starred r.state)
    && (not (is_yes q.in_progress) || is_resumable r.episode r.state)
    && (elim q.matches [ none ↦ true | some found ↦ found r ])
    && (elim q.since [ none ↦ true | some t ↦ ltb t r.episode.first_seen_at ])

-- `order_by(sort_key.desc(), Episode.id.desc())`
unfoldable pub listed_first : Query → Listed → Listed → Bool
unfolding sort_key
listed_first q a b =
    ltb (sort_key q b) (sort_key q a)
    || sort_key q a == sort_key q b && leb b.episode.id a.episode.id

-- A stamp with the id of a row.
unfoldable pub is_behind : Query → Option (Stamp × ℕ) → Listed → Bool
unfolding sort_key
is_behind q none r = true
is_behind q (some (stamp, id)) r =
    ltb (sort_key q r) stamp || sort_key q r == stamp && ltb r.episode.id id

unfoldable pub listed_rows : Query → Option (Stamp × ℕ) → ℕ → List Listed → List Listed
unfolding is_listed is_behind listed_first
listed_rows q cursor limit rows =
    take (limit + 1)
      (sort_by (listed_first q) (filter (λ r. is_listed q r && is_behind q cursor r) rows))

unfoldable pub without_notes : Listed → Listed
without_notes r = record r { episode = record r.episode { description_html = none } }

pub record EpisodeListOut : Type 0 where
  pub items : List Listed
  pub next_cursor : Option (Stamp × ℕ)

-- The cursor behind the page, by the rows that were found.
unfoldable pub next_listed : Query → ℕ → List Listed → Option (Stamp × ℕ)
unfolding sort_key
next_listed q limit found =
    if ltb limit (length found)
    then elim (last_of (take limit found)) [
      | none ↦ none
      | some r ↦ some (sort_key q r, r.episode.id)
    ]
    else none

unfoldable pub list_episodes : Query → Option (Stamp × ℕ) → ℕ → List Listed → EpisodeListOut
unfolding listed_rows without_notes next_listed
list_episodes q cursor limit rows =
    let found = listed_rows q cursor limit rows in
    let page = take limit found in
    record {
      items = if q.notes then page else map without_notes page;
      next_cursor = next_listed q limit found;
    }
