-- ===== src/Sync.antt =====
-- Delta sync: `sync` of src/podarium/api/sync_routes.py, on the rows that its queries read for one
-- user. Bookmarks and the shapes of the answers are left out. A cursor is what
-- src/podarium/cursor.py packs into a text.
pub mod Pages
pub mod Paging
pub mod Whole
mod Tests
use podarium.Prelude.{
  ℕ, zero, suc, ◌+◌, ◌-◌, ◌*◌, max, Bool, true, false, ◌&&◌, ◌||◌, not, Option, none, some, List,
  [], ◌∷◌, ◌++◌, map, ltb, leb, ◌==◌, if◌then◌else◌, filter, length, take, sort_by, or_else,
}
use podarium.Keyset.{last_of}
use podarium.Model.Enums.{Stamp, seconds}
use podarium.Model.Episode.{Episode, EpisodeState, QueueItem}
use podarium.Model.Feed.{Feed, FeedState}
use podarium.Queue.{ordered}

-- An episode with the state that the user has for it.
pub record Change : Type 0 where
  pub episode : Episode
  pub state : Option EpisodeState

pub record Cursor : Type 0 where
  pub stamp : Stamp
  pub id : ℕ
  pub checkpoint : Option Stamp

-- The later of both stamps.
unfoldable pub changed_at : Change → Stamp
changed_at c = elim c.state [
  | none ↦ c.episode.updated_at
  | some s ↦ max c.episode.updated_at s.updated_at
]

-- `order_by(changed_at, Episode.id)`
unfoldable pub change_before : Change → Change → Bool
change_before a b =
    ltb (changed_at a) (changed_at b)
    || changed_at a == changed_at b && leb a.episode.id b.episode.id

-- `since - overlap`, turned round: what is changed after it.
unfoldable pub is_in_delta : Stamp → Option Stamp → Stamp → Bool
is_in_delta overlap none t = true
is_in_delta overlap (some s) t = ltb s (t + overlap)

unfoldable pub is_after_cursor : Option Cursor → Change → Bool
is_after_cursor none c = true
is_after_cursor (some k) c =
    ltb k.stamp (changed_at c) || changed_at c == k.stamp && ltb k.id c.episode.id

-- The rows of a page and one more, if there is one.
unfoldable pub page_rows : Stamp → Option Stamp → Option Cursor → ℕ → List Change → List Change
unfolding change_before is_in_delta is_after_cursor
page_rows overlap since cursor limit changes = take (limit + 1) (
    sort_by change_before
      (filter (λ c. is_in_delta overlap since (changed_at c) && is_after_cursor cursor c) changes))

-- The cursor of the page behind these rows, if there is one.
unfoldable pub next_cursor : ℕ → Stamp → List Change → Option Cursor
next_cursor limit now rows =
    if ltb limit (length rows)
    then elim (last_of (take limit rows)) [
      | none ↦ none
      | some c ↦ some (record { stamp = changed_at c; id = c.episode.id; checkpoint = some now })
    ]
    else none

-- The moment that a page reports: that of the first page of its run.
unfoldable pub reported_now : Stamp → Option Cursor → Stamp
reported_now now none = now
reported_now now (some k) = or_else k.checkpoint now

pub record SyncOut : Type 0 where
  pub now : Stamp
  pub feeds : List Feed
  pub episodes : List Change
  pub queue : List QueueItem
  pub deleted_feed_ids : List ℕ
  pub next : Option Cursor

-- A feed with the state that the user has for it.
unfoldable pub feed_changed_at : Feed × Option FeedState → Stamp
feed_changed_at (f, none) = f.updated_at
feed_changed_at (f, some s) = max f.updated_at s.updated_at

-- What a request reads.
pub record Tables : Type 0 where
  pub changes : List Change
  pub feeds : List (Feed × Option FeedState)
  pub queue : List QueueItem
  pub deleted : List (ℕ × Stamp)

unfoldable pub changed_feeds : Stamp → Option Stamp → List (Feed × Option FeedState) → List Feed
unfolding feed_changed_at is_in_delta
changed_feeds overlap since feeds =
    sort_by (λ f g. leb f.id g.id)
      (map (λ x. x.0) (filter (λ x. is_in_delta overlap since (feed_changed_at x)) feeds))

-- The parts of an answer that only the first page has.
unfoldable pub answer :
    Stamp
    → ℕ
    → Stamp
    → Option Stamp
    → Option Cursor
    → Tables
    → List Change
    → Option Cursor
    → SyncOut
unfolding changed_feeds ordered is_in_delta
answer overlap u now since none t episodes next = record {
  now = now;
  feeds = changed_feeds overlap since t.feeds;
  episodes = episodes;
  queue = ordered u t.queue;
  deleted_feed_ids = map (λ d. d.0) (filter (λ d. is_in_delta overlap since d.1) t.deleted);
  next = next;
}
answer overlap u now since (some k) t episodes next = record {
  now = now;
  feeds = [];
  episodes = episodes;
  queue = [];
  deleted_feed_ids = [];
  next = next;
}

unfoldable pub sync : Stamp → ℕ → Stamp → Option Stamp → Option Cursor → ℕ → Tables → SyncOut
unfolding page_rows next_cursor reported_now answer
sync overlap u db_now since cursor limit t =
    let now = reported_now db_now cursor in
    let rows = page_rows overlap since cursor limit t.changes in
    answer overlap u now since cursor t (take limit rows) (next_cursor limit now rows)
