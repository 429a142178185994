-- ===== src/Schedule.antt =====
-- When a feed is fetched and what the attempt leaves: `_feed_jitter_seconds`, `_is_due`,
-- `_apply_result`, `refresh_feed` and the choices of `refresh_due_feeds` of src/podarium/jobs/refresh.py. The fetch is a parameter;
-- artwork, metrics and logging are left out.
pub mod Due
mod Tests
use podarium.Prelude.{
  ℕ, suc, ◌+◌, ◌-◌, ◌*◌, ◌%◌, ◌^◌, min, max, String, Bool, true, false, Option, none, some, List,
  leb, ltb, ◌&&◌, filter, if◌then◌else◌, or_else,
}
use podarium.Model.Enums.{Stamp, seconds}
use podarium.Model.Episode.{Episode, EpisodeState, QueueItem}
use podarium.Model.Feed.{Feed, AppSettings}
use podarium.Model.Job.{DownloadJob}
use podarium.Timeline.{is_set}
use podarium.Disk.{Disk}
use podarium.Refresh.{ParsedFeed, Pass, store_episodes}
use podarium.AutoDownload.{Downloaded, apply_auto_download_window}

abbrev pub max_backoff_doublings : ℕ
max_backoff_doublings = 6

unfoldable pub feed_jitter_seconds : ℕ → ℕ → ℕ
feed_jitter_seconds feed_id interval = feed_id * 2654435761 % max interval 1

-- The seconds from an attempt to the next; the first failure does not count.
unfoldable pub due_after : Feed → ℕ → ℕ
unfolding feed_jitter_seconds
due_after f interval =
    interval * 2 ^ min (f.fetch_error_count - 1) max_backoff_doublings
    + feed_jitter_seconds f.id interval

unfoldable pub is_due_since : ℕ → Stamp → Option Stamp → Bool
is_due_since wait now none = true
is_due_since wait now (some last) = leb (last + seconds wait) now

unfoldable pub is_due : Feed → ℕ → Stamp → Bool
unfolding due_after is_due_since
is_due f interval now = is_due_since (due_after f interval) now f.last_fetched_at

-- `FetchResult`
pub record FetchResult : Type 0 where
  pub not_modified : Bool
  pub etag : Option String
  pub last_modified : Option String
  pub parsed : Option ParsedFeed
  pub final_url : Option String

-- The feed, its episodes, the jobs and the disk.
pub record Store : Type 0 where
  pub feed : Feed
  pub rows : List Episode
  pub jobs : List DownloadJob
  pub disk : Disk

-- The counts of an outcome.
pub record Refreshed : Type 0 where
  pub store : Store
  pub new_episodes : ℕ
  pub updated_episodes : ℕ
  pub not_modified : Bool
  pub error : Option String

-- What an attempt has done that a rollback does not take back: the files that are gone, and the
-- counts of its outcome.
pub record Left : Type 0 where
  pub disk : Disk
  pub new_episodes : ℕ
  pub updated_episodes : ℕ
  pub not_modified : Bool

-- `if value: attr = value`
abbrev pub if_set : Option String → Option String → Option String
if_set v cur = if is_set v then v else cur

-- `if value is not None: attr = value`
abbrev pub if_some {ℓ} : {A : Type ℓ} → Option A → Option A → Option A
if_some none cur = cur
if_some (some v) cur = some v

unfoldable pub fetched_feed : Stamp → FetchResult → Feed → Feed
fetched_feed now r f = record f {
  last_fetched_at = some now;
  fetch_error = none;
  fetch_error_count = 0;
  resolved_url = if_set r.final_url f.resolved_url;
  etag = if r.not_modified then f.etag else if_set r.etag f.etag;
  last_modified =
      if r.not_modified then f.last_modified else if_set r.last_modified f.last_modified;
}

unfoldable pub described_feed : ParsedFeed → Feed → Feed
described_feed p f = record f {
  title = if_some p.title f.title;
  author = if_some p.author f.author;
  description = if_some p.description f.description;
  link = if_some p.link f.link;
  language = if_some p.language f.language;
  image_url = if_some p.image_url f.image_url;
  explicit = p.explicit;
}

unfoldable pub failed_feed : Stamp → String → Feed → Feed
failed_feed now message f = record f {
  fetch_error = some message;
  fetch_error_count = f.fetch_error_count + 1;
  last_fetched_at = some now;
}

module _ (raced later : List DownloadJob → List DownloadJob) (settings : AppSettings)
    (queue : List QueueItem) (states : List EpisodeState) (first_id fresh : ℕ) (now : Stamp) where
  -- The window over what has been stored; `none` is an error of the database or of the disk.
  unfoldable pub apply_window : Store → ℕ → ℕ → Bool → Option Refreshed
  unfolding apply_auto_download_window
  apply_window st new updated unchanged =
      elim (apply_auto_download_window raced later now st.feed settings queue states fresh st.disk
        st.rows st.jobs) [
          | none ↦ none
          | some w ↦ some (record {
            store = record { feed = st.feed; rows = w.rows; jobs = w.jobs; disk = w.disk };
            new_episodes = new;
            updated_episodes = updated;
            not_modified = unchanged;
            error = none;
          })
        ]

  -- A new document, by what was parsed of it.
  unfoldable pub apply_parsed : Store → Option ParsedFeed → Option Refreshed
  unfolding apply_window described_feed store_episodes
  apply_parsed st none = some (record {
    store = st;
    new_episodes = 0;
    updated_episodes = 0;
    not_modified = false;
    error = none;
  })
  apply_parsed st (some p) = elim (store_episodes st.feed.id now p.episodes first_id st.rows) [
    | none ↦ none
    | some m ↦
        apply_window (record st { feed = described_feed p st.feed; rows = m.rows }) m.new_episodes
          m.updated_episodes false
  ]

  unfoldable pub apply_result : Store → FetchResult → Option Refreshed
  unfolding fetched_feed apply_parsed apply_window
  apply_result st r =
      let st' = record st { feed = fetched_feed now r st.feed } in
      if r.not_modified then apply_window st' 0 0 true else apply_parsed st' r.parsed

  -- What is committed where fetching or storing fails.
  unfoldable pub refresh_failed : Store → String → Left → Refreshed
  unfolding failed_feed
  refresh_failed st message left = record {
    store = record st { feed = failed_feed now message st.feed; disk = left.disk };
    new_episodes = left.new_episodes;
    updated_episodes = left.updated_episodes;
    not_modified = left.not_modified;
    error = some message;
  }

  -- `fetched` is what the fetch gives, or `none`, and `message` the text of the error.
  unfoldable pub refresh_feed : Store → Option FetchResult → String → Left → Refreshed
  unfolding apply_result refresh_failed
  refresh_feed st none message left = refresh_failed st message left
  refresh_feed st (some r) message left = elim (apply_result st r) [
    | none ↦ refresh_failed st message left
    | some out ↦ out
  ]

-- The feeds of a pass of `refresh_due_feeds`.
unfoldable pub due_feeds : AppSettings → Stamp → List Feed → List Feed
unfolding is_due
due_feeds s now fs =
    filter (λ f. is_due f (s.refresh_interval_minutes * 60) now) (filter (λ f. f.active) fs)

-- What a refreshed feed adds to the notification of the pass, if anything.
unfoldable pub arrival : Refreshed → Option (String × ℕ)
arrival r =
    if ltb 0 r.new_episodes && r.store.feed.notify
    then some (
      if is_set r.store.feed.title then or_else r.store.feed.title "" else r.store.feed.feed_url,
      r.new_episodes,
    )
    else none
