-- ===== src/AutoDownload.antt =====
-- The window of automatic downloads: `_window_episode_ids`, `_protected_episode_ids` and
-- `apply_auto_download_window` of src/podarium/jobs/refresh.py. The rows are those of one feed;
-- logging is left out.
pub mod Trim
pub mod Target
pub mod Protect
mod Tests
use podarium.Prelude.{
  ℕ, suc, ◌+◌, Bool, true, false, ◌&&◌, ◌||◌, not, Option, none, some, List, [], ◌∷◌, ◌++◌, map,
  ltb, leb, ◌==◌, if◌then◌else◌, is_some, is_none, contains, filter, sort_by, take,
}
use podarium.Model.Enums.{Stamp, JobSource, auto, is_auto, is_never}
use podarium.Model.Episode.{Episode, EpisodeState, QueueItem}
use podarium.Model.Feed.{Feed, AppSettings}
use podarium.Model.Job.{DownloadJob}
use podarium.Settings.{effective_auto_download_count, effective_retention}
use podarium.Disk.{Disk, purge_episode}
use podarium.Downloads.{enqueue_download}
use podarium.Retention.{protected_episode_ids}

-- `published_at DESC NULLS LAST`
abbrev pub published_key : Episode → ℕ
published_key e = elim e.published_at [ none ↦ 0 | some t ↦ suc t ]

unfoldable pub newer_first : Episode → Episode → Bool
newer_first a b =
    ltb (published_key b) (published_key a) || published_key a == published_key b && leb b.id a.id

-- An episode that may be in the window: not purged, and with something to fetch.
abbrev pub is_eligible : Episode → Bool
is_eligible e = is_none e.purged_at && is_some e.enclosure_url

-- A count below one gives none, as the limit of the query does.
unfoldable pub window_episode_ids : List Episode → ℕ → List ℕ
unfolding newer_first
window_episode_ids rows count =
    map (λ e. e.id) (take count (sort_by newer_first (filter is_eligible rows)))

-- Queued, starred or asked for by somebody.
unfoldable pub auto_protected_ids :
    List QueueItem → List EpisodeState → List DownloadJob → List Episode → List ℕ
unfolding protected_episode_ids
auto_protected_ids queue states jobs rows =
    protected_episode_ids queue states
    ++ map (λ j. j.episode_id)
        (filter (λ j. not (is_auto j.source) && contains j.episode_id (map (λ e. e.id) rows)) jobs)

-- A row that the window does not cover and that holds a file.
abbrev pub is_outside : List ℕ → List ℕ → Episode → Bool
is_outside window protected e =
    is_some e.local_path && not (contains e.id window) && not (contains e.id protected)

-- The removal of what has fallen out; `none` is an error, after which nothing is committed.
unfoldable pub trim_window :
    List ℕ → List ℕ → Stamp → Disk → List Episode → Option (Disk × List Episode)
trim_window window protected now d [] = some (d, [])
trim_window window protected now d (e ∷ rows) =
    let rest = λ (d' : Disk). trim_window window protected now d' rows in
    if is_outside window protected e
    then elim (purge_episode now d e) [
      | none ↦ none
      | some (went, d', e') ↦ elim (rest d') [
        | none ↦ none
        | some (d'', rows') ↦ some (d'', e' ∷ rows')
      ]
    ]
    else elim (rest d) [ none ↦ none | some (d', rows') ↦ some (d', e ∷ rows') ]

-- What the two halves work on.
pub record Downloaded : Type 0 where
  pub disk : Disk
  pub rows : List Episode
  pub jobs : List DownloadJob

-- `raced` and `later` are what others commit around an insertion, `fresh` is the next job's id.
module _ (raced later : List DownloadJob → List DownloadJob) (now : Stamp) where
  -- The download of what is missing.
  unfoldable pub fetch_window :
      List ℕ → ℕ → Disk → List Episode → List DownloadJob → Option Downloaded
  fetch_window window fresh d [] jobs = some (record { disk = d; rows = []; jobs = jobs })
  fetch_window window fresh d (e ∷ rows) jobs =
      let rest =
        λ (d' : Disk) (j' : List DownloadJob). fetch_window window (suc fresh) d' rows j' in
      if contains e.id window && is_none e.local_path
      then elim (enqueue_download raced later fresh now d e auto jobs) [
        | none ↦ none
        | some r ↦ elim (rest r.disk r.jobs) [
          | none ↦ none
          | some w ↦ some (record w { rows = r.episode ∷ w.rows })
        ]
      ]
      else elim (rest d jobs) [ none ↦ none | some w ↦ some (record w { rows = e ∷ w.rows }) ]

  -- After the removal; a window of nothing fetches nothing.
  unfoldable pub after_trim :
      List ℕ → ℕ → ℕ → List DownloadJob → Option (Disk × List Episode) → Option Downloaded
  unfolding fetch_window
  after_trim window count fresh jobs none = none
  after_trim window count fresh jobs (some (d, rows)) =
      if count == 0
      then some (record { disk = d; rows = rows; jobs = jobs })
      else fetch_window window fresh d rows jobs

  unfoldable pub apply_auto_download_window :
      Feed
      → AppSettings
      → List QueueItem
      → List EpisodeState
      → ℕ
      → Disk
      → List Episode
      → List DownloadJob
      → Option Downloaded
  unfolding window_episode_ids auto_protected_ids effective_auto_download_count effective_retention
      after_trim trim_window
  apply_auto_download_window f s queue states fresh d rows jobs =
      let count = effective_auto_download_count f s in
      let window = window_episode_ids rows count in
      let protected = auto_protected_ids queue states jobs rows in
      after_trim window count fresh jobs (
        if is_never (effective_retention f s).0
        then some (d, rows)
        else trim_window window protected now d rows)
