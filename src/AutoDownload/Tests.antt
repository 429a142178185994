-- ===== src/AutoDownload/Tests.antt =====
-- A window of one episode over a show that has three, two of them downloaded.
use podarium.Prelude.{
  ◌≡◌, refl, true, false, none, some, List, [], ◌∷◌, All, sort_by, contains, insert_sorted,
  if◌then◌else◌, str_eq,
}
use podarium.Model.Episode.{Episode, EpisodeState}
use podarium.Model.Feed.{Feed}
use podarium.Settings.{effective_auto_download_count, effective_retention}
use podarium.Samples.{episode, feed, settings, full_disk, job, played}
use podarium.Retention.{protected_episode_ids}
use podarium.Disk.{
  unlink, unlink_set, forget_processed, drop_processed, mark_purged, finish_purge, purge_unlinked,
  purge_path, purge_episode,
}
use podarium.Downloads.{
  live_job, insert_job, new_job, forget_missing, insert_or_find, enqueue_job, enqueue_by,
  enqueue_checked, enqueue_download, Enqueued, record_request,
}
use podarium.AutoDownload.{
  newer_first, window_episode_ids, auto_protected_ids, is_outside, trim_window, Downloaded,
  fetch_window, after_trim, apply_auto_download_window,
}
use podarium.AutoDownload.Trim.{AreTrimmed, AreGone}
use podarium.AutoDownload.Protect.{enqueue_download-protects}
use podarium.Downloads.Enqueue.{alone}
use podarium.Model.Enums.{done, manual, auto}
use podarium.Model.Job.{DownloadJob}
use podarium.AutoDownload.Target.{apply_auto_download_window_target}

program : Unit {0}
unfolding newer_first window_episode_ids auto_protected_ids trim_window fetch_window after_trim
    apply_auto_download_window effective_auto_download_count effective_retention
    protected_episode_ids unlink unlink_set forget_processed drop_processed mark_purged finish_purge
    purge_unlinked purge_path purge_episode live_job insert_job new_job forget_missing
    insert_or_find enqueue_job enqueue_by enqueue_checked enqueue_download record_request sort_by
    insert_sorted
program = tt

abbrev show : Feed
show = record feed { auto_download_count = some 1 }

abbrev newest : Episode
newest = record episode { published_at = some 30 }

abbrev older : Episode
older = record episode {
  id = 2;
  published_at = some 20;
  local_path = some "2.mp3";
  local_bytes = some 7;
}

-- Starred.
abbrev oldest : Episode
oldest = record older { id = 3; published_at = some 10; local_path = some "3.mp3" }

abbrev starred : EpisodeState
starred = record played { episode_id = 3; starred = true }

abbrev rows : List Episode
rows = newest ∷ older ∷ oldest ∷ []

abbrev trimmed : Episode
trimmed = record older { local_path = none; local_bytes = none; purged_at = some 5 }

abbrev result : Downloaded
result = record {
  disk = record full_disk { exists = λ q. if str_eq q "2.mp3" then false else true };
  rows = newest ∷ trimmed ∷ oldest ∷ [];
  jobs = record job { id = 9; next_attempt_at = 5; created_at = 5; updated_at = 5 } ∷ [];
}

applied :
    apply_auto_download_window
      (λ l. l)
      (λ l. l)
      5
      show
      settings
      []
      (starred ∷ [])
      9
      full_disk
      rows
      []
    ≡ some result
unfolding program
applied = refl

apply_auto_download_window_target_example :
    AreGone (1 ∷ []) (3 ∷ []) result.disk rows
    × AreTrimmed (1 ∷ []) (3 ∷ []) rows result.rows
    × All (λ e. is_outside (1 ∷ []) (3 ∷ []) e ≡ false) result.rows
unfolding program
apply_auto_download_window_target_example =
    apply_auto_download_window_target (λ l. l) (λ l. l) 5 show settings [] (starred ∷ []) 9
      full_disk rows [] (λ p. refl) refl applied

-- The second row is there, and an automatic job of it has been done: a request records that somebody
-- wants it.
abbrev fetched : DownloadJob
fetched = record job { id = 9; episode_id = 2; state = done; source = auto }

abbrev asked : Enqueued
asked = record {
  job = none;
  disk = full_disk;
  episode = older;
  jobs =
      record job {
        id = 10;
        episode_id = 2;
        state = done;
        source = manual;
        next_attempt_at = 5;
        created_at = 5;
        updated_at = 5;
      }
      ∷ fetched
      ∷ [];
}

request : enqueue_download alone alone 10 5 full_disk older manual (fetched ∷ []) ≡ some asked
unfolding program
request = refl

enqueue_download-protects_example : contains 2 (auto_protected_ids [] [] asked.jobs rows) ≡ true
enqueue_download-protects_example =
    enqueue_download-protects 10 5 manual refl full_disk older (fetched ∷ []) [] [] rows refl
      request refl
