-- ===== src/Downloads/Enqueue.antt =====
-- Asking twice: `enqueue_download` promises that callers can fire it freely.
use podarium.Prelude.{ℕ, ◌≡◌, refl, arith, Bool, false, none, some, List, [], ◌∷◌, find, any}
use podarium.Model.Enums.{Stamp, queued, JobSource}
use podarium.Model.Episode.{Episode}
use podarium.Model.Job.{DownloadJob}
use podarium.Disk.{Disk}
use podarium.Downloads.{is_live_for, live_job, insert_job, new_job, insert_or_find}

-- Nobody else commits.
abbrev pub alone : List DownloadJob → List DownloadJob
alone jobs = jobs

find-any :
    (p : DownloadJob → Bool) (jobs : List DownloadJob) → find p jobs ≡ none → any p jobs ≡ false
find-any p [] h = refl
find-any p (j ∷ jobs) h = ground (arith, find-any p jobs)

module _ (fresh fresh' : ℕ) (now now' : Stamp) where
  abbrev pub added : Episode → JobSource → DownloadJob
  added e source = new_job fresh e.id source queued now

  pub insert_or_find-alone :
      (e : Episode) (source : JobSource) (jobs : List DownloadJob)
      → live_job e.id jobs ≡ none
      → insert_or_find alone alone (added e source) jobs
        ≡ (some (added e source), added e source ∷ jobs)
  unfolding insert_or_find insert_job live_job new_job
  insert_or_find-alone e source jobs h = ground (arith, find-any (is_live_for e.id) jobs h)
