-- ===== src/Downloads/Unique.antt =====
-- One live job for an episode.
use podarium.Prelude.{
  ℕ, ◌≤◌, ◌≡◌, refl, arith, Bool, true, false, Option, none, some, List, [], ◌∷◌, map, ◌==◌,
  if◌then◌else◌, any, filter, length, Bool-cases, Option-cases, inl, inr, sym, subst, is_some,
}
use podarium.Model.Enums.{Stamp, JobSource, is_auto}
use podarium.Model.Episode.{Episode}
use podarium.Model.Job.{DownloadJob}
use podarium.Timeline.{is_set}
use podarium.Disk.{Disk}
use podarium.Downloads.{
  is_live_for, live_job, insert_job, new_job, record_request, forget_missing, take_over, update_job,
  Enqueued, insert_or_find, enqueue_job, enqueue_by, enqueue_checked, enqueue_download, requeue_job,
  requeue_stuck_jobs,
}

unfoldable pub live_count : ℕ → List DownloadJob → ℕ
live_count id jobs = length (filter (is_live_for id) jobs)

-- What the index `uq_download_jobs_live_episode` demands.
abbrev pub IsUnique : List DownloadJob → Type 0
IsUnique jobs = (id : ℕ) → live_count id jobs ≤ 1

length-filter_none :
    (p : DownloadJob → Bool) (jobs : List DownloadJob)
    → any p jobs ≡ false
    → length (filter p jobs) ≡ 0
length-filter_none p [] h = refl
length-filter_none p (j ∷ jobs) h = ground (arith, length-filter_none p jobs)

-- A change that leaves every row's episode alone and makes no row live keeps the counts.
pub length-filter-map :
    (f : DownloadJob → DownloadJob) (id : ℕ) (jobs : List DownloadJob)
    → ((j : DownloadJob) → is_live_for id (f j) ≡ is_live_for id j)
    → live_count id (map f jobs) ≡ live_count id jobs
unfolding live_count
length-filter-map f id [] h = refl
length-filter-map f id (j ∷ jobs) h = ground (arith, h j, length-filter-map f id jobs h)

pub insert_job-IsUnique :
    (j : DownloadJob) (jobs : List DownloadJob) {jobs' : List DownloadJob}
    → IsUnique jobs
    → insert_job j jobs ≡ some jobs'
    → IsUnique jobs'
unfolding insert_job live_count
insert_job-IsUnique j jobs u h id =
    ground (arith, u id, length-filter_none (is_live_for j.episode_id) jobs)

take_over_live :
    (now : Stamp) (source : JobSource) (id : ℕ) (j : DownloadJob)
    → is_live_for id (take_over now source j) ≡ is_live_for id j
unfolding take_over
take_over_live now source id j = ground arith

update_job-IsUnique :
    (now : Stamp) (source : JobSource) (k : ℕ) (jobs : List DownloadJob)
    → IsUnique jobs
    → IsUnique (update_job k (take_over now source) jobs)
unfolding update_job
update_job-IsUnique now source k jobs u id =
    subst (λ n. n ≤ 1)
      (sym (
        length-filter-map (λ j. if j.id == k then take_over now source j else j) id jobs
          (λ j. ground (arith, take_over_live now source id j))))
      (u id)

-- A row that is done is in no count.
record_request-IsUnique :
    (fresh : ℕ) (now : Stamp) (e : Episode) (source : JobSource) (jobs : List DownloadJob)
    → IsUnique jobs
    → IsUnique (record_request fresh now e source jobs)
unfolding record_request new_job live_count
record_request-IsUnique fresh now e source jobs u id = ground (arith, u id)

module _ (raced later : List DownloadJob → List DownloadJob)
    (raced-IsUnique : (l : List DownloadJob) → IsUnique l → IsUnique (raced l))
    (later-IsUnique : (l : List DownloadJob) → IsUnique l → IsUnique (later l)) (fresh : ℕ)
    (now : Stamp) where
  insert_or_find-IsUnique :
      (j : DownloadJob) (jobs : List DownloadJob)
      → IsUnique jobs
      → IsUnique (insert_or_find raced later j jobs).1
  unfolding insert_or_find
  insert_or_find-IsUnique j jobs u = elim (Option-cases (insert_job j (raced jobs))) [
    | inl e ↦ rw (e, insert_or_find) (later-IsUnique _ (raced-IsUnique jobs u))
    | inr (jobs', e) ↦
        rw (e, insert_or_find) (insert_job-IsUnique j (raced jobs) (raced-IsUnique jobs u) e)
  ]

  enqueue_job-IsUnique :
      (e : Episode) (source : JobSource) (o : Option DownloadJob) (jobs : List DownloadJob)
      → IsUnique jobs
      → IsUnique (enqueue_job raced later fresh now e source o jobs).1
  unfolding enqueue_job
  enqueue_job-IsUnique e source none jobs u = insert_or_find-IsUnique _ jobs u
  enqueue_job-IsUnique e source (some j) jobs u = update_job-IsUnique now source j.id jobs u

  enqueue_by-IsUnique :
      (here fetchable : Bool) (e : Episode) (source : JobSource) (jobs : List DownloadJob)
      → IsUnique jobs
      → IsUnique (enqueue_by raced later fresh now here fetchable e source jobs).1
  unfolding enqueue_by
  enqueue_by-IsUnique true fetchable e source jobs u = elim (Bool-cases (is_auto source)) [
    | inl h ↦ rw (h, enqueue_by) u
    | inr h ↦ rw (h, enqueue_by) (record_request-IsUnique fresh now e source jobs u)
  ]
  enqueue_by-IsUnique false false e source jobs u = u
  enqueue_by-IsUnique false true e source jobs u =
      enqueue_job-IsUnique e source (live_job e.id jobs) jobs u

  -- Whatever others commit in the meantime, as long as the index is kept by them: after an enqueue
  -- no episode has two jobs that wait or run.
  pub enqueue_download-IsUnique :
      (d : Disk) (e : Episode) (source : JobSource) (jobs : List DownloadJob) {r : Enqueued}
      → IsUnique jobs
      → enqueue_download raced later fresh now d e source jobs ≡ some r
      → IsUnique r.jobs
  unfolding enqueue_download enqueue_checked
  enqueue_download-IsUnique d e source jobs {r} u h =
      elim (Option-cases (forget_missing d e e.local_path)) [
        | inl m ↦ absurd (ground arith)
        | inr ((d', e'), m) ↦
            let same : enqueue_checked raced later fresh now d' e' source jobs ≡ r = ground arith in
            subst (λ (x : Enqueued). IsUnique x.jobs) same
              (enqueue_by-IsUnique (is_some e'.local_path) (is_set e'.enclosure_url) e' source jobs
                u)
      ]

-- Requeueing after a crash keeps the index, and leaves no job running.
pub requeue_stuck_jobs-IsUnique :
    (now : Stamp) (jobs : List DownloadJob)
    → IsUnique jobs
    → IsUnique (requeue_stuck_jobs now jobs).0
unfolding requeue_stuck_jobs requeue_job
requeue_stuck_jobs-IsUnique now jobs u id =
    subst (λ n. n ≤ 1) (sym (length-filter-map (requeue_job now) id jobs (λ j. ground arith)))
      (u id)
