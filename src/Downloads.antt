-- ===== src/Downloads.antt =====
-- The download jobs: `_record_request` and `enqueue_download` of src/podarium/services.py, and the
-- claiming, failing and requeueing of src/podarium/jobs/downloader.py. Metrics and logging are left
-- out.
pub mod Unique
pub mod Enqueue
pub mod Retry
pub mod Claim
mod Tests
use podarium.Prelude.{
  ℕ, zero, suc, ◌+◌, ◌-◌, ◌*◌, ◌^◌, String, Bool, true, false, ◌&&◌, ◌||◌, not, Option, none, some,
  List, [], ◌∷◌, ◌++◌, map, ltb, leb, ◌==◌, if◌then◌else◌, is_some, find, any, filter, sort_by,
  length,
}
use podarium.Model.Enums.{
  Stamp, seconds, JobState, queued, running, done, failed, JobSource, is_queued, is_running,
  is_auto,
}
use podarium.Model.Episode.{Episode}
use podarium.Model.Job.{DownloadJob, is_live}
use podarium.Timeline.{is_set}
use podarium.Disk.{Disk, drop_processed}

abbrev pub max_attempts : ℕ
max_attempts = 5

abbrev pub base_backoff_seconds : ℕ
base_backoff_seconds = 60

-- A row that the index `uq_download_jobs_live_episode` has for the episode.
abbrev pub is_live_for : ℕ → DownloadJob → Bool
is_live_for id j = j.episode_id == id && is_live j

-- `select … where episode_id = … and state in (queued, running) limit 1`
unfoldable pub live_job : ℕ → List DownloadJob → Option DownloadJob
live_job id jobs = find (is_live_for id) jobs

-- Insertion of a live job under that index; `none` is the `IntegrityError`.
unfoldable pub insert_job : DownloadJob → List DownloadJob → Option (List DownloadJob)
insert_job j jobs = if any (is_live_for j.episode_id) jobs then none else some (j ∷ jobs)

-- A new row. Its attempts start at 0.
unfoldable pub new_job : ℕ → ℕ → JobSource → JobState → Stamp → DownloadJob
new_job id episode_id source state now = record {
  id = id;
  episode_id = episode_id;
  state = state;
  attempts = 0;
  last_error = none;
  source = source;
  next_attempt_at = now;
  created_at = now;
  updated_at = now;
}

unfoldable pub record_request :
    ℕ → Stamp → Episode → JobSource → List DownloadJob → List DownloadJob
unfolding new_job
record_request fresh now e source jobs =
    if any (λ j. j.episode_id == e.id && not (is_auto j.source)) jobs
    then jobs
    else new_job fresh e.id source done now ∷ jobs

-- A row whose file is gone forgets it; `none` is an `OSError`.
unfoldable pub forget_missing : Disk → Episode → Option String → Option (Disk × Episode)
forget_missing d e none = some (d, e)
forget_missing d e (some p) =
    if d.exists p
    then some (d, e)
    else drop_processed d (record e { local_path = none; local_bytes = none })

-- `existing.source = source`, where a request takes over an automatic job. A row that an update
-- changes is dated by it.
unfoldable pub take_over : Stamp → JobSource → DownloadJob → DownloadJob
take_over now source j =
    if not (is_auto source) && is_auto j.source
    then record j { source = source; updated_at = now }
    else j

-- `UPDATE … WHERE id = …`
unfoldable pub update_job : ℕ → (DownloadJob → DownloadJob) → List DownloadJob → List DownloadJob
update_job id f jobs = map (λ k. if k.id == id then f k else k) jobs

-- What `enqueue_download` returns, and the state afterwards.
pub record Enqueued : Type 0 where
  pub job : Option DownloadJob
  pub disk : Disk
  pub episode : Episode
  pub jobs : List DownloadJob

-- The insertion under a savepoint: `raced` is what others commit between the check and it, and
-- `later` what they commit until the query that follows a refusal.
unfoldable pub insert_or_find :
    (List DownloadJob → List DownloadJob)
    → (List DownloadJob → List DownloadJob)
    → DownloadJob
    → List DownloadJob
    → Option DownloadJob × List DownloadJob
unfolding insert_job live_job
insert_or_find raced later j jobs = elim (insert_job j (raced jobs)) [
  | some jobs' ↦ (some j, jobs')
  | none ↦ (live_job j.episode_id (later (raced jobs)), later (raced jobs))
]

module _ (raced later : List DownloadJob → List DownloadJob) (fresh : ℕ) (now : Stamp) where
  -- The check for a live job, and what follows it.
  unfoldable pub enqueue_job :
      Episode
      → JobSource
      → Option DownloadJob
      → List DownloadJob
      → Option DownloadJob × List DownloadJob
  unfolding take_over update_job new_job insert_or_find
  enqueue_job e source (some existing) jobs =
      (some (take_over now source existing), update_job existing.id (take_over now source) jobs)
  enqueue_job e source none jobs =
      insert_or_find raced later (new_job fresh e.id source queued now) jobs

  -- By whether a file is there and whether there is something to fetch.
  unfoldable pub enqueue_by :
      Bool → Bool → Episode → JobSource → List DownloadJob → Option DownloadJob × List DownloadJob
  unfolding record_request enqueue_job live_job
  enqueue_by true fetchable e source jobs =
      (none, if is_auto source then jobs else record_request fresh now e source jobs)
  enqueue_by false false e source jobs = (none, jobs)
  enqueue_by false true e source jobs = enqueue_job e source (live_job e.id jobs) jobs

  unfoldable pub enqueue_checked : Disk → Episode → JobSource → List DownloadJob → Enqueued
  unfolding enqueue_by
  enqueue_checked d e source jobs =
      let r = enqueue_by (is_some e.local_path) (is_set e.enclosure_url) e source jobs in
      record { job = r.0; disk = d; episode = e; jobs = r.1 }

  unfoldable pub enqueue_download : Disk → Episode → JobSource → List DownloadJob → Option Enqueued
  unfolding forget_missing enqueue_checked
  enqueue_download d e source jobs = elim (forget_missing d e e.local_path) [
    | none ↦ none
    | some (d', e') ↦ some (enqueue_checked d' e' source jobs)
  ]

unfoldable pub requeue_job : Stamp → DownloadJob → DownloadJob
requeue_job now j =
    if is_running j.state
    then record j { state = queued; next_attempt_at = now; updated_at = now }
    else j

-- The table and how many rows changed.
unfoldable pub requeue_stuck_jobs : Stamp → List DownloadJob → List DownloadJob × ℕ
unfolding requeue_job
requeue_stuck_jobs now jobs =
    (map (requeue_job now) jobs, length (filter (λ j. is_running j.state) jobs))

-- `order_by(next_attempt_at, id)`
unfoldable pub due_before : DownloadJob → DownloadJob → Bool
due_before a b =
    ltb a.next_attempt_at b.next_attempt_at
    || a.next_attempt_at == b.next_attempt_at && leb a.id b.id

-- A row that the query may return: `locked` are the ids that other workers hold.
unfoldable pub is_claimable : (ℕ → Bool) → Stamp → DownloadJob → Bool
is_claimable locked now j = is_queued j.state && leb j.next_attempt_at now && not (locked j.id)

-- The update of the row that is claimed, which dates it.
abbrev pub mark_running : Stamp → DownloadJob → DownloadJob
mark_running now j = record j { state = running; updated_at = now }

-- `_claim_job`: the job, if there is one, and the table.
unfoldable pub claim_job :
    (ℕ → Bool) → Stamp → List DownloadJob → Option DownloadJob × List DownloadJob
unfolding is_claimable due_before update_job
claim_job locked now jobs = elim (sort_by due_before (filter (is_claimable locked now) jobs)) [
  | [] ↦ (none, jobs)
  | j ∷ _ ↦ (some (mark_running now j), update_job j.id (mark_running now) jobs)
]

-- `_fail_job`, with the message already cut.
unfoldable pub fail_job : Stamp → String → DownloadJob → DownloadJob
fail_job now message j =
    let attempts = j.attempts + 1 in
    if leb max_attempts attempts
    then record j {
      attempts = attempts;
      last_error = some message;
      state = failed;
      updated_at = now;
    }
    else record j {
      attempts = attempts;
      last_error = some message;
      state = queued;
      next_attempt_at = now + seconds (base_backoff_seconds * 2 ^ (attempts - 1));
      updated_at = now;
    }
