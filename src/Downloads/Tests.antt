-- ===== src/Downloads/Tests.antt =====
-- Runs of the job table's operations, and their theorems at concrete tables.
use podarium.Prelude.{
  ℕ, suc, ◌+◌, ◌*◌, ◌^◌, ◌≤◌, ◌≡◌, refl, arith, Bool, false, some, none, List, [], ◌∷◌, ltb, ◌==◌,
  if◌then◌else◌, any, filter, length, sort_by, insert_sorted,
}
use podarium.Model.Enums.{queued, running, done, failed, manual, seconds}
use podarium.Model.Episode.{Episode}
use podarium.Model.Job.{DownloadJob}
use podarium.Samples.{episode, job, empty_disk}
use podarium.Disk.{unlink, unlink_set, forget_processed, drop_processed}
use podarium.Downloads.{
  live_job, insert_job, new_job, record_request, forget_missing, take_over, update_job, Enqueued,
  insert_or_find, enqueue_job, enqueue_by, enqueue_checked, enqueue_download, requeue_job,
  requeue_stuck_jobs, due_before, is_claimable, mark_running, claim_job, fail_job,
}
use podarium.Downloads.Unique.{
  live_count, IsUnique, enqueue_download-IsUnique, requeue_stuck_jobs-IsUnique,
}
use podarium.Downloads.Enqueue.{alone}
use podarium.Downloads.Retry.{failed_runs, fail_job-failed_runs}
use podarium.Downloads.Claim.{claim_job-none, claim_job-some, claim_job-IsUnique, Claimed}

program : Unit {0}
unfolding unlink unlink_set forget_processed drop_processed live_job insert_job new_job
    record_request forget_missing take_over update_job insert_or_find enqueue_job enqueue_by
    enqueue_checked enqueue_download requeue_job requeue_stuck_jobs due_before is_claimable
    claim_job fail_job sort_by insert_sorted live_count
program = tt

-- Another episode's job runs; an earlier one of this episode is done.
abbrev others : List DownloadJob
others =
    record job { id = 2; episode_id = 5; state = running }
    ∷ record job { id = 3; state = done }
    ∷ record job { id = 4; episode_id = 6; next_attempt_at = 7 }
    ∷ []

others-IsUnique : IsUnique others
unfolding program
others-IsUnique id = ground arith

-- The row says that it has a file, and the disk has none: the file is forgotten and a job added.
abbrev lost : Episode
lost = record episode { local_path = some "1.mp3"; local_bytes = some 100 }

abbrev queued_again : Enqueued
queued_again = record {
  job =
      some (record job {
        id = 9;
        source = manual;
        next_attempt_at = 5;
        created_at = 5;
        updated_at = 5;
      });
  disk = empty_disk;
  episode = episode;
  jobs =
      record job { id = 9; source = manual; next_attempt_at = 5; created_at = 5; updated_at = 5 }
      ∷ others;
}

enqueued : enqueue_download alone alone 9 5 empty_disk lost manual others ≡ some queued_again
unfolding program
enqueued = refl

-- A request that loses a race to an automatic job gets that job as it is: it stays automatic.
raced :
    enqueue_download (λ l. record job { id = 8 } ∷ l) alone 9 5 empty_disk episode manual others
    ≡ some (record {
      job = some (record job { id = 8 });
      disk = empty_disk;
      episode = episode;
      jobs = record job { id = 8 } ∷ others;
    })
unfolding program
raced = refl

requeue_stuck_jobs-IsUnique_example : IsUnique (requeue_stuck_jobs 5 others).0
requeue_stuck_jobs-IsUnique_example = requeue_stuck_jobs-IsUnique 5 others others-IsUnique

fail_job-failed_runs_example :
    let last = failed_runs ((6, 7, "b") ∷ (4, 5, "a") ∷ []) job in
    let j' = fail_job 9 "c" (mark_running 8 last) in
    (j'.attempts ≡ suc 2)
    × (j'.last_error ≡ some "c")
    × (j'.state ≡ (if ltb 2 4 then queued else failed))
    × (j'.next_attempt_at ≡ (if ltb 2 4 then 9 + seconds (60 * 2 ^ 2) else last.next_attempt_at))
fail_job-failed_runs_example =
    fail_job-failed_runs 8 9 "c" ((6, 7, "b") ∷ (4, 5, "a") ∷ []) job refl

abbrev none_locked : ℕ → Bool
none_locked id = false

abbrev one_locked : ℕ → Bool
one_locked id = id == 9

table_keyed : (id : ℕ) → length (filter (λ j. j.id == id) queued_again.jobs) ≤ 1
table_keyed id = ground arith

first_due :
    (claim_job none_locked 8 queued_again.jobs).0
    ≡ some (
        mark_running 8 (record job {
          id = 9;
          source = manual;
          next_attempt_at = 5;
          created_at = 5;
          updated_at = 5;
        }))
unfolding program
first_due = refl

claim_job-some_example : Claimed none_locked 8 queued_again.jobs (
    mark_running 8
      (record job { id = 9; source = manual; next_attempt_at = 5; created_at = 5; updated_at = 5 }))
claim_job-some_example = claim_job-some none_locked 8 queued_again.jobs first_due

nothing_due : (claim_job one_locked 6 queued_again.jobs).0 ≡ none
unfolding program
nothing_due = refl

claim_job-none_example :
    (any (is_claimable one_locked 6) queued_again.jobs ≡ false)
    × ((claim_job one_locked 6 queued_again.jobs).1 ≡ queued_again.jobs)
claim_job-none_example = claim_job-none one_locked 6 queued_again.jobs nothing_due

claim_job-IsUnique_example : IsUnique (claim_job none_locked 8 queued_again.jobs).1
claim_job-IsUnique_example = claim_job-IsUnique none_locked 8 queued_again.jobs table_keyed (
    enqueue_download-IsUnique alone alone (λ l u. u) (λ l u. u) 9 5 empty_disk lost manual others
      others-IsUnique enqueued)
