-- ===== src/Downloads/Retry.antt =====
-- How often a job is tried, and when.
use podarium.Prelude.{
  suc, ◌+◌, ◌*◌, ◌^◌, ◌≡◌, arith, String, some, List, [], ◌∷◌, ltb, if◌then◌else◌, length,
}
use podarium.Model.Enums.{Stamp, seconds, queued, failed}
use podarium.Model.Job.{DownloadJob}
use podarium.Downloads.{fail_job, mark_running}

-- A job that is claimed at the first of each of these moments and fails at the second, the last run
-- first.
abbrev pub failed_runs : List (Stamp × Stamp × String) → DownloadJob → DownloadJob
failed_runs [] j = j
failed_runs ((claimed, now, m) ∷ earlier) j =
    fail_job now m (mark_running claimed (failed_runs earlier j))

failed_runs-attempts :
    (runs : List (Stamp × Stamp × String)) (j : DownloadJob)
    → (failed_runs runs j).attempts ≡ j.attempts + length runs
unfolding fail_job
failed_runs-attempts [] j = omega arith
failed_runs-attempts ((claimed, now, m) ∷ earlier) j =
    ground (arith, failed_runs-attempts earlier j)

-- A new job that has failed at each of these moments waits for 60 s, 120 s, 240 s and 480 s after the
-- first four and is then given up; the latest error is kept.
pub fail_job-failed_runs :
    (claimed now : Stamp) (m : String) (earlier : List (Stamp × Stamp × String)) (j : DownloadJob)
    → j.attempts ≡ 0
    → let last = failed_runs earlier j in
      let j' = fail_job now m (mark_running claimed last) in
      (j'.attempts ≡ suc (length earlier))
      × (j'.last_error ≡ some m)
      × (j'.state ≡ (if ltb (length earlier) 4 then queued else failed))
      × (j'.next_attempt_at ≡ (
          if ltb (length earlier) 4
          then now + seconds (60 * 2 ^ length earlier)
          else last.next_attempt_at))
unfolding fail_job
fail_job-failed_runs claimed now m earlier j h =
    let n : (failed_runs earlier j).attempts ≡ length earlier =
      omega (arith, failed_runs-attempts earlier j, h) in
    rw n (ground arith)
