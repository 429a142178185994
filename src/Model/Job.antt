-- ===== src/Model/Job.antt =====
-- `DownloadJob` of src/podarium/models.py.
use podarium.Prelude.{ℕ, String, Bool, ◌||◌, Option}
use podarium.Model.Enums.{Stamp, JobState, JobSource, is_queued, is_running}

pub record DownloadJob : Type 0 where
  pub id : ℕ
  pub episode_id : ℕ
  pub state : JobState
  pub attempts : ℕ
  pub last_error : Option String
  pub source : JobSource
  pub next_attempt_at : Stamp
  pub created_at : Stamp
  pub updated_at : Stamp

-- `state IN ('queued', 'running')`
abbrev pub is_live : DownloadJob → Bool
is_live j = is_queued j.state || is_running j.state
