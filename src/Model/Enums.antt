-- ===== src/Model/Enums.antt =====
-- The enumerations of src/podarium/models.py. A moment is a number of microseconds since the
-- epoch: every stored datetime is aware and in UTC, so attaching UTC to a naive one changes nothing.
use podarium.Prelude.{ℕ, ◌*◌, Bool, true, false}

abbrev pub Stamp : Type 0
Stamp = ℕ

-- `timedelta(seconds=n)`
abbrev pub seconds : ℕ → Stamp
seconds n = n * 1000000

pub data RetentionMode : Type 0 where
  after_played after_download never : RetentionMode

pub data JobState : Type 0 where
  queued running done failed : JobState

pub data JobSource : Type 0 where
  queue auto manual : JobSource

-- `job.state == JobState.queued` and the like.
abbrev pub is_queued : JobState → Bool
is_queued JobState.queued = true
is_queued _ = false

abbrev pub is_running : JobState → Bool
is_running JobState.running = true
is_running _ = false

abbrev pub is_done : JobState → Bool
is_done JobState.done = true
is_done _ = false

abbrev pub is_failed : JobState → Bool
is_failed JobState.failed = true
is_failed _ = false

abbrev pub is_auto : JobSource → Bool
is_auto JobSource.auto = true
is_auto _ = false

abbrev pub is_never : RetentionMode → Bool
is_never RetentionMode.never = true
is_never _ = false
