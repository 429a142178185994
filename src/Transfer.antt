-- ===== src/Transfer.antt =====
-- One run of a download job: `run_job` of src/podarium/jobs/downloader.py. Metrics and logging are
-- left out. The body of an answer is its chunks, each the list of its bytes. The disk here does not
-- show the partial file, which every path through the code moves or unlinks.
pub mod Outcome
pub mod Rerun
mod Tests
use podarium.Prelude.{
  ℕ, ◌+◌, String, Bool, true, false, ◌&&◌, Option, none, some, List, [], ◌∷◌, ◌++◌, ltb, ◌==◌,
  if◌then◌else◌, length, str_eq, is_some, not, or_else,
}
use podarium.Model.Enums.{Stamp, done, failed, is_done, is_failed}
use podarium.Model.Episode.{Episode}
use podarium.Model.Job.{DownloadJob}
use podarium.Model.Feed.{Feed, AppSettings}
use podarium.Timeline.{Interval, is_set}
use podarium.Disk.{Disk, unlink}
use podarium.Downloads.{fail_job}
use podarium.Audio.{SilenceLine, process_episode}
use podarium.Transcript.{Reply, ensure_transcript}

abbrev pub Bytes : Type 0
Bytes = List ℕ

-- What a publisher sends: the Content-Length if it is a number, whether the body is uncompressed,
-- the chunks that arrive, and the error that ends them if one does: of the network, of the deadline
-- or of writing.
pub record Answer : Type 0 where
  pub content_length : Option ℕ
  pub identity : Bool
  pub chunks : List Bytes
  pub broken : Option String

-- What makes the attempt fail.
pub data Failure : Type 0 where
  raised : String → Failure
  declared_over : ℕ → Failure
  over_limit : Failure
  empty_body : Failure
  truncated : ℕ → ℕ → Failure
  not_moved : Failure

pub data Body : Type 0 where
  broke : Failure → Body
  got : Bytes → Body

-- The loop over the chunks, with what has been written.
unfoldable pub receive : ℕ → Option String → Bytes → List Bytes → Body
receive max_bytes o content (c ∷ cs) =
    let rest = receive max_bytes o (content ++ c) cs in
    if ltb max_bytes (length (content ++ c)) then broke over_limit else rest
receive max_bytes none content [] = got content
receive max_bytes (some e) content [] = broke (raised e)

-- A server that compressed regardless has made the length incomparable.
unfoldable pub declared_length : Answer → Option ℕ
declared_length a = if a.identity then a.content_length else none

-- The checks on a body that ended.
unfoldable pub check_length : Option ℕ → Body → Body
check_length declared (broke f) = broke f
check_length declared (got []) = broke empty_body
check_length none (got (b ∷ bs)) = got (b ∷ bs)
check_length (some n) (got (b ∷ bs)) =
    if length (b ∷ bs) == n then got (b ∷ bs) else broke (truncated (length (b ∷ bs)) n)

unfoldable pub transfer_from : ℕ → Option ℕ → Answer → Body
unfolding receive check_length
transfer_from max_bytes none a = check_length none (receive max_bytes a.broken [] a.chunks)
transfer_from max_bytes (some n) a =
    if ltb max_bytes n
    then broke (declared_over n)
    else check_length (some n) (receive max_bytes a.broken [] a.chunks)

unfoldable pub transfer : ℕ → Answer → Body
unfolding transfer_from declared_length
transfer max_bytes a = transfer_from max_bytes (declared_length a) a

-- `Path.replace`; `none` is an `OSError`.
unfoldable pub replace : String → String → Disk → Option Disk
replace p q d =
    if d.locked q
    then none
    else some (record d {
      exists = λ x. if str_eq x q then true else if str_eq x p then false else d.exists x;
    })

-- The row of an episode whose file arrived.
unfoldable pub store : String → String → Stamp → Bytes → Episode → Episode
store path digest now content e = record e {
  local_path = some path;
  local_bytes = some (length content);
  downloaded_at = some now;
  purged_at = none;
  audio_sha256 = some digest;
  replaced_at = none;
}

-- `job.state = JobState.done`: a row that an update changes is dated by it, and equal values are no
-- update.
unfoldable pub mark_done : Stamp → DownloadJob → DownloadJob
mark_done now j = if is_done j.state then j else record j { state = done; updated_at = now }

-- The same of a job that got its file, whose last error goes.
unfoldable pub finish_job : Stamp → DownloadJob → DownloadJob
finish_job now j =
    if is_done j.state && not (is_some j.last_error)
    then j
    else record j { state = done; last_error = none; updated_at = now }

-- A job that nothing can be done for.
unfoldable pub give_up : Stamp → String → DownloadJob → DownloadJob
give_up now message j =
    if is_failed j.state && str_eq (or_else j.last_error "") message
    then j
    else record j { state = failed; last_error = some message; updated_at = now }

-- What a run leaves: `escaped` where an error left `run_job` itself, and nothing more is committed.
pub record Result : Type 0 where
  pub job : DownloadJob
  pub episode : Option Episode
  pub disk : Disk
  pub escaped : Bool

-- A path that the row names and the disk has.
abbrev pub has_file : Disk → Option String → Bool
has_file d none = false
has_file d (some p) = d.exists p

module _ (max_bytes : ℕ) (target_path partial_path : Episode → String)
    (fetch : Episode → Option String → Answer) (sha256 : Bytes → String)
    (message : Failure → String) (finish : Disk → Episode → Disk × Episode × Option String)
    (now : Stamp) where
  -- The handler of every error: the partial file goes, and the job waits or is given up.
  unfoldable pub handle : String → Disk → DownloadJob → Episode → Failure → Result
  unfolding unlink fail_job
  handle partial d job e f = elim (unlink partial d) [
    | none ↦ record { job = job; episode = some e; disk = d; escaped = true }
    | some d' ↦ record {
      job = fail_job now (message f) job;
      episode = some e;
      disk = d';
      escaped = false;
    }
  ]

  -- What follows the commit of a file, with what `finish` makes of the disk and the row: an error in it
  -- comes to the same handler.
  unfoldable pub after_commit : String → DownloadJob → Disk × Episode × Option String → Result
  unfolding handle
  after_commit partial job (d, e, none) = record {
    job = job;
    episode = some e;
    disk = d;
    escaped = false;
  }
  after_commit partial job (d, e, some err) = handle partial d job e (raised err)

  -- What follows the move of the file to its place.
  unfoldable pub keep : DownloadJob → Episode → Bytes → Disk → Option Disk → Result
  unfolding store after_commit handle finish_job
  keep job e content d none = handle (partial_path e) d job e not_moved
  keep job e content d (some d') =
      after_commit (partial_path e) (finish_job now job)
        (finish d' (store (target_path e) (sha256 content) now content e))

  unfoldable pub settle : Disk → DownloadJob → Episode → Body → Result
  unfolding keep replace
  settle d job e (broke f) = handle (partial_path e) d job e f
  settle d job e (got content) = keep job e content d (replace (partial_path e) (target_path e) d)

  -- By whether the file is there and whether there is something to fetch.
  unfoldable pub run_by : Bool → Bool → Disk → DownloadJob → Episode → Result
  unfolding settle transfer mark_done give_up
  run_by true fetchable d job e = record {
    job = mark_done now job;
    episode = some e;
    disk = d;
    escaped = false;
  }
  run_by false false d job e = record {
    job = give_up now "episode has no enclosure URL" job;
    episode = some e;
    disk = d;
    escaped = false;
  }
  run_by false true d job e = settle d job e (transfer max_bytes (fetch e e.enclosure_url))

  unfoldable pub run_with : Disk → DownloadJob → Option Episode → Result
  unfolding run_by give_up
  run_with d job none = record {
    job = give_up now "episode no longer exists" job;
    episode = none;
    disk = d;
    escaped = false;
  }
  run_with d job (some e) = run_by (has_file d e.local_path) (is_set e.enclosure_url) d job e

-- What `run_job` calls after the commit: ffmpeg and ffprobe as in Audio, the network and the text of a
-- transcript as in Transcript, and the rows of the shows and the settings.
pub record Tools : Type 0 where
  pub ffmpeg_available : Bool
  pub trimming_available : Bool
  pub processed_path_for : String → String
  pub partial_for : String → String
  pub encode : String → Bool × Bool → Option ℕ
  pub probe : String → Option ℕ
  pub file_size : String → ℕ
  pub detect : String → Option (List SilenceLine)
  pub dumps : List Interval → String
  pub commits : Episode → Bool
  pub feed : ℕ → Option Feed
  pub settings : AppSettings
  pub stream : String → Reply
  pub to_plain_text : Bytes → String

module _ (t : Tools) (now : Stamp) where
  -- The processed copy, where the show is there.
  unfoldable pub process : Disk → Episode → Option Feed → Disk × Episode
  unfolding process_episode
  process d e none = (d, e)
  process d e (some f) =
      let (written, d', e') =
        process_episode t.ffmpeg_available t.trimming_available t.processed_path_for t.partial_for
          t.encode t.probe t.file_size t.detect t.dumps t.commits now d e f t.settings in
      (d', e')

  -- The processing and then the transcript: the disk, the row, and the error if one is raised.
  unfoldable pub finish : Disk → Episode → Disk × Episode × Option String
  unfolding process ensure_transcript
  finish d e =
      let (d', e') = process d e (t.feed e.feed_id) in
      let (text, e'', error) = ensure_transcript t.stream t.to_plain_text now e' in (d', e'', error)

  module _ (max_bytes : ℕ) (target_path partial_path : Episode → String)
      (fetch : Episode → Option String → Answer) (sha256 : Bytes → String)
      (message : Failure → String) where
    unfoldable pub run_job : Disk → DownloadJob → Option Episode → Result
    unfolding run_with finish
    run_job = run_with max_bytes target_path partial_path fetch sha256 message finish now
