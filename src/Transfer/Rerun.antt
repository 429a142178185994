-- ===== src/Transfer/Rerun.antt =====
-- What a run leaves, and what the next run makes of it.
use podarium.Prelude.{
  ℕ, ◌≡◌, ◌≢◌, refl, arith, sym, ap, ◌∙◌, String, Bool, true, false, not, Option, none, some, List,
  [], if◌then◌else◌, is_some, or_else, str_eq, str_eq_refl, str_eq_iff, Bool-cases, inl, inr,
}
use podarium.Model.Enums.{Stamp}
use podarium.Model.Episode.{Episode}
use podarium.Model.Feed.{Feed}
use podarium.Model.Job.{DownloadJob}
use podarium.Timeline.{Interval, is_set}
use podarium.Disk.{Disk, unlink}
use podarium.Audio.{SilenceLine, put_file, wanted}
use podarium.Audio.Process.{IsProcessed, process_episode-IsProcessed}
use podarium.Transcript.{
  Reply, sent, refused, threw, gather, tried_lately, keep_text, read_reply, ensure_transcript,
}
use podarium.Transfer.{
  Bytes, Answer, Failure, raised, got, transfer, replace, store, Result, has_file, handle,
  mark_done, after_commit, keep, settle, run_by, run_with, Tools, process, finish, run_job,
}

-- What the processing and the transcript leave alone: the file and the pointer to it, other files, and
-- what is locked.
abbrev pub Keeps : Disk → Episode → Disk × Episode × Option String → Type 0
Keeps d e (d', e', o) =
    (e'.local_path ≡ e.local_path)
    × ((p : String) → d.exists p ≡ true → d'.exists p ≡ true)
    × ((p : String) → d'.locked p ≡ d.locked p)

put_file-Keeps :
    (q : String) (d : Disk) {d' : Disk}
    → d' ≡ put_file q d
    → ((p : String) → d.exists p ≡ true → d'.exists p ≡ true)
      × ((p : String) → d'.locked p ≡ d.locked p)
put_file-Keeps q d {d'} same = (
  λ p h. ap (λ (x : Disk). x.exists p) same ∙ ground arith,
  λ p. ap (λ (x : Disk). x.locked p) same,
)

-- A processing leaves the original and the pointer to it in place.
IsProcessed-Keeps :
    (ffmpeg_available trimming_available : Bool) (processed_path_for partial_for : String → String)
    (encode : String → Bool × Bool → Option ℕ) (probe : String → Option ℕ) (file_size : String → ℕ)
    (detect : String → Option (List SilenceLine)) (dumps : List Interval → String)
    (commits : Episode → Bool) (settings : Bool × Bool) (d : Disk) (e : Episode)
    (r : Bool × Disk × Episode)
    → IsProcessed ffmpeg_available trimming_available processed_path_for partial_for encode probe
        file_size detect dumps commits settings d e r
    → Keeps d e (r.1, r.2, none)
IsProcessed-Keeps fa ta ppf pf encode probe fs detect dumps commits settings d e (false, d', e')
      (same, inl kept) =
    (
      ap (λ (x : Episode). x.local_path) same,
      λ p h. ap (λ (x : Disk). x.exists p) kept ∙ h,
      λ p. ap (λ (x : Disk). x.locked p) kept,
    )
IsProcessed-Keeps fa ta ppf pf encode probe fs detect dumps commits settings d e (false, d', e')
      (same, inr (source, path, kept)) =
    let (stays, locks) = put_file-Keeps (ppf source) d kept in
    (ap (λ (x : Episode). x.local_path) same, stays, locks)
IsProcessed-Keeps fa ta ppf pf encode probe fs detect dumps commits settings d e (true, d', e')
      (source, n, p0, p1, p2, p3, p4, p5, kept, p6, p7, path, p8) =
    let (stays, locks) = put_file-Keeps (ppf source) d kept in (path, stays, locks)

process-Keeps :
    (t : Tools) (now : Stamp) (d : Disk) (e : Episode) (o : Option Feed)
    → Keeps d e ((process t now d e o).0, (process t now d e o).1, none)
unfolding process
process-Keeps t now d e none = (refl, λ p h. h, λ p. refl)
process-Keeps t now d e (some f) =
    IsProcessed-Keeps t.ffmpeg_available t.trimming_available t.processed_path_for t.partial_for
      t.encode t.probe t.file_size t.detect t.dumps t.commits
      (wanted t.trimming_available f t.settings) d e _
      (process_episode-IsProcessed t.ffmpeg_available t.trimming_available t.processed_path_for
        t.partial_for t.encode t.probe t.file_size t.detect t.dumps t.commits now d e f t.settings)

module _ (stream : String → Reply) (to_plain_text : List ℕ → String) (now : Stamp) where
  keep_text-local_path :
      (o : Option (List ℕ)) (e : Episode)
      → (keep_text stream to_plain_text now o e).1.local_path ≡ e.local_path
  unfolding keep_text
  keep_text-local_path none e = refl
  keep_text-local_path (some raw) e = elim (Bool-cases (str_eq (to_plain_text raw) "")) [
    | inl b ↦ rw b refl
    | inr b ↦ rw b refl
  ]

  read_reply-local_path :
      (r : Reply) (e : Episode)
      → (read_reply stream to_plain_text now r e).1.local_path ≡ e.local_path
  unfolding read_reply
  read_reply-local_path (sent chunks) e = keep_text-local_path (gather [] chunks) e
  read_reply-local_path refused e = refl
  read_reply-local_path (threw err) e = refl

  ensure_transcript-local_path :
      (e : Episode) → (ensure_transcript stream to_plain_text now e).1.local_path ≡ e.local_path
  unfolding ensure_transcript
  ensure_transcript-local_path e = elim (Bool-cases (not (is_set e.transcript_url))) [
    | inl a ↦ rw a refl
    | inr a ↦ elim (Bool-cases (is_some e.transcript_text)) [
      | inl b ↦ rw (a, b) refl
      | inr b ↦ elim (Bool-cases (tried_lately now e.transcript_fetched_at)) [
        | inl c ↦ rw (a, b, c) refl
        | inr c ↦
            rw (a, b, c)
              (read_reply-local_path (stream (or_else e.transcript_url ""))
                (record e { transcript_fetched_at = some now }))
      ]
    ]
  ]

finish-Keeps : (t : Tools) (now : Stamp) (d : Disk) (e : Episode) → Keeps d e (finish t now d e)
unfolding finish
finish-Keeps t now d e =
    let (path, stays, locks) = process-Keeps t now d e (t.feed e.feed_id) in
    (
      ensure_transcript-local_path t.stream t.to_plain_text now
            (process t now d e (t.feed e.feed_id)).1
          ∙ path,
      stays,
      locks,
    )

-- The episode has this file, and it is there.
abbrev pub HasFile : String → Result → Type 0
HasFile p r =
    (r.escaped ≡ false)
    × (e : Episode) × (r.episode ≡ some e)
    × (e.local_path ≡ some p)
    × (r.disk.exists p ≡ true)

module _ (max_bytes : ℕ) (target_path partial_path : Episode → String)
    (fetch : Episode → Option String → Answer) (sha256 : Bytes → String)
    (message : Failure → String) (finish : Disk → Episode → Disk × Episode × Option String)
    (now : Stamp) where
  handle-HasFile :
      (partial p : String) (d : Disk) (job : DownloadJob) (e : Episode) (f : Failure)
      → d.locked partial ≡ false
      → partial ≢ p
      → e.local_path ≡ some p
      → d.exists p ≡ true
      → HasFile p (
          handle max_bytes target_path partial_path fetch sha256 message finish now partial d job e
            f)
  unfolding handle unlink
  handle-HasFile partial p d job e f free apart path there =
      rw (free, handle, unlink) (refl, e, refl, path, ground (arith, str_eq_iff p partial))

  after_commit-HasFile :
      (partial p : String) (job : DownloadJob) (x : Disk × Episode × Option String)
      → x.0.locked partial ≡ false
      → partial ≢ p
      → x.1.local_path ≡ some p
      → x.0.exists p ≡ true
      → HasFile p (
          after_commit max_bytes target_path partial_path fetch sha256 message finish now partial
            job x)
  unfolding after_commit
  after_commit-HasFile partial p job (d, e, none) free apart path there =
      (refl, e, refl, path, there)
  after_commit-HasFile partial p job (d, e, some err) free apart path there =
      handle-HasFile partial p d job e (raised err) free apart path there

  replace-ok :
      (p q : String) (d : Disk)
      → d.locked q ≡ false
      → (d' : Disk) × (replace p q d ≡ some d')
        × (d'.exists q ≡ true)
        × ((x : String) → d'.locked x ≡ d.locked x)
  unfolding replace
  replace-ok p q d free = (
    record d {
      exists = λ x. if str_eq x q then true else if str_eq x p then false else d.exists x;
    },
    rw free refl,
    rw (str_eq_refl q) refl,
    λ x. refl,
  )

  settle-HasFile :
      ((d : Disk) (e : Episode) → Keeps d e (finish d e))
      → (d : Disk) (job : DownloadJob) (e : Episode) (content : Bytes)
      → d.locked (target_path e) ≡ false
      → d.locked (partial_path e) ≡ false
      → partial_path e ≢ target_path e
      → HasFile (target_path e) (
          settle max_bytes target_path partial_path fetch sha256 message finish now d job e
            (got content))
  unfolding settle keep store
  settle-HasFile keeps d job e content free free' apart =
      let (d', moved, there, locks) = replace-ok (partial_path e) (target_path e) d free in
      let e' = store (target_path e) (sha256 content) now content e in
      let (path, stays, locks') = keeps d' e' in
      rw (moved, keep)
        (after_commit-HasFile (partial_path e) (target_path e) _ (finish d' e')
          (locks' _ ∙ locks _ ∙ free') apart path (stays _ there))

module _ (t : Tools) (now : Stamp) (max_bytes : ℕ) (target_path partial_path : Episode → String)
    (fetch : Episode → Option String → Answer) (sha256 : Bytes → String)
    (message : Failure → String) where
  abbrev pub run : Disk → DownloadJob → Option Episode → Result
  run = run_job t now max_bytes target_path partial_path fetch sha256 message

  -- What a run makes of a job whose episode has its file.
  abbrev pub AreDone : Result → Type 0
  AreDone r =
      (job : DownloadJob)
      → run r.disk job r.episode
        ≡ record { job = mark_done now job; episode = r.episode; disk = r.disk; escaped = false }

  HasFile-AreDone : (p : String) (r : Result) → HasFile p r → AreDone r
  unfolding run_job run_with run_by
  HasFile-AreDone p r (whole, e, same, path, there) job =
      let here : has_file r.disk e.local_path ≡ true = ap (has_file r.disk) path ∙ there in
      let again : run r.disk job (some e)
          ≡ record { job = mark_done now job; episode = some e; disk = r.disk; escaped = false } =
        rw (here, run_by) refl in
      ap (run r.disk job) same
      ∙ again
      ∙ ap
          (λ (o : Option Episode). record {
            job = mark_done now job;
            episode = o;
            disk = r.disk;
            escaped = false;
          })
          (sym same)

  -- A body that is accepted is stored for good: whether the processing and the transcript after it
  -- work or fail, and the job goes back to the queue, the episode has its file, and any further run
  -- for it finds the file there and is done without a fetch.
  pub run_job_again :
      (d : Disk) (job : DownloadJob) (e : Episode) (content : Bytes)
      → has_file d e.local_path ≡ false
      → is_set e.enclosure_url ≡ true
      → transfer max_bytes (fetch e e.enclosure_url) ≡ got content
      → d.locked (target_path e) ≡ false
      → d.locked (partial_path e) ≡ false
      → partial_path e ≢ target_path e
      → let r = run d job (some e) in HasFile (target_path e) r × AreDone r
  unfolding run_job run_with run_by
  run_job_again d job e content gone url arrived free free' apart =
      let stored : HasFile (target_path e) (run d job (some e)) =
        rw (gone, url, run_by, arrived)
          (settle-HasFile max_bytes target_path partial_path fetch sha256 message (finish t now) now
            (finish-Keeps t now) d job e content free free' apart) in
      (stored, HasFile-AreDone (target_path e) (run d job (some e)) stored)
