-- ===== src/AutoDownload/Protect.antt =====
-- Asking for an episode protects it: `enqueue_download` and `_record_request` of src/podarium/services.py
-- against `_protected_episode_ids` of src/podarium/jobs/refresh.py.
use podarium.Prelude.{
  ℕ, ◌≡◌, refl, arith, sym, ap, subst, ◌∙◌, String, Bool, true, false, ◌&&◌, ◌||◌, not, Option,
  none, some, List, [], ◌∷◌, ◌++◌, map, ◌==◌, ==_refl, ==_iff, if◌then◌else◌, is_some, contains,
  any, filter, find, Bool-cases, Option-cases, inl, inr,
}
use podarium.Model.Enums.{Stamp, JobSource, is_auto}
use podarium.Model.Episode.{Episode, EpisodeState, QueueItem}
use podarium.Model.Job.{DownloadJob}
use podarium.Timeline.{is_set}
use podarium.Disk.{Disk, drop_processed, unlink_set, forget_processed}
use podarium.Downloads.{
  is_live_for, live_job, new_job, record_request, forget_missing, take_over, update_job, Enqueued,
  enqueue_job, enqueue_by, enqueue_checked, enqueue_download,
}
use podarium.Downloads.Enqueue.{alone, insert_or_find-alone}
use podarium.Retention.{protected_episode_ids}
use podarium.AutoDownload.{auto_protected_ids}

-- A job that somebody asked for.
abbrev is_asked : ℕ → DownloadJob → Bool
is_asked id j = j.episode_id == id && not (is_auto j.source)

contains-append :
    (x : ℕ) (xs ys : List ℕ) → contains x (xs ++ ys) ≡ (contains x xs || contains x ys)
contains-append x [] ys = refl
contains-append x (y ∷ xs) ys = ground (arith, contains-append x xs ys)

contains-rows :
    (x : ℕ) (rows : List Episode) → contains x (map (λ e. e.id) rows) ≡ any (λ e. e.id == x) rows
contains-rows x [] = refl
contains-rows x (e ∷ rows) = ground (arith, contains-rows x rows, ==_iff x e.id, ==_iff e.id x)

contains-asked :
    (x : ℕ) (ids : List ℕ) (jobs : List DownloadJob)
    → contains x ids ≡ true
    → any (is_asked x) jobs ≡ true
    → contains x (
        map
          (λ j. j.episode_id)
          (filter (λ j. not (is_auto j.source) && contains j.episode_id ids) jobs))
      ≡ true
contains-asked x ids [] known h = absurd (ground arith)
contains-asked x ids (j ∷ jobs) known h = elim (Bool-cases (j.episode_id == x)) [
  | inl same ↦
      let eq = (==_iff j.episode_id x).0 same in
      let there : contains j.episode_id ids ≡ true = ap (λ y. contains y ids) eq ∙ known in
      ground (arith, ==_iff x j.episode_id, sym eq, contains-asked x ids jobs known)
  | inr other ↦ ground (arith, contains-asked x ids jobs known)
]

asked_of_find :
    (x : ℕ) (f : DownloadJob → DownloadJob) (p : DownloadJob → Bool) (jobs : List DownloadJob)
    {j : DownloadJob}
    → find p jobs ≡ some j
    → is_asked x (f j) ≡ true
    → any (is_asked x) (map f jobs) ≡ true
asked_of_find x f p [] h k = absurd (ground arith)
asked_of_find x f p (i ∷ jobs) {j} h k = elim (Bool-cases (p i)) [
  | inl e ↦
      let first : j ≡ i = ground arith in rw (subst (λ y. is_asked x (f y) ≡ true) first k) refl
  | inr e ↦ ground (arith, asked_of_find x f p jobs {j = j} (ground arith) k)
]

find-live :
    (x : ℕ) (jobs : List DownloadJob) {j : DownloadJob}
    → find (is_live_for x) jobs ≡ some j
    → (j.episode_id == x) ≡ true
find-live x [] h = absurd (ground arith)
find-live x (i ∷ jobs) {j} h = elim (Bool-cases (is_live_for x i)) [
  | inl e ↦
      let first : i ≡ j = ground arith in
      subst (λ (y : DownloadJob). (y.episode_id == x) ≡ true) first (ground arith)
  | inr e ↦ find-live x jobs {j = j} (ground arith)
]

forget_missing-id :
    (d : Disk) (e : Episode) (o : Option String) {d' : Disk} {e' : Episode}
    → forget_missing d e o ≡ some (d', e')
    → e'.id ≡ e.id
unfolding forget_missing drop_processed forget_processed
forget_missing-id d e none {d'} {e'} h = ground arith
forget_missing-id d e (some p) {d'} {e'} h = elim (Bool-cases (d.exists p)) [
  | inl b ↦ ground arith
  | inr b ↦ elim (Option-cases (unlink_set e.processed_path d)) [
    | inl m ↦ absurd (ground arith)
    | inr (d'', m) ↦ ground arith
  ]
]

module _ (fresh : ℕ) (now : Stamp) (source : JobSource) (asked : is_auto source ≡ false) where
  take_over-asked :
      (x : ℕ) (j : DownloadJob)
      → (j.episode_id == x) ≡ true
      → is_asked x (take_over now source j) ≡ true
  unfolding take_over
  take_over-asked x j h = ground (arith, asked)

  enqueue_job-asked :
      (e : Episode) (jobs : List DownloadJob) (o : Option DownloadJob)
      → live_job e.id jobs ≡ o
      → any (is_asked e.id) (enqueue_job alone alone fresh now e source o jobs).1 ≡ true
  unfolding enqueue_job update_job live_job new_job
  enqueue_job-asked e jobs none h =
      rw (insert_or_find-alone fresh fresh now now e source jobs h)
        (ground (arith, asked, ==_refl e.id))
  enqueue_job-asked e jobs (some j) h =
      asked_of_find e.id (λ k. if k.id == j.id then take_over now source k else k)
        (is_live_for e.id) jobs h
        (rw (==_refl j.id) (take_over-asked e.id j (find-live e.id jobs h)))

  record_request-asked :
      (e : Episode) (jobs : List DownloadJob)
      → any (is_asked e.id) (record_request fresh now e source jobs) ≡ true
  unfolding record_request new_job
  record_request-asked e jobs = ground (arith, asked, ==_refl e.id)

  enqueue_by-asked :
      (here fetchable : Bool) (e : Episode) (jobs : List DownloadJob)
      → (here || fetchable) ≡ true
      → any (is_asked e.id) (enqueue_by alone alone fresh now here fetchable e source jobs).1 ≡ true
  unfolding enqueue_by
  enqueue_by-asked true fetchable e jobs h = rw asked (record_request-asked e jobs)
  enqueue_by-asked false false e jobs h = absurd (ground arith)
  enqueue_by-asked false true e jobs h = enqueue_job-asked e jobs (live_job e.id jobs) refl

  -- What somebody asks for is protected from the window of automatic downloads. If nobody else commits
  -- in between, and the episode has its file or has something to fetch, then whatever jobs there were
  -- before, the request leaves the episode among the protected ones of its show, also if nothing is
  -- queued or starred: it adds a job, takes an automatic one over, or is recorded where there is
  -- nothing to do.
  pub enqueue_download-protects :
      (d : Disk) (e : Episode) (jobs : List DownloadJob) (queue : List QueueItem)
      (states : List EpisodeState) (rows : List Episode) {r : Enqueued}
      → any (λ x. x.id == e.id) rows ≡ true
      → enqueue_download alone alone fresh now d e source jobs ≡ some r
      → (is_some r.episode.local_path || is_set r.episode.enclosure_url) ≡ true
      → contains e.id (auto_protected_ids queue states r.jobs rows) ≡ true
  unfolding enqueue_download enqueue_checked auto_protected_ids
  enqueue_download-protects d e jobs queue states rows {r} known h able =
      elim (Option-cases (forget_missing d e e.local_path)) [
        | inl m ↦ absurd (ground arith)
        | inr ((d', e'), m) ↦
            let same : enqueue_checked alone alone fresh now d' e' source jobs ≡ r = ground arith in
            let able' : (is_some e'.local_path || is_set e'.enclosure_url) ≡ true =
              subst
                (λ (x : Enqueued).
                  (is_some x.episode.local_path || is_set x.episode.enclosure_url) ≡ true)
                (sym same) able in
            let left : any (is_asked e'.id) r.jobs ≡ true =
              subst (λ (x : Enqueued). any (is_asked e'.id) x.jobs ≡ true) same
                (enqueue_by-asked (is_some e'.local_path) (is_set e'.enclosure_url) e' jobs
                  able') in
            let left' : any (is_asked e.id) r.jobs ≡ true =
              subst (λ i. any (is_asked i) r.jobs ≡ true) (forget_missing-id d e e.local_path m)
                left in
            let asked_here =
              contains-asked e.id (map (λ x. x.id) rows) r.jobs (contains-rows e.id rows ∙ known)
                left' in
            contains-append e.id (protected_episode_ids queue states) _
            ∙ rw asked_here (ground arith)
      ]
