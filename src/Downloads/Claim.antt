-- ===== src/Downloads/Claim.antt =====
-- Which job a worker takes.
use podarium.Prelude.{
  ℕ, ◌≤◌, ◌≡◌, refl, arith, Bool, true, false, ◌&&◌, not, none, some, List, [], ◌∷◌, ◌==◌, any,
  filter, length, List-cases, Option-cases, inl, inr, sym, ap, subst, ◌∙◌, All, ==_refl, sort_by,
  sort_by-IsSorted, IsSorted, any-sort_by,
}
use podarium.Model.Enums.{Stamp, running}
use podarium.Model.Job.{DownloadJob}
use podarium.Downloads.{update_job, due_before, is_claimable, mark_running, claim_job}
use podarium.Downloads.Unique.{IsUnique, live_count}

any-filter :
    (p q : DownloadJob → Bool) (jobs : List DownloadJob)
    → any q (filter p jobs) ≡ any (λ x. p x && q x) jobs
any-filter p q [] = refl
any-filter p q (j ∷ jobs) = ground (arith, any-filter p q jobs)

any_none :
    (p : DownloadJob → Bool) (jobs : List DownloadJob)
    → All (λ x. p x ≡ false) jobs
    → any p jobs ≡ false
any_none p [] h = refl
any_none p (j ∷ jobs) h = rw (h.0) (any_none p jobs h.1)

due_before_total : (a b : DownloadJob) → due_before a b ≡ false → due_before b a ≡ true
unfolding due_before
due_before_total a b h = ground arith

due_before_trans :
    (a b c : DownloadJob) → due_before a b ≡ true → due_before b c ≡ true → due_before a c ≡ true
unfolding due_before
due_before_trans a b c h k = ground arith

due_before_refl : (a : DownloadJob) → due_before a a ≡ true
unfolding due_before
due_before_refl a = ground arith

not-All :
    (p : DownloadJob → Bool) (jobs : List DownloadJob)
    → All (λ x. p x ≡ true) jobs
    → All (λ x. not (p x) ≡ false) jobs
not-All p [] h = tt
not-All p (j ∷ jobs) h = (rw (h.0) refl, not-All p jobs h.1)

any-filter_same :
    (p : DownloadJob → Bool) (jobs : List DownloadJob) → any p (filter p jobs) ≡ any p jobs
any-filter_same p [] = refl
any-filter_same p (j ∷ jobs) = ground (arith, any-filter_same p jobs)

module _ (locked : ℕ → Bool) (now : Stamp) where
  abbrev due : List DownloadJob → List DownloadJob
  due jobs = sort_by due_before (filter (is_claimable locked now) jobs)

  any-due :
      (q : DownloadJob → Bool) (jobs : List DownloadJob)
      → any q (due jobs) ≡ any (λ x. is_claimable locked now x && q x) jobs
  any-due q jobs = any-sort_by due_before q _ ∙ any-filter (is_claimable locked now) q jobs

  -- Nothing is claimed exactly where nothing is waiting, due and free, and then nothing changes.
  pub claim_job-none :
      (jobs : List DownloadJob)
      → (claim_job locked now jobs).0 ≡ none
      → (any (is_claimable locked now) jobs ≡ false) × ((claim_job locked now jobs).1 ≡ jobs)
  unfolding claim_job
  claim_job-none jobs h = elim (List-cases (due jobs)) [
    | inl e ↦ (
      sym (any-sort_by due_before (is_claimable locked now) _ ∙ any-filter_same _ jobs)
          ∙ ap (any (is_claimable locked now)) e,
      rw (e, claim_job) refl,
    )
    | inr (k, rest, e) ↦
        let c : (claim_job locked now jobs).0 ≡ some (mark_running now k) =
          rw (e, claim_job) refl in
        absurd (ground arith)
  ]

  abbrev pub Claimed : List DownloadJob → DownloadJob → Type 0
  Claimed jobs j =
      (j.state ≡ running)
      × (any (λ x. is_claimable locked now x && x.id == j.id) jobs ≡ true)
      × (any (λ x. is_claimable locked now x && not (due_before j x)) jobs ≡ false)
      × ((claim_job locked now jobs).1 ≡ update_job j.id (mark_running now) jobs)

  -- The job that is claimed is a row that is waiting, due and free, none of these is due before it,
  -- and the only change of the table is that it runs and is dated.
  pub claim_job-some :
      (jobs : List DownloadJob) {j : DownloadJob}
      → (claim_job locked now jobs).0 ≡ some j
      → Claimed jobs j
  unfolding claim_job
  claim_job-some jobs {j} h = elim (List-cases (due jobs)) [
    | inl e ↦
        let c : (claim_job locked now jobs).0 ≡ none = rw (e, claim_job) refl in
        absurd (ground arith)
    | inr (k, rest, e) ↦
        let c : (claim_job locked now jobs).0 ≡ some (mark_running now k) =
          rw (e, claim_job) refl in
        let sorted : IsSorted due_before (k ∷ rest) =
          subst (IsSorted due_before) e
            (sort_by-IsSorted due_before due_before_total due_before_trans _) in
        let first : mark_running now k ≡ j = ground arith in
        subst (λ x. Claimed jobs x) first
          (
            refl,
            sym (any-due (λ x. x.id == k.id) jobs)
                ∙ ap (any (λ x. x.id == k.id)) e
                ∙ rw (==_refl k.id) refl,
            sym (any-due (λ x. not (due_before k x)) jobs)
                ∙ ap (any (λ x. not (due_before k x))) e
                ∙ any_none _ (k ∷ rest)
                    (not-All (due_before k) (k ∷ rest) (due_before_refl k, sorted.0)),
            rw (e, claim_job) refl,
          )
  ]

  update_job_other :
      (id : ℕ) (jobs : List DownloadJob)
      → length (filter (λ x. x.id == id) jobs) ≡ 0
      → (update_job id (mark_running now) jobs ≡ jobs)
        × (any (λ x. is_claimable locked now x && x.id == id) jobs ≡ false)
  unfolding update_job
  update_job_other id [] h = (refl, refl)
  update_job_other id (j ∷ jobs) h = ground (arith, update_job_other id jobs)

  -- Where ids are unique, only the claimed row changes, and it was live already.
  live_count-mark_running :
      (id e : ℕ) (jobs : List DownloadJob)
      → length (filter (λ x. x.id == id) jobs) ≤ 1
      → any (λ x. is_claimable locked now x && x.id == id) jobs ≡ true
      → live_count e (update_job id (mark_running now) jobs) ≡ live_count e jobs
  unfolding live_count update_job is_claimable
  live_count-mark_running id e [] k h = refl
  live_count-mark_running id e (j ∷ jobs) k h =
      ground (arith, update_job_other id jobs, live_count-mark_running id e jobs)

  -- A claim keeps the index: the job that starts to run is the one that waited.
  pub claim_job-IsUnique :
      (jobs : List DownloadJob)
      → ((id : ℕ) → length (filter (λ x. x.id == id) jobs) ≤ 1)
      → IsUnique jobs
      → IsUnique (claim_job locked now jobs).1
  claim_job-IsUnique jobs keyed u e = elim (Option-cases (claim_job locked now jobs).0) [
    | inl h ↦ rw ((claim_job-none jobs h).1) (u e)
    | inr (j, h) ↦
        let (_, among, _, update) = claim_job-some jobs h in
        rw update
          (subst (λ n. n ≤ 1) (sym (live_count-mark_running j.id e jobs (keyed j.id) among)) (u e))
  ]
