-- ===== src/AutoDownload/Target.antt =====
-- Both halves together: what the setting promises.
use podarium.Prelude.{
  ℕ, suc, ◌≡◌, refl, arith, sym, ap, ap₂, ◌∙◌, subst, Bool, true, false, ◌&&◌, Option, none, some,
  List, [], ◌∷◌, if◌then◌else◌, is_none, contains, All, ◌==◌, Bool-cases, Option-cases, inl, inr,
}
use podarium.Model.Enums.{Stamp, auto, is_never}
use podarium.Model.Episode.{Episode, EpisodeState, QueueItem}
use podarium.Model.Feed.{Feed, AppSettings}
use podarium.Model.Job.{DownloadJob}
use podarium.Settings.{effective_auto_download_count, effective_retention}
use podarium.Disk.{Disk}
use podarium.Downloads.{Enqueued, forget_missing, enqueue_checked, enqueue_download}
use podarium.AutoDownload.{
  window_episode_ids, auto_protected_ids, is_outside, trim_window, Downloaded, fetch_window,
  after_trim, apply_auto_download_window,
}
use podarium.AutoDownload.Trim.{
  IsFree, AreTrimmed, AreGone, Trims, trim_window-Trims, AreTrimmed-All,
}

and_right : (b c : Bool) → (b && c) ≡ true → c ≡ true
and_right b c h = ground arith

module _ (raced later : List DownloadJob → List DownloadJob) (now : Stamp) where
  -- A request for a row without a file changes neither the row nor the disk.
  enqueue_download-episode :
      (fresh : ℕ) (d : Disk) (e : Episode) (jobs : List DownloadJob) {r : Enqueued}
      → is_none e.local_path ≡ true
      → enqueue_download raced later fresh now d e auto jobs ≡ some r
      → (r.episode ≡ e) × (r.disk ≡ d)
  unfolding enqueue_download enqueue_checked forget_missing
  enqueue_download-episode fresh d e jobs {r} h k = ground arith

  abbrev SameRows : Disk → List Episode → Option Downloaded → Type 0
  SameRows d rows none = Unit
  SameRows d rows (some w) = (w.rows ≡ rows) × (w.disk ≡ d)

  fetch_window-SameRows :
      (window : List ℕ) (fresh : ℕ) (d : Disk) (rows : List Episode) (jobs : List DownloadJob)
      → SameRows d rows (fetch_window raced later now window fresh d rows jobs)
  unfolding fetch_window
  fetch_window-SameRows window fresh d [] jobs = (refl, refl)
  fetch_window-SameRows window fresh d (e ∷ rows) jobs =
      elim (Bool-cases (contains e.id window && is_none e.local_path)) [
        | inl miss ↦ elim (Option-cases (enqueue_download raced later fresh now d e auto jobs)) [
          | inl k ↦ rw (miss, k) tt
          | inr (r, k) ↦
              elim (Option-cases
                (fetch_window raced later now window (suc fresh) r.disk rows r.jobs)) [
                  | inl k1 ↦ rw (miss, k, k1) tt
                  | inr (w, k1) ↦
                      let (row, disk) =
                        enqueue_download-episode fresh d e jobs (and_right _ _ miss) k in
                      let (rest, disk') =
                        subst (SameRows r.disk rows) k1
                          (fetch_window-SameRows window (suc fresh) r.disk rows r.jobs) in
                      rw (miss, k, k1) (ap₂ (λ x xs. x ∷ xs) row rest, disk' ∙ disk)
                ]
        ]
        | inr there ↦
            elim (Option-cases (fetch_window raced later now window (suc fresh) d rows jobs)) [
              | inl k1 ↦ rw (there, k1) tt
              | inr (w, k1) ↦
                  let (rest, disk) =
                    subst (SameRows d rows) k1
                      (fetch_window-SameRows window (suc fresh) d rows jobs) in
                  rw (there, k1) (ap (λ xs. e ∷ xs) rest, disk)
            ]
      ]

  after_trim-SameRows :
      (window : List ℕ) (count fresh : ℕ) (jobs : List DownloadJob) (d : Disk) (rows : List Episode)
      → SameRows d rows (after_trim raced later now window count fresh jobs (some (d, rows)))
  unfolding after_trim
  after_trim-SameRows window count fresh jobs d rows = elim (Bool-cases (count == 0)) [
    | inl none_wanted ↦ rw none_wanted (refl, refl)
    | inr wanted ↦ rw wanted (fetch_window-SameRows window fresh d rows jobs)
  ]

  -- Unless the show is kept for ever, and where the disk refuses nothing: where the function ends
  -- without an error, neither the original nor the trimmed copy of any row that had a file, is not in
  -- the window and is not protected is left on the disk, and no such row names a file. The rows in
  -- the window, the protected ones and those without a file are as they were, and the others are the
  -- same episodes without a file.
  pub apply_auto_download_window_target :
      (f : Feed) (s : AppSettings) (queue : List QueueItem) (states : List EpisodeState) (fresh : ℕ)
      (d : Disk) (rows : List Episode) (jobs : List DownloadJob) {w : Downloaded}
      → IsFree d
      → is_never (effective_retention f s).0 ≡ false
      → apply_auto_download_window raced later now f s queue states fresh d rows jobs ≡ some w
      → let window = window_episode_ids rows (effective_auto_download_count f s) in
        let protected = auto_protected_ids queue states jobs rows in
        AreGone window protected w.disk rows
        × AreTrimmed window protected rows w.rows
        × All (λ e. is_outside window protected e ≡ false) w.rows
  unfolding apply_auto_download_window
  apply_auto_download_window_target f s queue states fresh d rows jobs {w} free bounded h =
      let count = effective_auto_download_count f s in
      let window = window_episode_ids rows count in
      let protected = auto_protected_ids queue states jobs rows in
      let trims = trim_window-Trims window protected now d rows free in
      let h' : after_trim raced later now window count fresh jobs
            (trim_window window protected now d rows)
          ≡ some w =
        subst
          (λ b.
            after_trim raced later now window count fresh jobs
              (if b then some (d, rows) else trim_window window protected now d rows)
            ≡ some w)
          bounded h in
      elim (Option-cases (trim_window window protected now d rows)) [
        | inl k ↦ absurd (subst (Trims window protected d rows) k trims)
        | inr ((d1, rows1), k) ↦
            let (_, _, gone, trimmed) = subst (Trims window protected d rows) k trims in
            let h1 =
              subst (λ o. after_trim raced later now window count fresh jobs o ≡ some w) k h' in
            let (same, disk) : (w.rows ≡ rows1) × (w.disk ≡ d1) =
              subst (SameRows d1 rows1) h1 (after_trim-SameRows window count fresh jobs d1 rows1) in
            let all : AreTrimmed window protected rows w.rows =
              subst (AreTrimmed window protected rows) (sym same) trimmed in
            (
              subst (λ x. AreGone window protected x rows) (sym disk) gone,
              all,
              AreTrimmed-All window protected rows w.rows all,
            )
      ]
