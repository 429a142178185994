-- ===== src/Reconcile.antt =====
-- Bringing the trimmed copies in line with the settings: `reconcile_processing` of
-- src/podarium/jobs/audio.py. A row of the query is an episode with its feed; logging is left out.
pub mod InLine
mod Tests
use podarium.Prelude.{
  ℕ, suc, zero, ◌+◌, ◌*◌, String, Bool, true, false, ◌&&◌, ◌||◌, not, Option, none, some, List, [],
  ◌∷◌, leb, ltb, ◌==◌, if◌then◌else◌, is_some, is_none, filter, map, contains, str_eq,
}
use podarium.Model.Enums.{Stamp, seconds}
use podarium.Model.Episode.{Episode}
use podarium.Model.Feed.{Feed, AppSettings}
use podarium.Timeline.{Interval, is_set}
use podarium.Disk.{Disk, drop_processed}
use podarium.Audio.{SilenceLine, wanted, recipe, process_episode}

abbrev pub Row : Type 0
Row = Episode × Feed

abbrev pub opt_eq : Option String → Option String → Bool
opt_eq none none = true
opt_eq none (some b) = false
opt_eq (some a) none = false
opt_eq (some a) (some b) = str_eq a b

-- A copy that is not the file that the settings ask for.
unfoldable pub is_unwanted : Bool × Bool → Episode → Bool
is_unwanted settings e =
    is_set e.processed_path
    && (not (settings.0 || settings.1) || not (opt_eq e.processed_recipe (recipe settings)))

unfoldable pub is_pending : Bool × Bool → Episode → Bool
is_pending settings e =
    is_some e.local_path && (settings.0 || settings.1) && not (is_set e.processed_path)

unfoldable pub is_unmeasured : Bool × Bool → Episode → Bool
is_unmeasured settings e =
    is_some e.local_path
    && (settings.0 || settings.1)
    && is_set e.processed_path
    && (is_none e.processed_duration_seconds || is_none e.source_duration_seconds)

abbrev pub measure_batch : ℕ
measure_batch = 25

abbrev pub failure_backoff : Stamp
failure_backoff = seconds (6 * 60 * 60)

-- The disk and the rows, and how much was done.
pub record Progress : Type 0 where
  pub disk : Disk
  pub rows : List Row
  pub work : ℕ

module _ (trimming_available : Bool) (s : AppSettings) where
  -- The first loop; `none` is an error of the disk, after which nothing is committed.
  unfoldable pub reclaim : Disk → List Row → Option Progress
  unfolding is_unwanted
  reclaim d [] = some (record { disk = d; rows = []; work = 0 })
  reclaim d ((e, f) ∷ rows) =
      let rest = λ (d' : Disk). reclaim d' rows in
      if is_some e.local_path && is_unwanted (wanted trimming_available f s) e
      then elim (drop_processed d e) [
        | none ↦ none
        | some (d', e') ↦ elim (rest d') [
          | none ↦ none
          | some p ↦ some (record p { rows = (e', f) ∷ p.rows; work = suc p.work })
        ]
      ]
      else elim (rest d) [ none ↦ none | some p ↦ some (record p { rows = (e, f) ∷ p.rows }) ]

  module _ (probe : String → Option ℕ) where
    -- Both durations, where both files are there.
    unfoldable pub measure_row : Disk → Episode → Option String → Option String → Bool × Episode
    measure_row d e (some source) (some target) =
        if is_set (some source) && is_set (some target) && d.exists source && d.exists target
        then (
          true,
          record e {
            source_duration_seconds = probe source;
            processed_duration_seconds = probe target;
          },
        )
        else (false, e)
    measure_row d e source target = (false, e)

    -- Of the first `n` rows that have not been measured.
    unfoldable pub measure_rows : ℕ → Disk → List Row → ℕ × List Row
    unfolding measure_row is_unmeasured
    measure_rows n d [] = (0, [])
    measure_rows zero d (r ∷ rows) = (0, r ∷ rows)
    measure_rows (suc n) d ((e, f) ∷ rows) =
        let tried = measure_rows n d rows in
        let skipped = measure_rows (suc n) d rows in
        let m = measure_row d e e.local_path e.processed_path in
        if is_unmeasured (wanted trimming_available f s) e
        then (if m.0 then suc tried.0 else tried.0, (m.1, f) ∷ tried.1)
        else (skipped.0, (e, f) ∷ skipped.1)

-- The episodes that failed, each with the moment until which it is left alone.
abbrev pub Failed : Type 0
Failed = List (ℕ × Stamp)

pub record Outcome : Type 0 where
  pub disk : Disk
  pub rows : List Row
  pub failed : Failed
  pub work : ℕ

module _ (ffmpeg_available trimming_available : Bool)
    (processed_path_for partial_for : String → String) (encode : String → Bool × Bool → Option ℕ)
    (probe : String → Option ℕ) (file_size : String → ℕ)
    (detect : String → Option (List SilenceLine)) (dumps : List Interval → String)
    (commits : Episode → Bool) (now : Stamp) (s : AppSettings) where
  -- The last loop: the first `limit` rows that wait and have not failed of late.
  unfoldable pub process_rows : ℕ → List ℕ → Disk → Failed → List Row → Outcome
  unfolding process_episode is_pending
  process_rows limit resting d failed [] = record { disk = d; rows = []; failed = failed; work = 0 }
  process_rows zero resting d failed (r ∷ rows) = record {
    disk = d;
    rows = r ∷ rows;
    failed = failed;
    work = 0;
  }
  process_rows (suc n) resting d failed ((e, f) ∷ rows) =
      let r =
        process_episode ffmpeg_available trimming_available processed_path_for partial_for encode
          probe file_size detect dumps commits now d e f s in
      let success = process_rows n resting r.1 failed rows in
      let failing = process_rows n resting r.1 ((e.id, now + failure_backoff) ∷ failed) rows in
      let skipped = process_rows (suc n) resting d failed rows in
      if is_pending (wanted trimming_available f s) e && not (contains e.id resting)
      then if r.0
        then record success { rows = (r.2, f) ∷ success.rows; work = suc success.work }
        else record failing { rows = (r.2, f) ∷ failing.rows }
      else record skipped { rows = (e, f) ∷ skipped.rows }

  -- Over what has been reclaimed.
  unfoldable pub reconcile_rest : ℕ → Failed → Option Progress → Option Outcome
  unfolding measure_rows process_rows
  reconcile_rest limit failed none = none
  reconcile_rest limit failed (some p) =
      let m = measure_rows trimming_available s probe measure_batch p.disk p.rows in
      let live = filter (λ x. not (leb x.1 now)) failed in
      let o = process_rows limit (map (λ x. x.0) live) p.disk live m.1 in
      some (record o { work = o.work + p.work + m.0 })

  unfoldable pub reconcile_processing : ℕ → Failed → Disk → List Row → Option Outcome
  unfolding reclaim reconcile_rest
  reconcile_processing limit failed d rows =
      reconcile_rest limit failed (reclaim trimming_available s d rows)
