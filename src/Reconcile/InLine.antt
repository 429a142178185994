-- ===== src/Reconcile/InLine.antt =====
-- After a pass no copy is left that the settings do not ask for.
use podarium.Prelude.{
  ℕ, suc, zero, ◌≡◌, refl, arith, sym, subst, String, Bool, true, false, ◌&&◌, ◌||◌, not, Option,
  none, some, List, [], ◌∷◌, is_some, contains, str_eq_refl, All, Bool-cases, Option-cases, inl,
  inr,
}
use podarium.Model.Enums.{Stamp}
use podarium.Model.Episode.{Episode}
use podarium.Model.Feed.{Feed, AppSettings}
use podarium.Timeline.{Interval, is_set}
use podarium.Disk.{Disk, unlink_set, forget_processed, drop_processed}
use podarium.Audio.{SilenceLine, wanted, recipe, process_episode}
use podarium.Audio.Process.{IsProcessed, process_episode-IsProcessed}
use podarium.Reconcile.{
  Row, opt_eq, is_unwanted, is_pending, is_unmeasured, measure_batch, Progress, reclaim,
  measure_row, measure_rows, Failed, Outcome, process_rows, reconcile_rest, reconcile_processing,
}

-- A row without a file is not looked at; any other has no copy, or the one that is asked for.
abbrev pub is_in_line : Bool → AppSettings → Row → Bool
is_in_line trimming_available s (e, f) =
    not (is_some e.local_path && is_unwanted (wanted trimming_available f s) e)

abbrev pub AreInLine : Bool → AppSettings → List Row → Type 0
AreInLine trimming_available s rows = All (λ r. is_in_line trimming_available s r ≡ true) rows

opt_eq_refl : (a : Option String) → opt_eq a a ≡ true
opt_eq_refl none = refl
opt_eq_refl (some a) = str_eq_refl a

drop_processed-none :
    (d : Disk) (e : Episode) {d' : Disk} {e' : Episode}
    → drop_processed d e ≡ some (d', e')
    → e'.processed_path ≡ none
unfolding drop_processed forget_processed
drop_processed-none d e {d'} {e'} h = elim (Option-cases (unlink_set e.processed_path d)) [
  | inl k ↦ absurd (ground arith)
  | inr (d1, k) ↦ ground arith
]

unwanted_none :
    (settings : Bool × Bool) (e : Episode)
    → e.processed_path ≡ none
    → is_unwanted settings e ≡ false
unfolding is_unwanted
unwanted_none settings e h = rw h refl

and_false : (b c : Bool) → c ≡ false → not (b && c) ≡ true
and_false b c h = ground arith

and_nothing : (b : Bool) → (b && false) ≡ false
and_nothing b = ground arith

module _ (ta : Bool) (s : AppSettings) where
  abbrev Reclaimed : Option Progress → Type 0
  Reclaimed none = Unit
  Reclaimed (some p) = AreInLine ta s p.rows

  reclaim-Reclaimed : (rows : List Row) (d : Disk) → Reclaimed (reclaim ta s d rows)
  unfolding reclaim
  reclaim-Reclaimed [] d = tt
  reclaim-Reclaimed ((e, f) ∷ rows) d =
      elim (Bool-cases (is_some e.local_path && is_unwanted (wanted ta f s) e)) [
        | inl bad ↦ elim (Option-cases (drop_processed d e)) [
          | inl k ↦ rw (bad, k) tt
          | inr ((d', e'), k) ↦ elim (Option-cases (reclaim ta s d' rows)) [
            | inl k1 ↦ rw (bad, k, k1) tt
            | inr (p, k1) ↦
                rw (bad, k, k1)
                  (
                    and_false (is_some e'.local_path) _
                        (unwanted_none (wanted ta f s) e' (drop_processed-none d e k)),
                    subst Reclaimed k1 (reclaim-Reclaimed rows d'),
                  )
          ]
        ]
        | inr good ↦ elim (Option-cases (reclaim ta s d rows)) [
          | inl k1 ↦ rw (good, k1) tt
          | inr (p, k1) ↦
              rw (good, k1) (rw good refl, subst Reclaimed k1 (reclaim-Reclaimed rows d))
        ]
      ]

  module _ (probe : String → Option ℕ) where
    measure_row-in_line :
        (f : Feed) (d : Disk) (e : Episode) (source target : Option String)
        → is_in_line ta s (e, f) ≡ true
        → is_in_line ta s ((measure_row ta s probe d e source target).1, f) ≡ true
    unfolding measure_row is_unwanted
    measure_row-in_line f d e none target h = h
    measure_row-in_line f d e (some source) none h = h
    measure_row-in_line f d e (some source) (some target) h =
        elim (Bool-cases
          (is_set (some source) && is_set (some target) && d.exists source && d.exists target)) [
            | inl b ↦ rw b h
            | inr b ↦ rw b h
          ]

    measure_rows-AreInLine :
        (n : ℕ) (d : Disk) (rows : List Row)
        → AreInLine ta s rows
        → AreInLine ta s (measure_rows ta s probe n d rows).1
    unfolding measure_rows
    measure_rows-AreInLine n d [] h = tt
    measure_rows-AreInLine zero d (r ∷ rows) h = h
    measure_rows-AreInLine (suc n) d ((e, f) ∷ rows) h =
        elim (Bool-cases (is_unmeasured (wanted ta f s) e)) [
          | inl b ↦ rw b (
            measure_row-in_line f d e e.local_path e.processed_path h.0,
            measure_rows-AreInLine n d rows h.1,
          )
          | inr b ↦ rw b (h.0, measure_rows-AreInLine (suc n) d rows h.1)
        ]

module _ (ffmpeg_available ta : Bool) (processed_path_for partial_for : String → String)
    (encode : String → Bool × Bool → Option ℕ) (probe : String → Option ℕ) (file_size : String → ℕ)
    (detect : String → Option (List SilenceLine)) (dumps : List Interval → String)
    (commits : Episode → Bool) (now : Stamp) (s : AppSettings) where
  abbrev processed : Disk → Episode → Feed → Bool × Disk × Episode
  processed d e f =
      process_episode ffmpeg_available ta processed_path_for partial_for encode probe file_size
        detect dumps commits now d e f s

  made_in_line :
      (settings : Bool × Bool) (e : Episode)
      → (settings.0 || settings.1) ≡ true
      → e.processed_recipe ≡ recipe settings
      → is_unwanted settings e ≡ false
  unfolding is_unwanted
  made_in_line settings e any made =
      rw (any, made, opt_eq_refl (recipe settings)) (and_nothing (is_set e.processed_path))

  processed-in_line :
      (d : Disk) (e : Episode) (f : Feed) (r : Bool × Disk × Episode)
      → is_pending (wanted ta f s) e ≡ true
      → is_in_line ta s (e, f) ≡ true
      → IsProcessed ffmpeg_available ta processed_path_for partial_for encode probe file_size detect
          dumps commits
          (wanted ta f s)
          d
          e
          r
      → is_in_line ta s (r.2, f) ≡ true
  unfolding is_pending
  processed-in_line d e f (true, d', e') pending h
        (x, n, p0, p1, p2, p3, p4, made, p5, p6, p7, p8, p9) =
      and_false (is_some e'.local_path) _ (made_in_line (wanted ta f s) e' (ground arith) made)
  processed-in_line d e f (false, d', e') pending h (same, p0) =
      subst (λ x. is_in_line ta s (x, f) ≡ true) (sym same) h

  process_rows-AreInLine :
      (n : ℕ) (resting : List ℕ) (d : Disk) (failed : Failed) (rows : List Row)
      → AreInLine ta s rows
      → AreInLine ta s
          (process_rows ffmpeg_available ta processed_path_for partial_for encode probe file_size
            detect dumps commits now s n resting d failed rows).rows
  unfolding process_rows
  process_rows-AreInLine n resting d failed [] h = tt
  process_rows-AreInLine zero resting d failed (r ∷ rows) h = h
  process_rows-AreInLine (suc n) resting d failed ((e, f) ∷ rows) h =
      elim (Bool-cases (is_pending (wanted ta f s) e && not (contains e.id resting))) [
        | inr idle ↦ rw idle (h.0, process_rows-AreInLine (suc n) resting d failed rows h.1)
        | inl due ↦
            let fine = processed-in_line d e f (processed d e f) (ground arith) h.0 (
              process_episode-IsProcessed ffmpeg_available ta processed_path_for partial_for encode
                probe file_size detect dumps commits now d e f s) in
            elim (Bool-cases (processed d e f).0) [
              | inl ok ↦
                  rw (due, ok)
                    (fine, process_rows-AreInLine n resting (processed d e f).1 failed rows h.1)
              | inr no_copy ↦
                  rw (due, no_copy)
                    (fine, process_rows-AreInLine n resting (processed d e f).1 _ rows h.1)
            ]
      ]

  abbrev IsReconciled : Option Outcome → Type 0
  IsReconciled none = Unit
  IsReconciled (some o) = AreInLine ta s o.rows

  reconcile_rest-IsReconciled :
      (limit : ℕ) (failed : Failed) (p : Option Progress)
      → Reclaimed ta s p
      → IsReconciled (
          reconcile_rest ffmpeg_available ta processed_path_for partial_for encode probe file_size
            detect dumps commits now s limit failed p)
  unfolding reconcile_rest
  reconcile_rest-IsReconciled limit failed none h = tt
  reconcile_rest-IsReconciled limit failed (some p) h =
      process_rows-AreInLine limit _ p.disk _ _
        (measure_rows-AreInLine ta s probe measure_batch p.disk p.rows h)

  -- After a pass that ends without an error of the disk, no downloaded episode has a copy but the one
  -- that the settings of its show ask for, whatever copies there were before and whichever encodings
  -- fail.
  pub reconcile_processing-AreInLine :
      (limit : ℕ) (failed : Failed) (d : Disk) (rows : List Row) {o : Outcome}
      → reconcile_processing ffmpeg_available ta processed_path_for partial_for encode probe
          file_size detect dumps commits now s limit failed d rows
        ≡ some o
      → AreInLine ta s o.rows
  unfolding reconcile_processing
  reconcile_processing-AreInLine limit failed d rows h = subst IsReconciled h (
      reconcile_rest-IsReconciled limit failed (reclaim ta s d rows)
        (reclaim-Reclaimed ta s rows d))
