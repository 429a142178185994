-- ===== src/Reconcile/Tests.antt =====
-- Trimming was turned off for one show and on for another.
use podarium.Prelude.{◌≡◌, refl, String, true, false, none, some, [], ◌∷◌, str_eq, if◌then◌else◌}
use podarium.Model.Episode.{Episode}
use podarium.Model.Feed.{Feed}
use podarium.Samples.{episode, feed, settings, full_disk}
use podarium.Disk.{unlink, unlink_set, forget_processed, drop_processed}
use podarium.Audio.{
  wanted, recipe, is_plausible, original_size, with_copy, accept, process_source, process_episode,
  trim_map, measure_removed, map_is_credible, removed_from_silences, parse_silences,
}
use podarium.Reconcile.{
  is_unwanted, is_pending, is_unmeasured, reclaim, measure_row, measure_rows, Outcome, process_rows,
  reconcile_rest, reconcile_processing,
}
use podarium.Reconcile.InLine.{AreInLine, reconcile_processing-AreInLine}

program : Unit {0}
unfolding unlink unlink_set forget_processed drop_processed wanted recipe is_plausible original_size
    with_copy accept process_source process_episode trim_map measure_removed map_is_credible
    removed_from_silences parse_silences is_unwanted is_pending is_unmeasured reclaim measure_row
    measure_rows process_rows reconcile_rest reconcile_processing
program = tt

abbrev trimmed : Episode
trimmed = record episode {
  local_path = some "1.mp3";
  local_bytes = some 10;
  processed_path = some "1.trim.mp3";
  processed_recipe = some "trim3";
  processed_bytes = some 9;
}

abbrev whole : Episode
whole = record episode { id = 2; local_path = some "2.mp3"; local_bytes = some 10 }

abbrev trimming : Feed
trimming = record feed { trim_silence = some true }

-- Nothing can be measured.
abbrev outcome : Outcome
outcome = record {
  disk = record full_disk {
    exists =
        λ q. if str_eq q "2.mp3.out" then true else if str_eq q "1.trim.mp3" then false else true;
  };
  rows =
      (
        record trimmed { processed_path = none; processed_recipe = none; processed_bytes = none },
        feed,
      )
      ∷ (
        record whole {
          processed_path = some "2.mp3.out";
          processed_bytes = some 8;
          processed_recipe = some "trim3";
          processed_at = some 5;
        },
        trimming,
      )
      ∷ [];
  failed = [];
  work = 2;
}

abbrev target : String → String
target p = if str_eq p "2.mp3" then "2.mp3.out" else p

ran :
    reconcile_processing true true target target
      (λ p w. some 8)
      (λ p. none)
      (λ p. 0)
      (λ p. none)
      (λ m. "")
      (λ e. true)
      5
      settings
      1
      []
      full_disk
      ((trimmed, feed) ∷ (whole, trimming) ∷ [])
    ≡ some outcome
unfolding program
ran = refl

reconcile_processing-AreInLine_example : AreInLine true settings outcome.rows
reconcile_processing-AreInLine_example =
    reconcile_processing-AreInLine true true target target (λ p w. some 8) (λ p. none) (λ p. 0)
      (λ p. none) (λ m. "") (λ e. true) 5 settings 1 [] full_disk
      ((trimmed, feed) ∷ (whole, trimming) ∷ []) ran
