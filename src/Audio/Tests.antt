-- ===== src/Audio/Tests.antt =====
-- Silences and a processing, at concrete inputs.
use podarium.Prelude.{◌≡◌, refl, arith, true, some, none, List, [], ◌∷◌}
use podarium.Prelude.Int.{pos}
use podarium.Model.Episode.{Episode}
use podarium.Model.Feed.{Feed}
use podarium.Samples.{episode, feed, settings, full_disk}
use podarium.Timeline.{to_processed, to_original}
use podarium.Timeline.Cuts.{IsCuts}
use podarium.Audio.{
  SilenceLine, start, end, parse_silences, removed_from_silences, map_is_credible, wanted, recipe,
  process_episode,
}
use podarium.Audio.Silence.{parse_silences-IsCuts}
use podarium.Audio.Process.{IsProcessed, process_episode-IsProcessed}

program : Unit {0}
unfolding parse_silences removed_from_silences map_is_credible wanted recipe
program = tt

-- A silence at the start, one that is too short, and one of three seconds.
abbrev lines : List SilenceLine
lines = start 0 ∷ end 2000 ∷ start 5000 ∷ end 5500 ∷ start 9000 ∷ end 12000 ∷ start 15000 ∷ []

cut : removed_from_silences (parse_silences none lines) ≡ (9870, 12000) ∷ []
unfolding program
cut = refl

credible : map_is_credible ((9870, 12000) ∷ []) (some 20000) (some 17870) ≡ true
unfolding program
credible = refl

parse_silences-IsCuts_example :
    IsCuts 0 (removed_from_silences (parse_silences none lines))
    × (to_processed
          (to_original 10000 (removed_from_silences (parse_silences none lines)))
          (removed_from_silences (parse_silences none lines))
        ≡ pos 10000)
parse_silences-IsCuts_example = parse_silences-IsCuts lines 10000 (omega arith)

-- A show that wants trimming.
abbrev trimmed : Feed
trimmed = record feed { trim_silence = some true }

abbrev downloaded : Episode
downloaded = record episode { local_path = some "1.m4a"; local_bytes = some 100 }

asked : recipe (wanted true trimmed settings) ≡ some "trim3"
unfolding program
asked = refl

process_episode-IsProcessed_example :
    IsProcessed true true
      (λ p. "1.processed.mp3")
      (λ p. "1.part")
      (λ p s. some 60)
      (λ p. some 20000)
      (λ p. 100)
      (λ p. some lines)
      (λ l. "[]")
      (λ e. true)
      (wanted true trimmed settings)
      full_disk
      downloaded
      (process_episode true true
        (λ p. "1.processed.mp3")
        (λ p. "1.part")
        (λ p s. some 60)
        (λ p. some 20000)
        (λ p. 100)
        (λ p. some lines)
        (λ l. "[]")
        (λ e. true)
        7
        full_disk
        downloaded
        trimmed
        settings)
process_episode-IsProcessed_example =
    process_episode-IsProcessed true true (λ p. "1.processed.mp3") (λ p. "1.part") (λ p s. some 60)
      (λ p. some 20000) (λ p. 100) (λ p. some lines) (λ l. "[]") (λ e. true) 7 full_disk downloaded
      trimmed settings
