-- ===== src/Timeline/Tests.antt =====
-- Runs of the two clocks, and their theorems at a concrete map.
use podarium.Prelude.{
  ℕ, ◌+◌, ◌*◌, ◌≤◌, ◌≡◌, inr, refl, arith, false, String, Option, some, none, List, [], ◌∷◌,
  sort_by, insert_sorted,
}
use podarium.Prelude.Int.{ℤ, pos, negsuc}
use podarium.Model.Episode.{Episode}
use podarium.Timeline.{
  Interval, pair_le, proper, removed_from, to_processed, original_from, to_original, served_version,
  ratio, int_seconds, round_div, removed_intervals, outbound, heard_on, inbound, processed,
}
use podarium.Timeline.Cuts.{
  IsCuts, to_processed-to_original, to_original-to_processed, to_processed_mono,
}
use podarium.Timeline.Clock.{outbound-inbound, outbound-inbound_original}

program : Unit {0}
unfolding pair_le proper removed_from to_processed original_from to_original served_version ratio
    int_seconds round_div removed_intervals outbound heard_on inbound sort_by insert_sorted
program = tt

-- Ten seconds cut at 0:20, and 1.4 at 1:00.
abbrev cuts : List Interval
cuts = (20000, 30000) ∷ (60000, 61400) ∷ []

cuts-IsCuts : IsCuts 0 cuts
cuts-IsCuts = omega arith

there : to_processed 62000 cuts ≡ pos 50600
unfolding program
there = refl

inside : to_processed 25000 cuts ≡ pos 20000
unfolding program
inside = refl

back : to_original 50600 cuts ≡ 62000
unfolding program
back = refl

-- Two intervals that overlap are taken out twice, so the clock can go below zero.
overlap : to_processed 10000 ((0, 10000) ∷ (5000, 10000) ∷ []) ≡ negsuc 4999
unfolding program
overlap = refl

-- A reader of one map.
abbrev loads : String → Option (List (ℤ × ℤ))
loads s = some ((pos 60000, pos 61400) ∷ (pos 20000, pos 30000) ∷ (pos 5, pos 5) ∷ [])

abbrev episode : Option String → Episode
episode path = record {
  id = 1;
  feed_id = 1;
  guid = "g";
  title = none;
  description_html = none;
  image_url = none;
  episode_number = none;
  season = none;
  explicit = false;
  published_at = none;
  first_seen_at = 0;
  duration_seconds = none;
  enclosure_url = none;
  enclosure_type = none;
  enclosure_bytes = none;
  chapters_url = none;
  chapters_json = none;
  chapters_fetched_at = none;
  transcript_url = none;
  transcript_type = none;
  transcript_text = none;
  transcript_fetched_at = none;
  processed_path = path;
  processed_bytes = none;
  processed_recipe = none;
  trim_map_json = some "[[20,30],[60,61.4]]";
  source_duration_seconds = none;
  processed_duration_seconds = none;
  processed_at = none;
  audio_sha256 = none;
  replaced_at = none;
  local_path = none;
  local_bytes = none;
  downloaded_at = none;
  purged_at = none;
  updated_at = 0;
}

map_known : removed_intervals loads (episode (some "1.processed.mp3")) ≡ some cuts
unfolding program
map_known = refl

-- 50 s on the trimmed copy are 60 s on the original.
reported : inbound loads (episode (some "1.processed.mp3")) 50 none ≡ 60
unfolding program
reported = refl

reported_on_original : inbound loads (episode (some "1.processed.mp3")) 50 (some "o") ≡ 50
unfolding program
reported_on_original = refl

to_processed-to_original_example : to_processed (to_original 50600 cuts) cuts ≡ pos 50600
to_processed-to_original_example = to_processed-to_original 50600 cuts cuts-IsCuts

to_original-to_processed_example :
    (p : ℕ) × (to_processed 62000 cuts ≡ pos p) × (to_original p cuts ≡ 62000)
to_original-to_processed_example =
    to_original-to_processed 62000 cuts cuts-IsCuts (inr (omega arith), (inr (omega arith), tt))

to_processed_mono_example :
    (a : ℕ) × (b : ℕ) × (to_processed 25000 cuts ≡ pos a)
    × (to_processed 62000 cuts ≡ pos b)
    × (a ≤ b)
    × (b ≤ a + 37000)
to_processed_mono_example = to_processed_mono 25000 62000 cuts cuts-IsCuts (omega arith)

named : heard_on loads (episode (some "1.processed.mp3")) (some processed) ≡ processed
unfolding program
named = refl

outbound-inbound_example :
    (d : ℕ) × (outbound loads
        (episode (some "1.processed.mp3"))
        (some (inbound loads (episode (some "1.processed.mp3")) 51 (some processed) * 1000))
      ≡ some (pos d))
    × (d ≤ 51)
    × (51 ≤ d + 1)
outbound-inbound_example =
    outbound-inbound loads (episode (some "1.processed.mp3")) refl map_known cuts-IsCuts
      (some processed) named 51

outbound-inbound_original_example :
    outbound loads (episode none) (some (inbound loads (episode none) 51 none * 1000))
    ≡ some (pos 51)
outbound-inbound_original_example = outbound-inbound_original loads (episode none) 51 refl
