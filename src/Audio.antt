-- ===== src/Audio.antt =====
-- The trimmed copies: src/podarium/jobs/audio.py. ffmpeg, ffprobe and the JSON writer are
-- parameters. A duration is in milliseconds; a cancelled encoding, which leaves no trace, is left
-- out, and so are metrics, logging and the pause after a failure.
pub mod Silence
pub mod Process
mod Tests
use podarium.Prelude.{
  ℕ, ◌+◌, ◌-◌, ◌*◌, String, Bool, true, false, ◌&&◌, ◌||◌, not, Option, none, some, List, [], ◌∷◌,
  ltb, leb, ◌==◌, if◌then◌else◌, or_else, is_some, sum_by, max, str_eq,
}
use podarium.Model.Enums.{Stamp}
use podarium.Model.Episode.{Episode}
use podarium.Model.Feed.{Feed, AppSettings}
use podarium.Timeline.{Interval, is_set}
use podarium.Disk.{Disk, drop_processed}

-- Trim and normalise. The first argument is whether the installed ffmpeg can trim.
unfoldable pub wanted : Bool → Feed → AppSettings → Bool × Bool
wanted trimming_available f s = (
  or_else f.trim_silence s.global_trim_silence && trimming_available,
  or_else f.normalize_audio s.global_normalize_audio,
)

unfoldable pub recipe : Bool × Bool → Option String
recipe (true, true) = some "trim3+normalize"
recipe (true, false) = some "trim3"
recipe (false, true) = some "normalize"
recipe (false, false) = none

-- `SILENCE_SURVIVES_SECONDS` and `DETECTION_WINDOW_SECONDS`.
abbrev pub silence_survives : ℕ
silence_survives = 870

abbrev pub detection_window : ℕ
detection_window = 20

pub data SilenceLine : Type 0 where
  start end : ℕ → SilenceLine

-- The loop over the matches of `_SILENCE_LINE`, with the start that is open.
unfoldable pub parse_silences : Option ℕ → List SilenceLine → List Interval
parse_silences opened [] = []
parse_silences opened (start t ∷ r) = parse_silences (some t) r
parse_silences none (end t ∷ r) = parse_silences none r
parse_silences (some s) (end t ∷ r) = (s, t) ∷ parse_silences none r

unfoldable pub removed_from_silences : List Interval → List Interval
removed_from_silences [] = []
removed_from_silences ((s, e) ∷ r) =
    let rest = removed_from_silences r in
    if ltb detection_window s && ltb (s + silence_survives) e
    then (s + silence_survives, e) ∷ rest
    else rest

-- `abs(expected - processed) <= max(2.0, 0.02 * source)`, in fiftieths of a millisecond.
unfoldable pub map_is_credible : List Interval → Option ℕ → Option ℕ → Bool
map_is_credible removed (some source) (some processed) =
    let gone = sum_by (λ (c : Interval). c.1 - c.0) removed + processed in
    not (source == 0) && leb (50 * ((source - gone) + (gone - source))) (max 100000 source)
map_is_credible removed _ _ = false

-- The check against an encoding of the wrong stream; `original` is the size of the source.
unfoldable pub is_plausible : Option ℕ → Option ℕ → ℕ → ℕ → Bool
is_plausible (some source) (some processed) original size =
    if source == 0 then original == 0 || leb original (5 * size) else leb source (5 * processed)
is_plausible _ _ original size = original == 0 || leb original (5 * size)

-- `episode.local_bytes or source.stat().st_size`
unfoldable pub original_size : ℕ → Option ℕ → ℕ
original_size file_size none = file_size
original_size file_size (some n) = if n == 0 then file_size else n

-- The row of an episode with a copy.
unfoldable pub with_copy :
    String → ℕ → Option String → Stamp → Option ℕ → Option ℕ → Option String → Episode → Episode
with_copy target size made now source processed trim_map e = record e {
  processed_path = some target;
  processed_bytes = some size;
  processed_recipe = made;
  processed_at = some now;
  source_duration_seconds = source;
  processed_duration_seconds = processed;
  trim_map_json = trim_map;
}

abbrev pub has_copy : Disk → Option String → Bool
has_copy d none = false
has_copy d (some p) = not (str_eq p "") && d.exists p

-- `partial.replace(target)`
abbrev pub put_file : String → Disk → Disk
put_file p d = record d { exists = λ q. if str_eq q p then true else d.exists q }

-- `encode` is ffmpeg on a path with the filters, and gives the size of what it wrote, or `none` on
-- any error up to the move to its place; `probe` measures a path; `detect` is silencedetect;
-- `commits` is whether what follows the move, up to the commit of the row, goes without an error.
module _ (ffmpeg_available trimming_available : Bool)
    (processed_path_for partial_for : String → String) (encode : String → Bool × Bool → Option ℕ)
    (probe : String → Option ℕ) (file_size : String → ℕ)
    (detect : String → Option (List SilenceLine)) (dumps : List Interval → String)
    (commits : Episode → Bool) where
  unfoldable pub measure_removed : String → Option (List Interval)
  unfolding removed_from_silences parse_silences
  measure_removed source = elim (detect source) [
    | none ↦ none
    | some found ↦ some (removed_from_silences (parse_silences none found))
  ]

  -- The map of a copy, if it is known and credible.
  unfoldable pub trim_map : Option (List Interval) → Option ℕ → Option ℕ → Option String
  unfolding map_is_credible
  trim_map none source processed = none
  trim_map (some removed) source processed =
      if map_is_credible removed source processed then some (dumps removed) else none

  -- What is made of an encoding. An error after the move leaves the file, and the rollback the row.
  unfoldable pub accept :
      Bool × Bool → Stamp → Disk → Episode → String → Option ℕ → Bool × Disk × Episode
  unfolding is_plausible original_size with_copy trim_map measure_removed recipe
  accept settings now d e source none = (false, d, e)
  accept settings now d e source (some size) =
      let target = processed_path_for source in
      let whole = probe source in
      let cut = probe (partial_for target) in
      let removed = if settings.0 then measure_removed source else some [] in
      let made =
        with_copy target size (recipe settings) now whole cut (trim_map removed whole cut) e in
      if size == 0
        || not (is_plausible whole cut (original_size (file_size source) e.local_bytes) size)
      then (false, d, e)
      else if commits made
      then (true, put_file target d, made)
      else (false, put_file target d, e)

  -- The early returns that concern the source.
  unfoldable pub process_source :
      Bool × Bool → Stamp → Disk → Episode → Option String → Bool × Disk × Episode
  unfolding accept
  process_source settings now d e none = (false, d, e)
  process_source settings now d e (some source) =
      if str_eq source "" || not (d.exists source) || not ffmpeg_available
      then (false, d, e)
      else accept settings now d e source (encode source settings)

  -- Whether a file was written, the disk and the row.
  unfoldable pub process_episode :
      Stamp → Disk → Episode → Feed → AppSettings → Bool × Disk × Episode
  unfolding wanted process_source
  process_episode now d e f s =
      let settings = wanted trimming_available f s in
      if not (settings.0 || settings.1) || has_copy d e.processed_path
      then (false, d, e)
      else process_source settings now d e e.local_path
