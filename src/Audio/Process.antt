-- ===== src/Audio/Process.antt =====
-- What a processing leaves.
use podarium.Prelude.{
  ℕ, ◌<◌, ◌≡◌, refl, arith, String, Bool, true, false, ◌||◌, not, Option, none, some, List, [],
  if◌then◌else◌, ◌==◌, str_eq, Bool-cases, inl, inr, ◌⊎◌,
}
use podarium.Model.Enums.{Stamp}
use podarium.Model.Episode.{Episode}
use podarium.Model.Feed.{Feed, AppSettings}
use podarium.Timeline.{Interval}
use podarium.Disk.{Disk}
use podarium.Audio.{
  SilenceLine, wanted, recipe, is_plausible, original_size, with_copy, accept, process_source,
  has_copy, process_episode, put_file, trim_map, measure_removed,
}

module _ (ffmpeg_available trimming_available : Bool)
    (processed_path_for partial_for : String → String) (encode : String → Bool × Bool → Option ℕ)
    (probe : String → Option ℕ) (file_size : String → ℕ)
    (detect : String → Option (List SilenceLine)) (dumps : List Interval → String)
    (commits : Episode → Bool) where
  -- A row with a copy that the settings ask for, made from the original that the row has and that
  -- stays on the disk, or a row that is left as it was, with at most a file that no row names.
  abbrev pub IsProcessed : Bool × Bool → Disk → Episode → Bool × Disk × Episode → Type 0
  IsProcessed settings d e (false, d', e') =
      (e' ≡ e)
      × ((d' ≡ d)
          ⊎ ((source : String) × (e.local_path ≡ some source)
              × (d' ≡ put_file (processed_path_for source) d)))
  IsProcessed settings d e (true, d', e') =
      (source : String) × (size : ℕ) × (e.local_path ≡ some source)
      × (encode source settings ≡ some size)
      × (0 < size)
      × (is_plausible (probe source) (probe (partial_for (processed_path_for source)))
            (original_size (file_size source) e.local_bytes) size
          ≡ true)
      × (e'.processed_path ≡ some (processed_path_for source))
      × (e'.processed_recipe ≡ recipe settings)
      × (d' ≡ put_file (processed_path_for source) d)
      × (d.exists source ≡ true)
      × (d'.exists source ≡ true)
      × (e'.local_path ≡ e.local_path)
      × (e'.first_seen_at ≡ e.first_seen_at)

  abbrev copy_of : Bool × Bool → Stamp → Episode → String → ℕ → Episode
  copy_of settings now e source size =
      let target = processed_path_for source in
      let whole = probe source in
      let cut = probe (partial_for target) in
      let removed =
        if settings.0
        then measure_removed ffmpeg_available trimming_available processed_path_for partial_for
            encode probe file_size detect dumps commits source
        else some [] in
      with_copy target size (recipe settings) now whole cut
        (trim_map ffmpeg_available trimming_available processed_path_for partial_for encode probe
          file_size detect dumps commits removed whole cut)
        e

  put_file-exists : (p q : String) (d : Disk) → d.exists q ≡ true → (put_file p d).exists q ≡ true
  put_file-exists p q d h = ground arith

  accept-IsProcessed :
      (settings : Bool × Bool) (now : Stamp) (d : Disk) (e : Episode) (source : String)
      (o : Option ℕ)
      → e.local_path ≡ some source
      → d.exists source ≡ true
      → encode source settings ≡ o
      → IsProcessed settings d e (
          accept ffmpeg_available trimming_available processed_path_for partial_for encode probe
            file_size detect dumps commits settings now d e source o)
  unfolding accept with_copy
  accept-IsProcessed settings now d e source none h there k = (refl, inl refl)
  accept-IsProcessed settings now d e source (some size) h there k =
      let target = processed_path_for source in
      let made = copy_of settings now e source size in
      elim (Bool-cases (
        size == 0
        || not (
            is_plausible (probe source) (probe (partial_for target))
              (original_size (file_size source) e.local_bytes) size))) [
                | inl b ↦ rw b (refl, inl refl)
                | inr b ↦ elim (Bool-cases (commits made)) [
                  | inr failing ↦ rw (b, failing) (refl, inr (source, h, refl))
                  | inl fine ↦
                      rw (b, fine)
                        (
                          source,
                          size,
                          h,
                          k,
                          ground arith,
                          ground arith,
                          refl,
                          refl,
                          refl,
                          there,
                          put_file-exists target source d there,
                          refl,
                          refl,
                        )
                ]
              ]

  process_source-IsProcessed :
      (settings : Bool × Bool) (now : Stamp) (d : Disk) (e : Episode) (o : Option String)
      → e.local_path ≡ o
      → IsProcessed settings d e (
          process_source ffmpeg_available trimming_available processed_path_for partial_for encode
            probe file_size detect dumps commits settings now d e o)
  unfolding process_source
  process_source-IsProcessed settings now d e none h = (refl, inl refl)
  process_source-IsProcessed settings now d e (some source) h =
      elim (Bool-cases (str_eq source "" || not (d.exists source) || not ffmpeg_available)) [
        | inl b ↦ rw b (refl, inl refl)
        | inr b ↦
            let there : d.exists source ≡ true = ground arith in
            rw b (accept-IsProcessed settings now d e source (encode source settings) h there refl)
      ]

  -- A processing that reports a copy has made it from the original that the row has, of a plausible
  -- length or size, under the settings of the show: the disk has gained this file, and the original
  -- is there before and after. One that reports none leaves the row as it was, and the disk too,
  -- except that an error after the move leaves the copy's file there.
  pub process_episode-IsProcessed :
      (now : Stamp) (d : Disk) (e : Episode) (f : Feed) (s : AppSettings)
      → IsProcessed (wanted trimming_available f s) d e (
          process_episode ffmpeg_available trimming_available processed_path_for partial_for encode
            probe file_size detect dumps commits now d e f s)
  unfolding process_episode
  process_episode-IsProcessed now d e f s =
      let settings = wanted trimming_available f s in
      elim (Bool-cases (not (settings.0 || settings.1) || has_copy d e.processed_path)) [
        | inl b ↦ rw b (refl, inl refl)
        | inr b ↦ rw b (process_source-IsProcessed settings now d e e.local_path refl)
      ]
