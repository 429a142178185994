-- ===== src/Streaming.antt =====
-- Which copy of an episode is served: src/podarium/streaming.py, and the choice that
-- `stream_episode` of src/podarium/api/media_routes.py makes.
pub mod Token
mod Tests
use podarium.Prelude.{
  ℕ, ◌+◌, ◌*◌, ◌%◌, ◌/◌, String, Bool, true, false, ◌&&◌, ◌||◌, not, Option, none, some, ltb, ◌==◌,
  if◌then◌else◌, str_eq, or_else, is_some,
}
use podarium.Model.Episode.{Episode}
use podarium.Timeline.{is_set, processed, original, round_div}

abbrev pub processed_media_type : String
processed_media_type = "audio/mpeg"

-- A URL of `stream_url`: the episode's id, and the copy that it names.
pub record StreamUrl : Type 0 where
  pub episode_id : ℕ
  pub version : Option String

-- What `stream_episode` does with the request.
pub data Served : Type 0 where
  local : String → String → Served
  proxied : String → Served
  not_found : Served

-- `round` of a number of seconds that is set and not zero, or the next choice.
unfoldable pub measured : Bool → Option ℕ → Option ℕ → Option ℕ
measured false ms other = other
measured true none other = other
measured true (some ms) other = if ms == 0 then other else some (round_div ms 1000)

-- `exists` is the disk's answer for a path.
module _ (exists : String → Bool) where
  -- A path that is set and there.
  unfoldable pub on_disk : Option String → Option String
  on_disk none = none
  on_disk (some p) = if not (str_eq p "") && exists p then some p else none

  -- `token == …`, and the copy that it names is on disk.
  unfoldable pub named_copy : String → Option String → Option String → Option String
  unfolding on_disk
  named_copy name path none = none
  named_copy name path (some t) = if str_eq t name then on_disk path else none

-- `audio_type` is `safe_audio_type`.
module _ (exists : String → Bool) (audio_type : Option String → String) where
  -- Path, media type and token.
  unfoldable pub preferred_copy : Episode → Option (String × String × String)
  unfolding on_disk
  preferred_copy e = elim (on_disk exists e.processed_path) [
    | some p ↦ some (p, processed_media_type, processed)
    | none ↦ elim (on_disk exists e.local_path) [
      | some p ↦ some (p, audio_type e.enclosure_type, original)
      | none ↦ none
    ]
  ]

  unfoldable pub copy_for_token : Episode → Option String → Option (String × String)
  unfolding named_copy
  copy_for_token e token = elim (named_copy exists processed e.processed_path token) [
    | some p ↦ some (p, processed_media_type)
    | none ↦ elim (named_copy exists original e.local_path token) [
      | some p ↦ some (p, audio_type e.enclosure_type)
      | none ↦ none
    ]
  ]

  unfoldable pub stream_url : Episode → StreamUrl
  unfolding preferred_copy
  stream_url e = elim (preferred_copy e) [
    | none ↦ record { episode_id = e.id; version = none }
    | some (p, m, t) ↦ record { episode_id = e.id; version = some t }
  ]

  unfoldable pub audio_duration_seconds : Episode → Option ℕ
  unfolding measured
  audio_duration_seconds e =
      measured (is_set e.processed_path) e.processed_duration_seconds
        (measured (is_set e.local_path) e.source_duration_seconds e.duration_seconds)

  -- `stream_episode` on the row that the id names.
  unfoldable pub stream_episode : Option Episode → Option String → Served
  unfolding copy_for_token preferred_copy
  stream_episode none token = not_found
  stream_episode (some e) token = elim (copy_for_token e token) [
    | some (p, m) ↦ local p m
    | none ↦ elim (preferred_copy e) [
      | some (p, m, t) ↦ local p m
      | none ↦ elim e.enclosure_url [
        | none ↦ not_found
        | some url ↦ if str_eq url "" then not_found else proxied url
      ]
    ]
  ]
