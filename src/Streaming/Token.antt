-- ===== src/Streaming/Token.antt =====
-- A URL keeps naming the copy that it was made for.
use podarium.Prelude.{String, Bool, Option, none, some, ◌≡◌, arith, str_eq_iff}
use podarium.Model.Episode.{Episode}
use podarium.Timeline.{processed, original}
use podarium.Streaming.{
  local, proxied, on_disk, preferred_copy, copy_for_token, stream_url, stream_episode,
}

module _ (exists : String → Bool) (audio_type : Option String → String) where
  -- The URL that a client is given serves the copy that is preferred when it is given.
  pub copy_for_token-stream_url :
      (e : Episode) {p m t : String}
      → preferred_copy exists audio_type e ≡ some (p, m, t)
      → (stream_url exists audio_type e ≡ record { episode_id = e.id; version = some t })
        × (copy_for_token exists audio_type e (some t) ≡ some (p, m))
  unfolding copy_for_token stream_url
  copy_for_token-stream_url e {p} {m} {t} h =
      ground (arith, str_eq_iff t processed, str_eq_iff t original)

  -- A client that plays the original goes on being served it, whatever becomes of the processed copy,
  -- as long as the row keeps its file and the file is there.
  pub stream_episode-original :
      (e : Episode) {p : String}
      → on_disk exists e.local_path ≡ some p
      → stream_episode exists audio_type (some e) (some original)
        ≡ local p (audio_type e.enclosure_type)
  unfolding stream_episode
  stream_episode-original e h = ground arith

  -- The publisher is asked only where no copy is on disk.
  pub stream_episode_proxied :
      (e : Episode) (token : Option String) {url : String}
      → stream_episode exists audio_type (some e) token ≡ proxied url
      → (on_disk exists e.processed_path ≡ none)
        × (on_disk exists e.local_path ≡ none)
        × (e.enclosure_url ≡ some url)
  unfolding stream_episode
  stream_episode_proxied e token h = ground arith
