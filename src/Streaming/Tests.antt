-- ===== src/Streaming/Tests.antt =====
-- The theorems on served copies at concrete rows.
use podarium.Prelude.{◌≡◌, refl, String, Bool, true, false, Option, some, none}
use podarium.Model.Episode.{Episode}
use podarium.Samples.{episode}
use podarium.Timeline.{original, processed}
use podarium.Streaming.{
  local, proxied, on_disk, preferred_copy, copy_for_token, stream_url, stream_episode, named_copy,
  processed_media_type,
}
use podarium.Streaming.Token.{
  copy_for_token-stream_url, stream_episode-original, stream_episode_proxied,
}

program : Unit {0}
unfolding on_disk preferred_copy copy_for_token stream_url stream_episode named_copy
program = tt

abbrev audio_type : Option String → String
audio_type declared = "audio/mp4"

abbrev both : Episode
both = record episode { local_path = some "1.m4a"; processed_path = some "1.processed.mp3" }

abbrev there : String → Bool
there p = true

abbrev nowhere : String → Bool
nowhere p = false

preferred :
    preferred_copy there audio_type both ≡ some ("1.processed.mp3", processed_media_type, processed)
unfolding program
preferred = refl

on_disk_original : on_disk there (some "1.m4a") ≡ some "1.m4a"
unfolding program
on_disk_original = refl

fetched :
    stream_episode nowhere audio_type (some both) (some original)
    ≡ proxied "https://example.com/1.mp3"
unfolding program
fetched = refl

copy_for_token-stream_url_example :
    (stream_url there audio_type both ≡ record { episode_id = 1; version = some processed })
    × (copy_for_token there audio_type both (some processed)
        ≡ some ("1.processed.mp3", processed_media_type))
copy_for_token-stream_url_example = copy_for_token-stream_url there audio_type both preferred

stream_episode-original_example :
    stream_episode there audio_type (some both) (some original) ≡ local "1.m4a" "audio/mp4"
stream_episode-original_example = stream_episode-original there audio_type both on_disk_original

stream_episode_proxied_example :
    (on_disk nowhere (some "1.processed.mp3") ≡ none)
    × (on_disk nowhere (some "1.m4a") ≡ none)
    × (both.enclosure_url ≡ some "https://example.com/1.mp3")
stream_episode_proxied_example =
    stream_episode_proxied nowhere audio_type both (some original) fetched
