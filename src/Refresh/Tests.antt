-- ===== src/Refresh/Tests.antt =====
-- A refresh that renames an episode it has and finds one that it does not have.
use podarium.Prelude.{
  ℕ, ◌≡◌, refl, false, none, some, List, [], ◌∷◌, sort_by, insert_sorted, String,
}
use podarium.Model.Episode.{Episode}
use podarium.Samples.{episode}
use podarium.Refresh.{
  ParsedEpisode, changes, set_attr, any_changes, apply_parsed_episode, has_drifted, note_sizes,
  note_replaced_audio, stamped, refresh_noted, refresh_row, new_episode, find_guid, write_guid,
  Pass, merge_found, merge_episode, merge_episodes, store_episodes,
}
use podarium.Refresh.Again.{store_episodes_again}

program : Unit {0}
unfolding changes set_attr any_changes apply_parsed_episode has_drifted note_sizes
    note_replaced_audio stamped refresh_noted refresh_row new_episode find_guid write_guid
    merge_found merge_episode merge_episodes store_episodes sort_by insert_sorted
program = tt

abbrev parsed : String → ℕ → ParsedEpisode
parsed g t = record {
  guid = g;
  title = some "New title";
  description_html = none;
  image_url = none;
  episode_number = none;
  season = none;
  explicit = false;
  published_at = some t;
  duration_seconds = none;
  enclosure_url = some "https://example.com/1.mp3";
  enclosure_type = none;
  enclosure_bytes = some 120;
  chapters_url = none;
  transcript_url = none;
  transcript_type = none;
}

-- The file on disk is smaller than what the feed declares.
abbrev held : Episode
held = record episode {
  local_path = some "1.mp3";
  local_bytes = some 100;
  title = some "Old title";
}

abbrev document : List ParsedEpisode
document = parsed "h" 20 ∷ parsed "g" 10 ∷ parsed "h" 20 ∷ []

abbrev renamed : Episode
renamed = record held {
  title = some "New title";
  published_at = some 10;
  enclosure_bytes = some 120;
  replaced_at = some 5;
  updated_at = 5;
}

abbrev found : Episode
found = record episode {
  id = 7;
  guid = "h";
  title = some "New title";
  published_at = some 20;
  enclosure_bytes = some 120;
  first_seen_at = 5;
  updated_at = 5;
}

abbrev result : Pass
result = record {
  rows = renamed ∷ found ∷ [];
  next_id = 8;
  seen = "h" ∷ "g" ∷ [];
  new_episodes = 1;
  updated_episodes = 1;
}

stored : store_episodes 1 5 document 7 (held ∷ []) ≡ some result
unfolding program
stored = refl

store_episodes_again_example :
    store_episodes 1 9 document 30 result.rows
    ≡ some (record result { next_id = 30; new_episodes = 0; updated_episodes = 0 })
store_episodes_again_example = store_episodes_again 1 5 9 30 document 7 (held ∷ []) stored
