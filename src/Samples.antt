-- ===== src/Samples.antt =====
-- Rows for the tests.
use podarium.Prelude.{true, false, none, some}
use podarium.Model.Enums.{queued, auto, after_played}
use podarium.Model.Episode.{Episode, EpisodeState}
use podarium.Model.Feed.{Feed, AppSettings}
use podarium.Model.Job.{DownloadJob}
use podarium.Disk.{Disk}

abbrev pub episode : Episode
episode = record {
  id = 1;
  feed_id = 1;
  guid = "g";
  title = none;
  description_html = none;
  image_url = none;
  episode_number = none;
  season = none;
  explicit = false;
  published_at = none;
  first_seen_at = 0;
  duration_seconds = none;
  enclosure_url = some "https://example.com/1.mp3";
  enclosure_type = none;
  enclosure_bytes = none;
  chapters_url = none;
  chapters_json = none;
  chapters_fetched_at = none;
  transcript_url = none;
  transcript_type = none;
  transcript_text = none;
  transcript_fetched_at = none;
  processed_path = none;
  processed_bytes = none;
  processed_recipe = none;
  trim_map_json = none;
  source_duration_seconds = none;
  processed_duration_seconds = none;
  processed_at = none;
  audio_sha256 = none;
  replaced_at = none;
  local_path = none;
  local_bytes = none;
  downloaded_at = none;
  purged_at = none;
  updated_at = 0;
}

abbrev pub feed : Feed
feed = record {
  id = 1;
  feed_url = "https://example.com/feed";
  resolved_url = none;
  podcast_index_id = none;
  title = none;
  author = none;
  description = none;
  link = none;
  language = none;
  image_url = none;
  explicit = false;
  etag = none;
  last_modified = none;
  last_fetched_at = none;
  fetch_error = none;
  fetch_error_count = 0;
  auto_download_count = none;
  retention_mode = none;
  retention_days = none;
  playback_rate = none;
  active = true;
  notify = false;
  trim_silence = none;
  normalize_audio = none;
  skip_sponsor_chapters = none;
  intro_skip_seconds = 0;
  outro_skip_seconds = 0;
  created_at = 0;
  updated_at = 0;
}

abbrev pub settings : AppSettings
settings = record {
  global_retention_mode = after_played;
  global_retention_days = 7;
  global_auto_download_count = 0;
  download_dir_max_bytes = some 150;
  refresh_interval_minutes = 60;
  user_agent = "Podarium/0.1.0";
  default_playback_rate = 100;
  global_trim_silence = false;
  global_normalize_audio = false;
  global_skip_sponsor_chapters = false;
  updated_at = 0;
}

abbrev pub job : DownloadJob
job = record {
  id = 1;
  episode_id = 1;
  state = queued;
  attempts = 0;
  last_error = none;
  source = auto;
  next_attempt_at = 0;
  created_at = 0;
  updated_at = 0;
}

abbrev pub played : EpisodeState
played = record {
  user_id = 1;
  episode_id = 1;
  played = true;
  position_seconds = 0;
  listened_seconds = 0;
  completed_at = some 0;
  starred = false;
  last_played_at = none;
  changed_at = none;
  updated_at = 0;
}

-- Every path is there, and nothing is locked.
abbrev pub full_disk : Disk
full_disk = record { exists = λ p. true; locked = λ p. false }

-- Nothing is there.
abbrev pub empty_disk : Disk
empty_disk = record { exists = λ p. false; locked = λ p. false }
