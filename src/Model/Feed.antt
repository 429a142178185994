-- ===== src/Model/Feed.antt =====
-- `Feed`, `FeedState` and `AppSettings` of src/podarium/models.py. A playback rate is in hundredths.
use podarium.Prelude.{ℕ, String, Bool, Option}
use podarium.Model.Enums.{Stamp, RetentionMode}

pub record Feed : Type 0 where
  pub id : ℕ
  pub feed_url : String
  pub resolved_url : Option String
  pub podcast_index_id : Option ℕ
  pub title : Option String
  pub author : Option String
  pub description : Option String
  pub link : Option String
  pub language : Option String
  pub image_url : Option String
  pub explicit : Bool
  pub etag : Option String
  pub last_modified : Option String
  pub last_fetched_at : Option Stamp
  pub fetch_error : Option String
  pub fetch_error_count : ℕ
  pub auto_download_count : Option ℕ
  pub retention_mode : Option RetentionMode
  pub retention_days : Option ℕ
  pub playback_rate : Option ℕ
  pub active : Bool
  pub notify : Bool
  pub trim_silence : Option Bool
  pub normalize_audio : Option Bool
  pub skip_sponsor_chapters : Option Bool
  pub intro_skip_seconds : ℕ
  pub outro_skip_seconds : ℕ
  pub created_at : Stamp
  pub updated_at : Stamp

pub record FeedState : Type 0 where
  pub user_id : ℕ
  pub feed_id : ℕ
  pub last_seen_at : Stamp
  pub updated_at : Stamp

pub record AppSettings : Type 0 where
  pub global_retention_mode : RetentionMode
  pub global_retention_days : ℕ
  pub global_auto_download_count : ℕ
  pub download_dir_max_bytes : Option ℕ
  pub refresh_interval_minutes : ℕ
  pub user_agent : String
  pub default_playback_rate : ℕ
  pub global_trim_silence : Bool
  pub global_normalize_audio : Bool
  pub global_skip_sponsor_chapters : Bool
  pub updated_at : Stamp
