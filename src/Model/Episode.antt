-- ===== src/Model/Episode.antt =====
-- `Episode`, `EpisodeState` and `QueueItem` of src/podarium/models.py.
-- A float number of seconds is a number of milliseconds.
use podarium.Prelude.{ℕ, String, Bool, Option}
use podarium.Model.Enums.{Stamp}

pub record Episode : Type 0 where
  pub id : ℕ
  pub feed_id : ℕ
  pub guid : String
  pub title : Option String
  pub description_html : Option String
  pub image_url : Option String
  pub episode_number : Option ℕ
  pub season : Option ℕ
  pub explicit : Bool
  pub published_at : Option Stamp
  pub first_seen_at : Stamp
  pub duration_seconds : Option ℕ
  pub enclosure_url : Option String
  pub enclosure_type : Option String
  pub enclosure_bytes : Option ℕ
  pub chapters_url : Option String
  pub chapters_json : Option String
  pub chapters_fetched_at : Option Stamp
  pub transcript_url : Option String
  pub transcript_type : Option String
  pub transcript_text : Option String
  pub transcript_fetched_at : Option Stamp
  pub processed_path : Option String
  pub processed_bytes : Option ℕ
  pub processed_recipe : Option String
  pub trim_map_json : Option String
  pub source_duration_seconds : Option ℕ
  pub processed_duration_seconds : Option ℕ
  pub processed_at : Option Stamp
  pub audio_sha256 : Option String
  pub replaced_at : Option Stamp
  pub local_path : Option String
  pub local_bytes : Option ℕ
  pub downloaded_at : Option Stamp
  pub purged_at : Option Stamp
  pub updated_at : Stamp

pub record EpisodeState : Type 0 where
  pub user_id : ℕ
  pub episode_id : ℕ
  pub played : Bool
  pub position_seconds : ℕ
  pub listened_seconds : ℕ
  pub completed_at : Option Stamp
  pub starred : Bool
  pub last_played_at : Option Stamp
  pub changed_at : Option Stamp
  pub updated_at : Stamp

pub record QueueItem : Type 0 where
  pub id : ℕ
  pub user_id : ℕ
  pub episode_id : ℕ
  pub position : ℕ
  pub added_at : Stamp
