-- ===== src/Settings.antt =====
-- Settings that a feed inherits or overrides: `effective_auto_download_count` and
-- `effective_retention` of src/podarium/services.py.
use podarium.Prelude.{ℕ, or_else}
use podarium.Model.Enums.{RetentionMode}
use podarium.Model.Feed.{Feed, AppSettings}

unfoldable pub effective_auto_download_count : Feed → AppSettings → ℕ
effective_auto_download_count f s = or_else f.auto_download_count s.global_auto_download_count

unfoldable pub effective_retention : Feed → AppSettings → RetentionMode × ℕ
effective_retention f s = (
  or_else f.retention_mode s.global_retention_mode,
  or_else f.retention_days s.global_retention_days,
)
