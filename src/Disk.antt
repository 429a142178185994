-- ===== src/Disk.antt =====
-- The files that rows point to, and forgetting a processed copy: `drop_processed` of
-- src/podarium/jobs/audio.py and `purge_episode` of src/podarium/jobs/retention.py.
pub mod Purge
mod Tests
use podarium.Prelude.{String, Bool, true, false, Option, none, some, if◌then◌else◌, str_eq, is_none}
use podarium.Model.Enums.{Stamp}
use podarium.Model.Episode.{Episode}
use podarium.Timeline.{is_set}

-- Which paths are there, and which of them the system refuses to unlink.
pub record Disk : Type 0 where
  pub exists : String → Bool
  pub locked : String → Bool

-- `Path(p).unlink(missing_ok=True)`; `none` is an `OSError`.
unfoldable pub unlink : String → Disk → Option Disk
unlink p d =
    if d.locked p
    then none
    else some (record d { exists = λ q. if str_eq q p then false else d.exists q })

unfoldable pub unlink_set : Option String → Disk → Option Disk
unfolding unlink
unlink_set none d = some d
unlink_set (some p) d = if is_set (some p) then unlink p d else some d

-- The fields of a processed copy.
unfoldable pub forget_processed : Episode → Episode
forget_processed e = record e {
  processed_path = none;
  processed_bytes = none;
  processed_recipe = none;
  trim_map_json = none;
  processed_at = none;
  processed_duration_seconds = none;
}

unfoldable pub drop_processed : Disk → Episode → Option (Disk × Episode)
unfolding unlink_set forget_processed
drop_processed d e = elim (unlink_set e.processed_path d) [
  | none ↦ none
  | some d' ↦ some (d', forget_processed e)
]

unfoldable pub mark_purged : Stamp → Episode → Episode
mark_purged now e = record e { local_path = none; local_bytes = none; purged_at = some now }

-- The end of a purge, once the processed copy is dropped.
unfoldable pub finish_purge : Stamp → Option (Disk × Episode) → Option (Bool × Disk × Episode)
unfolding mark_purged
finish_purge now none = none
finish_purge now (some (d, e)) = some (true, d, mark_purged now e)

-- What follows the unlinking of the original.
unfoldable pub purge_unlinked :
    Stamp → Disk → Episode → Option Disk → Option (Bool × Disk × Episode)
unfolding finish_purge drop_processed
purge_unlinked now d e none = some (false, d, e)
purge_unlinked now d e (some d') = finish_purge now (drop_processed d' e)

unfoldable pub purge_path : Stamp → Disk → Episode → Option String → Option (Bool × Disk × Episode)
unfolding unlink purge_unlinked
purge_path now d e none = some (false, d, e)
purge_path now d e (some p) = purge_unlinked now d e (unlink p d)

-- Whether the file went, the disk and the row afterwards. An error in unlinking the original is
-- caught and leaves the row alone; one in unlinking the processed copy is raised.
unfoldable pub purge_episode : Stamp → Disk → Episode → Option (Bool × Disk × Episode)
unfolding purge_path
purge_episode now d e = purge_path now d e e.local_path
