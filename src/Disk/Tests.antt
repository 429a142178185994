-- ===== src/Disk/Tests.antt =====
-- Purges of concrete rows.
use podarium.Prelude.{◌≡◌, refl, some, str_eq, false}
use podarium.Model.Episode.{Episode}
use podarium.Samples.{episode, full_disk}
use podarium.Disk.{
  Disk, unlink, unlink_set, forget_processed, drop_processed, mark_purged, finish_purge,
  purge_unlinked, purge_path, purge_episode,
}
use podarium.Disk.Purge.{Purges, purge_episode-Purges}

program : Unit {0}
unfolding unlink unlink_set forget_processed drop_processed mark_purged finish_purge purge_unlinked
    purge_path purge_episode
program = tt

abbrev both : Episode
both = record episode { local_path = some "1.m4a"; processed_path = some "1.processed.mp3" }

abbrev locked_disk : Disk
locked_disk = record full_disk { locked = λ p. str_eq p "1.m4a" }

kept : purge_episode 9 locked_disk both ≡ some (false, locked_disk, both)
unfolding program
kept = refl

purge_episode-Purges_example : Purges 9 both (purge_episode 9 full_disk both)
purge_episode-Purges_example = purge_episode-Purges 9 full_disk both
