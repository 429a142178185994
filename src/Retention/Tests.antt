-- ===== src/Retention/Tests.antt =====
-- A sweep of five rows, and the theorems on it.
use podarium.Prelude.{
  ℕ, ◌≡◌, ◌*◌, refl, arith, true, false, some, none, List, [], ◌∷◌, sort_by, insert_sorted, str_eq,
  if◌then◌else◌,
}
use podarium.Model.Enums.{seconds, after_played}
use podarium.Model.Episode.{Episode, EpisodeState, QueueItem}
use podarium.Samples.{episode, feed, settings, played, full_disk}
use podarium.Settings.{effective_retention}
use podarium.Disk.{
  Disk, unlink, unlink_set, forget_processed, drop_processed, mark_purged, finish_purge,
  purge_unlinked, purge_path, purge_episode,
}
use podarium.Retention.{
  Row, is_before_cutoff, is_expired, expires, sweep_policy, caught_up, goes_before, sweep_ceiling,
  sweep_survivors, sweep_rows, sweep, protected_episode_ids,
}
use podarium.Retention.Expiry.{is_expired_mono}
use podarium.Retention.Protect.{AreUntouched, sweep-AreUntouched}

program : Unit {0}
unfolding is_before_cutoff is_expired expires sweep_policy caught_up goes_before sweep_ceiling
    sweep_survivors sweep_rows sweep protected_episode_ids effective_retention unlink unlink_set
    forget_processed drop_processed mark_purged finish_purge purge_unlinked purge_path purge_episode
    sort_by insert_sorted
program = tt

abbrev file : ℕ → Episode
file i = record episode {
  id = i;
  local_path = some "file";
  local_bytes = some 100;
  downloaded_at = some i;
}

abbrev star : EpisodeState
star = record played { episode_id = 4; played = false; completed_at = none; starred = true }

-- Row 1 has been played and is old; the others have not been; row 2 is in the queue and row 4 is
-- starred. The last row is the state that another user has of row 1's episode.
abbrev rows : List Row
rows =
    record { episode = file 1; state = some played; feed = feed }
    ∷ record { episode = file 2; state = none; feed = feed }
    ∷ record { episode = file 3; state = none; feed = feed }
    ∷ record { episode = file 4; state = some star; feed = feed }
    ∷ record { episode = file 1; state = none; feed = feed }
    ∷ []

abbrev queue : List QueueItem
queue = record { id = 1; user_id = 1; episode_id = 2; position = 0; added_at = 0 } ∷ []

abbrev later : ℕ
later = seconds (8 * 86400)

expired : is_expired (file 1) (some played) after_played 7 later ≡ true
unfolding program
expired = refl

is_expired_mono_example :
    is_expired (file 1) (some played) after_played 3 (seconds (9 * 86400)) ≡ true
is_expired_mono_example =
    is_expired_mono (file 1) (some played) after_played 7 3 later (seconds (9 * 86400))
      (omega arith) (omega arith) expired

-- The policy takes row 1 and the ceiling of 150 bytes row 3: rows 2 and 4 are protected.
abbrev swept : List Row
swept =
    record {
      episode = record (file 1) { local_path = none; local_bytes = none; purged_at = some later };
      state = some played;
      feed = feed;
    }
    ∷ record { episode = file 2; state = none; feed = feed }
    ∷ record {
      episode = record (file 3) { local_path = none; local_bytes = none; purged_at = some later };
      state = none;
      feed = feed;
    }
    ∷ record { episode = file 4; state = some star; feed = feed }
    ∷ record {
      episode = record (file 1) { local_path = none; local_bytes = none; purged_at = some later };
      state = none;
      feed = feed;
    }
    ∷ []

-- Two files have been unlinked.
abbrev swept_disk : Disk
swept_disk = record full_disk {
  exists = λ q. if str_eq q "file" then false else (if str_eq q "file" then false else true);
}

run_of_five : sweep queue (star ∷ []) settings later full_disk rows ≡ some (swept_disk, swept, 2)
unfolding program
run_of_five = refl

sweep-AreUntouched_example : AreUntouched queue (star ∷ []) rows swept
sweep-AreUntouched_example =
    sweep-AreUntouched queue (star ∷ []) settings later full_disk rows run_of_five
