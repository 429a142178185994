-- ===== src/Playback/Tests.antt =====
-- Writes to a concrete row, and the theorems on them.
use podarium.Prelude.{
  contains, sort_by, insert_sorted, ◌∷◌, ◌+◌, ◌≡◌, refl, arith, String, true, false, Option, some,
  none, List, [], min,
}
use podarium.Prelude.Int.{ℤ}
use podarium.Model.Enums.{seconds}
use podarium.Model.Episode.{EpisodeState}
use podarium.Samples.{episode, played}
use podarium.Timeline.{inbound, heard_on, served_version}
use podarium.Queue.{
  Table, owned, others, before, ordered, renumber, compact_queue_positions, is_dropped,
  drop_from_queue,
}
use podarium.Queue.Order.{episodes}
use podarium.Playback.Finish.{update_state_finished}
use podarium.Playback.{
  StateUpdate, is_stale, add_listened, write_played, write_starred, queue_after, described_at,
  write_position, apply_write, update_found, update_state, get_or_create_state,
}
use podarium.Playback.Write.{
  IsSettled, update_state-IsSettled, update_state-listened, update_state_overtaken,
  update_state_applied,
}

program : Unit {0}
unfolding is_stale add_listened write_played write_starred queue_after described_at write_position
    apply_write update_found update_state get_or_create_state inbound heard_on served_version owned
    others before ordered renumber compact_queue_positions is_dropped drop_from_queue sort_by
    insert_sorted
program = tt

abbrev no_map : String → Option (List (ℤ × ℤ))
no_map raw = none

abbrev heard : StateUpdate
heard = record {
  played = none;
  position_seconds = some 90;
  audio_version = some "o";
  listened_delta = some 15;
  starred = none;
  changed_at = some (seconds 500);
}

-- The row describes the moment 520 s: the write is within the minute.
abbrev stored : EpisodeState
stored = record played { changed_at = some (seconds 520) }

abbrev written : EpisodeState
written = record stored {
  position_seconds = 90;
  listened_seconds = 15;
  last_played_at = some (seconds 600);
  changed_at = some (seconds 500);
  updated_at = seconds 600;
}

applied :
    update_state no_map (seconds 600) 1 (some episode) heard (some stored) none []
    ≡ some (written, [])
unfolding program
applied = refl

update_state-IsSettled_example : IsSettled (seconds 600) written
update_state-IsSettled_example =
    update_state-IsSettled no_map (seconds 600) 1 episode heard (some stored) none []
      (refl, omega arith) tt applied

-- The row's mark is set, and the episode is queued before another.
abbrev done : StateUpdate
done = record heard { played = some true; changed_at = none }

abbrev queue : Table
queue =
    record { id = 1; user_id = 1; episode_id = 1; position = 0; added_at = 0 }
    ∷ record { id = 2; user_id = 1; episode_id = 7; position = 1; added_at = 0 }
    ∷ []

finished :
    update_state no_map (seconds 600) 1 (some episode) done (some stored) none queue
    ≡ some (
      record written { changed_at = some (seconds 600) },
      record { id = 2; user_id = 1; episode_id = 7; position = 0; added_at = 0 } ∷ [],
    )
unfolding program
finished = refl

update_state_finished_example :
    (true ≡ true)
    × (contains 1 (
          episodes (
            ordered 1
              (record { id = 2; user_id = 1; episode_id = 7; position = 0; added_at = 0 } ∷ [])))
        ≡ false)
update_state_finished_example =
    update_state_finished no_map (seconds 600) 1 episode done (some stored) none queue refl refl
      finished

update_state-listened_example : 15 ≡ 0 + 15
update_state-listened_example =
    update_state-listened no_map (seconds 600) 1 episode heard stored none [] applied

update_state_overtaken_example :
    (s' : EpisodeState) × (update_state no_map
        (seconds 600)
        1
        (some episode)
        heard
        (some (record stored { changed_at = some (seconds 561) }))
        none
        []
      ≡ some (s', []))
    × (s'.position_seconds ≡ 0)
    × (s'.played ≡ true)
    × (s'.completed_at ≡ some 0)
    × (s'.starred ≡ false)
    × (s'.last_played_at ≡ none)
    × (s'.changed_at ≡ some (seconds 561))
update_state_overtaken_example =
    update_state_overtaken no_map (seconds 600) 1 episode heard
      (record stored { changed_at = some (seconds 561) }) none [] refl refl (omega arith)

update_state_applied_example :
    (s' : EpisodeState) × (t' : Table) × (update_state no_map
        (seconds 600)
        1
        (some episode)
        heard
        (some stored)
        none
        []
      ≡ some (s', t'))
    × (s'.position_seconds ≡ inbound no_map episode 90 (some "o"))
    × (s'.last_played_at ≡ some (seconds 600))
    × (s'.changed_at ≡ some (min (seconds 500) (seconds 600)))
update_state_applied_example =
    update_state_applied no_map (seconds 600) 1 episode heard stored none [] 90 refl refl refl
      (omega arith)
