-- ===== src/Playback.antt =====
-- The state of an episode as a user has it: `_is_stale`, `_get_or_create_state` and `update_state`
-- of src/podarium/api/episode_routes.py. One reading of the clock serves a request; the clocks of
-- the server and of the database agree.
pub mod Write
pub mod Finish
mod Tests
use podarium.Prelude.{
  ℕ, zero, ◌+◌, ◌-◌, String, Bool, true, false, ◌&&◌, not, Option, none, some, List, [], ◌∷◌, ltb,
  ◌==◌, if◌then◌else◌, or_else, min,
}
use podarium.Prelude.Int.{ℤ}
use podarium.Model.Enums.{Stamp, seconds}
use podarium.Model.Episode.{Episode, EpisodeState, QueueItem}
use podarium.Timeline.{inbound}
use podarium.Queue.{Table, drop_from_queue}

abbrev pub concurrent_write_tolerance : Stamp
concurrent_write_tolerance = seconds 60

-- `EpisodeStateUpdate`
pub record StateUpdate : Type 0 where
  pub played : Option Bool
  pub position_seconds : Option ℕ
  pub audio_version : Option String
  pub listened_delta : Option ℕ
  pub starred : Option Bool
  pub changed_at : Option Stamp

-- The comparison is turned round, so that nothing is taken from a moment.
unfoldable pub is_stale : Stamp → Option Stamp → Option Stamp → Bool
is_stale now (some changed) (some stored) =
    ltb (min changed now + concurrent_write_tolerance) stored
is_stale now _ _ = false

unfoldable pub new_state : ℕ → ℕ → Stamp → EpisodeState
new_state user_id episode_id now = record {
  user_id = user_id;
  episode_id = episode_id;
  played = false;
  position_seconds = 0;
  listened_seconds = 0;
  completed_at = none;
  starred = false;
  last_played_at = none;
  changed_at = none;
  updated_at = now;
}

-- The row and whether it was there: `raced` is the row of a first write that came in between.
unfoldable pub get_or_create_state :
    ℕ → ℕ → Stamp → Option EpisodeState → Option EpisodeState → EpisodeState × Bool
unfolding new_state
get_or_create_state u e now (some s) raced = (s, true)
get_or_create_state u e now none raced = (or_else raced (new_state u e now), false)

-- `if body.listened_delta`: the total grows in the database.
unfoldable pub add_listened : Stamp → Option ℕ → EpisodeState → EpisodeState
add_listened now none s = s
add_listened now (some zero) s = s
add_listened now (some n) s = record s {
  listened_seconds = s.listened_seconds + n;
  updated_at = now;
}

unfoldable pub write_played : Stamp → Option Bool → EpisodeState → EpisodeState
write_played now none s = s
write_played now (some true) s =
    if s.played then s else record s { completed_at = some now; played = true }
write_played now (some false) s = record s { completed_at = none; played = false }

unfoldable pub write_starred : Option Bool → EpisodeState → EpisodeState
write_starred none s = s
write_starred (some b) s = record s { starred = b }

-- A finished episode leaves the queue.
unfoldable pub queue_after : ℕ → ℕ → Option Bool → Table → Table
unfolding drop_from_queue
queue_after u e (some true) t = (drop_from_queue u (e ∷ []) t).0
queue_after u e _ t = t

-- `min(claimed or now, now)`
unfoldable pub described_at : Stamp → Option Stamp → Stamp
described_at now claimed = min (or_else claimed now) now

-- `state.changed_at or state.updated_at`
abbrev pub stored_at : EpisodeState → Option Stamp
stored_at s = some (or_else s.changed_at s.updated_at)

-- `loads` reads a trim map.
module _ (loads : String → Option (List (ℤ × ℤ))) where
  unfoldable pub write_position :
      Stamp → Episode → Option ℕ → Option String → EpisodeState → EpisodeState
  unfolding inbound
  write_position now e none version s = s
  write_position now e (some p) version s = record s {
    position_seconds = inbound loads e p version;
    last_played_at = some now;
  }

  -- The part of the handler behind the check for stale writes.
  unfoldable pub apply_write : Stamp → Episode → StateUpdate → EpisodeState → EpisodeState
  unfolding write_played write_position write_starred described_at
  apply_write now e body s =
      let s' = write_starred body.starred (
        write_position now e body.position_seconds body.audio_version
          (write_played now body.played s)) in
      record s' { changed_at = some (described_at now body.changed_at); updated_at = now }

  unfoldable pub update_found :
      Stamp → ℕ → Episode → StateUpdate → EpisodeState × Bool → Table → EpisodeState × Table
  unfolding add_listened is_stale apply_write queue_after
  update_found now u e body (state, existed) t =
      let s = add_listened now body.listened_delta state in
      if existed && is_stale now body.changed_at (stored_at s)
      then (s, t)
      else (apply_write now e body s, queue_after u e.id body.played t)

  -- The state and the queue afterwards; `none` is a 404.
  unfoldable pub update_state :
      Stamp
      → ℕ
      → Option Episode
      → StateUpdate
      → Option EpisodeState
      → Option EpisodeState
      → Table
      → Option (EpisodeState × Table)
  unfolding get_or_create_state update_found
  update_state now u none body stored raced t = none
  update_state now u (some e) body stored raced t =
      some (update_found now u e body (get_or_create_state u e.id now stored raced) t)
