-- ===== src/Schedule/Tests.antt =====
-- A feed whose fetch fails, a second time.
use podarium.Prelude.{◌≡◌, refl, arith, true, false, none, some, [], ◌*◌}
use podarium.Model.Enums.{seconds}
use podarium.Model.Feed.{Feed}
use podarium.Samples.{feed, settings, full_disk}
use podarium.Schedule.{
  feed_jitter_seconds, due_after, is_due_since, is_due, Store, Left, failed_feed, refresh_failed,
  refresh_feed,
}
use podarium.Schedule.Due.{is_due_late, refresh_feed-is_due}

program : Unit {0}
unfolding feed_jitter_seconds due_after is_due_since is_due failed_feed refresh_failed refresh_feed
program = tt

abbrev failing : Feed
failing = record feed { fetch_error_count = 9; last_fetched_at = some 0 }

abbrev store : Store
store = record { feed = failing; rows = []; jobs = []; disk = full_disk }

-- Nothing had been stored when the fetch failed.
abbrev left : Left
left = record { disk = full_disk; new_episodes = 0; updated_episodes = 0; not_modified = false }

refresh_feed-is_due_example : is_due (failed_feed 5 "timeout" failing) 3600 3600000004 ≡ false
unfolding program
refresh_feed-is_due_example =
    refresh_feed-is_due (λ l. l) (λ l. l) settings [] [] 1 1 5 store none "timeout" left 3600
      3600000004 (omega arith)

is_due_late_example : is_due failing 3600 (seconds (65 * 3600)) ≡ true
is_due_late_example =
    is_due_late failing 3600 (seconds (65 * 3600)) refl (omega arith) (omega arith)
