-- ===== src/Throttle/Tests.antt =====
-- Runs of the throttle, and its theorems at a concrete table.
use podarium.Prelude.{
  ℕ, ◌+◌, ◌≤◌, ◌<◌, ◌≡◌, ◌↔◌, refl, arith, true, false, some, none, List, [], ◌∷◌, length, filter,
  sort_by, insert_sorted,
}
use podarium.Model.Enums.{Stamp, seconds}
use podarium.Model.User.{LoginAttempt}
use podarium.Throttle.{
  wait_from, wait_of, in_window, counts, last_success, attempt_times, username_failures,
  username_wait, source_failures, source_wait, seconds_until_unlocked, record_attempt,
}
use podarium.Throttle.Window.{username_failures_kept, is_kept}
use podarium.Throttle.Lockout.{
  counted, username_wait_iff, username_wait-le, username_wait_after_success,
  username_wait_after_failure,
}

program : Unit {0}
unfolding wait_from wait_of in_window counts last_success attempt_times username_failures
    username_wait source_failures source_wait seconds_until_unlocked record_attempt sort_by
    insert_sorted
program = tt

abbrev failure : ℕ → LoginAttempt
failure s = record {
  id = s;
  username = "me";
  source = some "10.0.0.1";
  succeeded = false;
  attempted_at = seconds (1000 + s);
}

-- Five wrong answers, ten seconds apart.
abbrev five : List LoginAttempt
five = failure 40 ∷ failure 0 ∷ failure 10 ∷ failure 20 ∷ failure 30 ∷ []

abbrev now : Stamp
now = seconds 1100

-- The window began at the fifth, sixty seconds ago.
five_wait : seconds_until_unlocked "me" (some "10.0.0.1") now now now now five ≡ 841
unfolding program
five_wait = refl

other_name : seconds_until_unlocked "you" none now now now now five ≡ 0
unfolding program
other_name = refl

counted-five : 5 ≤ length (counted "me" now five)
unfolding program
counted-five = omega arith

username_wait_iff_example :
    (username_wait "me" now now five ≡ 0) ↔ (length (counted "me" now five) < 5)
username_wait_iff_example = username_wait_iff "me" now five

username_wait-le_example : username_wait "me" now now five ≤ 901
username_wait-le_example = username_wait-le "me" now five (omega arith)

username_wait_after_success_example :
    username_wait "me" now now (record_attempt 9 now now "me" true none five) ≡ 0
username_wait_after_success_example =
    username_wait_after_success "me" 9 now now none five now now (omega arith) (omega arith)

username_wait_after_failure_example :
    username_wait "me" now now (record_attempt 9 now now "me" false none five)
    ≤ username_wait "me" now now five
username_wait_after_failure_example =
    username_wait_after_failure "me" 9 now now none five now now (omega arith) counted-five

username_failures_kept_example :
    username_failures "me" now (filter (is_kept now) five) ≡ username_failures "me" now five
username_failures_kept_example = username_failures_kept "me" now now five (omega arith)
