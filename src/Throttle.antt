-- ===== src/Throttle.antt =====
-- Login throttling: src/podarium/throttle.py over the rows of `login_attempts`. A function that reads
-- the clock twice takes both readings, `now` for the window and `later` for the wait. A difference of
-- moments that Python takes on integers is written as a sum on the other side.
pub mod Window
pub mod Wait
pub mod Lockout
mod Tests
use podarium.Prelude.{
  ℕ, ◌+◌, ◌-◌, ◌*◌, ◌/◌, max, String, Bool, true, false, ◌&&◌, not, Option, none, some, List, [],
  ◌∷◌, map, ltb, leb, if◌then◌else◌, length, get_elem?, filter, sort_by, str_eq,
}
use podarium.Model.Enums.{Stamp, seconds}
use podarium.Model.User.{LoginAttempt}

abbrev pub max_failures : ℕ
max_failures = 5

abbrev pub source_max_failures : ℕ
source_max_failures = 20

abbrev pub window : Stamp
window = seconds (15 * 60)

abbrev pub retention : Stamp
retention = seconds (7 * 24 * 60 * 60)

-- `max(0, int((unlocks_at - now).total_seconds()) + 1)`: `int` cuts towards zero on both sides.
unfoldable pub wait_from : Stamp → Stamp → ℕ
wait_from crossed_at now =
    let unlocks_at = crossed_at + window in
    if leb now unlocks_at
    then (unlocks_at - now) / 1000000 + 1
    else 1 - (now - unlocks_at) / 1000000

-- `attempted_at > now - WINDOW`
unfoldable pub in_window : Stamp → LoginAttempt → Bool
in_window now a = ltb now (a.attempted_at + window)

-- `func.max(attempted_at)` over a user's successful attempts.
unfoldable pub last_success : String → List LoginAttempt → Option Stamp
last_success u [] = none
last_success u (a ∷ as_) =
    if str_eq a.username u && a.succeeded
    then elim (last_success u as_) [
      | none ↦ some a.attempted_at
      | some t ↦ some (max a.attempted_at t)
    ]
    else last_success u as_

-- `attempted_at > last_success`, where there is one.
abbrev pub is_after : Option Stamp → Stamp → Bool
is_after none t = true
is_after (some s) t = ltb s t

-- A failure of the user's that counts.
unfoldable pub counts : String → Stamp → Option Stamp → LoginAttempt → Bool
unfolding in_window
counts u now last a =
    str_eq a.username u && not a.succeeded && in_window now a && is_after last a.attempted_at

unfoldable pub attempt_times : List LoginAttempt → List Stamp
attempt_times as_ = sort_by leb (map (λ a. a.attempted_at) as_)

unfoldable pub username_failures : String → Stamp → List LoginAttempt → List Stamp
username_failures u now as_ = attempt_times (filter (counts u now (last_success u as_)) as_)

-- The wait from the failure that crossed the line, if there are as many.
unfoldable pub wait_of : ℕ → List Stamp → Stamp → ℕ
wait_of limit failures later =
    if ltb (length failures) limit then 0 else elim (get_elem? failures (limit - 1)) [
      | none ↦ 0
      | some crossed_at ↦ wait_from crossed_at later
    ]

unfoldable pub username_wait : String → Stamp → Stamp → List LoginAttempt → ℕ
username_wait u now later as_ = wait_of max_failures (username_failures u now as_) later

-- `LoginAttempt.source == source`
abbrev pub is_source : Option String → String → Bool
is_source none s = false
is_source (some r) s = str_eq r s

unfoldable pub source_failures : String → Stamp → List LoginAttempt → List Stamp
unfolding in_window
source_failures s now as_ =
    attempt_times (filter (λ a. is_source a.source s && not a.succeeded && in_window now a) as_)

unfoldable pub source_wait : String → Stamp → Stamp → List LoginAttempt → ℕ
source_wait s now later as_ = wait_of source_max_failures (source_failures s now as_) later

-- An empty source counts as none.
unfoldable pub seconds_until_unlocked :
    String → Option String → Stamp → Stamp → Stamp → Stamp → List LoginAttempt → ℕ
seconds_until_unlocked u none now later now' later' as_ = max (username_wait u now later as_) 0
seconds_until_unlocked u (some s) now later now' later' as_ =
    max (username_wait u now later as_) (if str_eq s "" then 0 else source_wait s now' later' as_)

-- The database stamps the row with its own clock, `db_now`, and then forgets what is old.
unfoldable pub record_attempt :
    ℕ → Stamp → Stamp → String → Bool → Option String → List LoginAttempt → List LoginAttempt
record_attempt id db_now now u succeeded source as_ =
    filter (λ a. leb now (a.attempted_at + retention))
      (record {
        id = id;
        username = u;
        source = source;
        succeeded = succeeded;
        attempted_at = db_now;
      }
        ∷ as_)
