-- ===== src/SignIn/Tests.antt =====
-- A user with a second factor, whose codes recur after sixty steps.
use podarium.Prelude.{
  ℕ, ◌≡◌, ◌==◌, ◌%◌, ◌<◌, refl, arith, String, Bool, true, false, Option, none, some, [], ◌∷◌,
  sort_by, str_eq, insert_sorted,
}
use podarium.Model.Enums.{Stamp, seconds}
use podarium.Model.User.{User}
use podarium.Throttle.{
  wait_from, in_window, last_success, counts, attempt_times, username_failures, wait_of,
  username_wait, source_failures, source_wait, seconds_until_unlocked, record_attempt,
}
use podarium.SignIn.{
  Text, Unicode, lstrip, rstrip, cleaned, is_number, is_used, first_step, current_step, verify,
  LoginRequest, Answer, is_signed_in, Accounts, takes_step, claim_step, settled, claimed,
  second_factor, with_secret, authenticate, find_user, login,
}
use podarium.SignIn.Factor.{IsNear, login_once}
use podarium.SignIn.Enrol.{totp_confirmed, totp_enable, login_enabled}
use podarium.SignIn.Unknown.{login_unknown}

program : Unit {0}
unfolding lstrip rstrip cleaned is_number is_used first_step current_step verify takes_step
    claim_step settled claimed second_factor with_secret authenticate find_user login totp_confirmed
    totp_enable wait_from in_window last_success counts attempt_times username_failures wait_of
    username_wait source_failures source_wait seconds_until_unlocked record_attempt sort_by
    insert_sorted
program = tt

abbrev unicode : Unicode
unicode = record { is_space = λ c. c == 32; is_digit = λ c. true }

abbrev right : ℕ → Text → Bool
right s [] = false
right s (c ∷ cs) = c == s % 60

abbrev otp : String → Option (ℕ → Text → Bool)
otp secret = some right

abbrev user : User
user = record {
  id = 1;
  username = "ann";
  password_hash = "pw";
  created_at = 0;
  totp_secret = none;
  totp_last_step = none;
  inbox_seen_at = none;
}

abbrev secured : User
secured = record user { totp_secret = some "key" }

abbrev body : LoginRequest
body = record { username = "ann"; password = "pw"; totp_code = some (32 ∷ 40 ∷ []) }

abbrev accounts : User → Accounts
accounts u = record { users = u ∷ []; attempts = []; next_id = 1 }

-- In the fortieth half minute.
abbrev now : Stamp
now = seconds 1215

abbrev try : Stamp → Accounts → Answer × Accounts
try t a = login unicode str_eq some otp (λ l. l) t body none a

first_try : is_signed_in (try now (accounts secured)).0 ≡ true
unfolding program
first_try = refl

-- Both requests have read the row before either claims the step: the second one is refused.
replay :
    is_signed_in
      (login unicode str_eq some otp
        (λ l. (try now (accounts secured)).1.users)
        (seconds 1216)
        body
        none
        (accounts secured)).0
    ≡ false
unfolding program
replay = refl

-- A minute later, with the code of that half minute.
abbrev next_body : LoginRequest
next_body = record body { totp_code = some (42 ∷ []) }

next_try :
    is_signed_in
      (login unicode str_eq some otp
        (λ l. l)
        (seconds 1275)
        next_body
        none
        (try now (accounts secured)).1).0
    ≡ true
unfolding program
next_try = refl

login_once_example :
    (s : ℕ) × (s' : ℕ) × (s < s')
    × (right s (40 ∷ []) ≡ true)
    × (right s' (42 ∷ []) ≡ true)
    × IsNear now s
    × IsNear (seconds 1275) s'
unfolding program
login_once_example =
    login_once unicode str_eq some otp (λ l. l) (λ l. l) now (seconds 1275) body next_body none none
      (accounts secured) (try now (accounts secured)).1 secured
      (record secured { totp_last_step = some 40 }) right refl refl refl refl refl
      (λ s spent. spent) first_try next_try

abbrev enabled : User
enabled = record secured { totp_last_step = none }

-- The second factor is turned on a quarter of a minute before the end of its half minute, and the code
-- is used in the next one.
login_enabled_example : is_signed_in (try (seconds 1235) (accounts enabled)).0 ≡ true
unfolding program
login_enabled_example =
    login_enabled unicode str_eq (λ s. s) some otp (seconds 1235) now user enabled "key"
      (32 ∷ 40 ∷ []) right "ann" "pw" none (accounts enabled) refl refl refl (omega arith)
      (omega arith) refl refl refl refl refl

abbrev wrong : LoginRequest
wrong = record body { password = "pass" }

abbrev nobody : Accounts
nobody = record { users = []; attempts = []; next_id = 1 }

abbrev SameReply : Answer × Accounts → Answer × Accounts → Type 0
SameReply r r' = (r.0 ≡ r'.0) × (r.1.attempts ≡ r'.1.attempts) × (r.1.next_id ≡ r'.1.next_id)

login_unknown_example :
    SameReply
      (login unicode str_eq some otp (λ l. l) now wrong none nobody)
      (login unicode str_eq some otp (λ l. l) now wrong none (accounts secured))
unfolding program
login_unknown_example =
    login_unknown unicode str_eq some otp (λ l. l) (λ l. l) now wrong none nobody (accounts secured)
      secured refl refl refl refl refl
