-- ===== src/SignIn.antt =====
-- Signing in, the second factor and the tokens: src/podarium/api/auth_routes.py and `verify` of
-- src/podarium/totp.py. A text that is taken apart is the list of its code points. The cookie and
-- the semaphore around the hashing are left out.
pub mod Factor
pub mod Enrol
pub mod Tokens
pub mod Unknown
mod Tests
use podarium.Prelude.{
  ℕ, suc, ◌+◌, ◌-◌, ◌/◌, String, Bool, true, false, ◌&&◌, ◌||◌, not, Option, none, some, List, [],
  ◌∷◌, ◌++◌, ltb, leb, ◌==◌, if◌then◌else◌, is_some, is_none, find, any, all, filter, sort_by,
  str_eq,
}
use podarium.Model.Enums.{Stamp, seconds}
use podarium.Model.User.{User, ApiToken, LoginAttempt}
use podarium.Timeline.{is_set}
use podarium.Throttle.{seconds_until_unlocked, record_attempt}

abbrev pub Text : Type 0
Text = List ℕ

-- The tests that Unicode has for a code point.
pub record Unicode : Type 0 where
  pub is_space : ℕ → Bool
  pub is_digit : ℕ → Bool

unfoldable pub lstrip : Unicode → Text → Text
lstrip t [] = []
lstrip t (c ∷ cs) = if t.is_space c then lstrip t cs else c ∷ cs

unfoldable pub rstrip : Unicode → Text → Text
rstrip t [] = []
rstrip t (c ∷ cs) = elim (rstrip t cs) [
  | [] ↦ if t.is_space c then [] else c ∷ []
  | d ∷ ds ↦ c ∷ d ∷ ds
]

-- `(code or "").strip().replace(" ", "")`
unfoldable pub cleaned : Unicode → Text → Text
unfolding lstrip rstrip
cleaned t code = filter (λ c. not (c == 32)) (rstrip t (lstrip t code))

-- `code.isdigit()`
unfoldable pub is_number : Unicode → Text → Bool
is_number t [] = false
is_number t (c ∷ cs) = all t.is_digit (c ∷ cs)

-- `last_step is not None and step <= last_step`
unfoldable pub is_used : Option ℕ → ℕ → Bool
is_used none step = false
is_used (some last) step = leb step last

-- The first step at which the code is right, if it has not been used.
unfoldable pub first_step : (ℕ → Text → Bool) → Text → Option ℕ → List ℕ → Option ℕ
unfolding is_used
first_step right code last [] = none
first_step right code last (step ∷ steps) =
    let rest = first_step right code last steps in
    if right step code then if is_used last step then none else some step else rest

-- `now // 30`, by a clock that is past the first half minute of 1970.
unfoldable pub current_step : Stamp → ℕ
current_step now = now / seconds 30

-- With the one-time passwords of a secret, or `none` if it is not base32 and `verify` raises. The
-- result is `none` for the error.
unfoldable pub verify :
    Unicode → Option (ℕ → Text → Bool) → Stamp → Text → Option ℕ → Option (Option ℕ)
unfolding cleaned is_number first_step current_step
verify t otp now code last =
    if is_number t (cleaned t code)
    then elim otp [
      | none ↦ none
      | some right ↦
          let step = current_step now in
          some (first_step right (cleaned t code) last ((step - 1) ∷ step ∷ (step + 1) ∷ []))
    ]
    else some none

pub record LoginRequest : Type 0 where
  pub username : String
  pub password : String
  pub totp_code : Option Text

-- The answers of `login`; `raised` is an error that nothing catches.
pub data Answer : Type 0 where
  signed_in : User → Answer
  locked : ℕ → Answer
  invalid_credentials unreadable_secret totp_required raised : Answer

abbrev pub is_signed_in : Answer → Bool
is_signed_in (signed_in u) = true
is_signed_in _ = false

pub record Accounts : Type 0 where
  pub users : List User
  pub attempts : List LoginAttempt
  pub next_id : ℕ

-- `totp_last_step IS NULL OR totp_last_step < step`
unfoldable pub takes_step : ℕ → ℕ → User → Bool
unfolding is_used
takes_step id step u = u.id == id && not (is_used u.totp_last_step step)

-- The conditional update: whether it wrote the row, and the rows afterwards.
unfoldable pub claim_step : ℕ → ℕ → List User → Bool × List User
unfolding takes_step
claim_step id step [] = (false, [])
claim_step id step (u ∷ us) =
    let rest = claim_step id step us in
    if takes_step id step u
    then (true, record u { totp_last_step = some step } ∷ rest.1)
    else (rest.0, u ∷ rest.1)

-- An answer as it is recorded, with the rows of the users at that moment.
unfoldable pub settled :
    Stamp → LoginRequest → Option String → Accounts → Answer → List User → Answer × Accounts
settled now body source a raised users = (raised, record a { users = users })
settled now body source a answer users = (
  answer,
  record {
    users = users;
    attempts =
        record_attempt a.next_id now now body.username (is_signed_in answer) source a.attempts;
    next_id = a.next_id + 1;
  },
)

unfoldable pub find_user : String → List User → Option User
find_user name users = find (λ u. str_eq u.username name) users

-- `raced` is what others commit to the rows between the reading of one and the claim of a step.
module _ (t : Unicode) (verify_password : String → String → Bool) (decrypt : String → Option String)
    (otp : String → Option (ℕ → Text → Bool)) (raced : List User → List User) (now : Stamp) where
  -- The claim of the step that a code is for.
  unfoldable pub claimed : User → List User → Option (Option ℕ) → Answer × List User
  unfolding claim_step
  claimed u users none = (raised, raced users)
  claimed u users (some none) = (invalid_credentials, raced users)
  claimed u users (some (some step)) =
      let r = claim_step u.id step (raced users) in
      if r.0
      then (signed_in (record u { totp_last_step = some step }), r.1)
      else (invalid_credentials, r.1)

  -- The second factor, by the secret as it is decrypted.
  unfoldable pub second_factor : User → List User → Option Text → Option String → Answer × List User
  unfolding claimed verify
  second_factor u users code none = (unreadable_secret, users)
  second_factor u users none (some secret) = (totp_required, users)
  second_factor u users (some []) (some secret) = (totp_required, users)
  second_factor u users (some (c ∷ cs)) (some secret) =
      claimed u users (verify t (otp secret) now (c ∷ cs) u.totp_last_step)

  unfoldable pub with_secret : User → List User → Option Text → Option String → Answer × List User
  unfolding second_factor
  with_secret u users code none = (signed_in u, users)
  with_secret u users code (some stored) =
      if is_set (some stored)
      then second_factor u users code (decrypt stored)
      else (signed_in u, users)

  -- By the row of the username.
  unfoldable pub authenticate : LoginRequest → List User → Option User → Answer × List User
  unfolding with_secret
  authenticate body users none = (invalid_credentials, users)
  authenticate body users (some u) =
      if verify_password u.password_hash body.password
      then with_secret u users body.totp_code u.totp_secret
      else (invalid_credentials, users)

  unfoldable pub login : LoginRequest → Option String → Accounts → Answer × Accounts
  unfolding authenticate settled find_user
  login body source a =
      let wait = seconds_until_unlocked body.username source now now now now a.attempts in
      let r = authenticate body a.users (find_user body.username a.users) in
      if ltb 0 wait then (locked wait, a) else settled now body source a r.0 r.1
