-- ===== src/SignIn/Factor.antt =====
-- The code of a step signs in once.
use podarium.Prelude.{
  ℕ, ◌+◌, ◌-◌, ◌≡◌, ◌≤◌, ◌<◌, refl, arith, sym, subst, String, Bool, true, false, Option, none,
  some, List, [], ◌∷◌, ltb, if◌then◌else◌, All, Bool-cases, inl, inr,
}
use podarium.Model.Enums.{Stamp}
use podarium.Model.User.{User}
use podarium.Timeline.{is_set}
use podarium.Throttle.{seconds_until_unlocked}
use podarium.SignIn.{
  Text, Unicode, is_used, first_step, current_step, verify, LoginRequest, Answer, signed_in, locked,
  invalid_credentials, unreadable_secret, totp_required, raised, is_signed_in, Accounts, takes_step,
  claim_step, settled, claimed, second_factor, with_secret, authenticate, find_user, login, cleaned,
  is_number,
}

-- A step that `verify` tries at a moment: that of the moment, the one before it or the one after it.
abbrev pub IsNear : Stamp → ℕ → Type 0
IsNear now s = (current_step now ≤ s + 1) × (s ≤ current_step now + 1)

-- The first step that is found is one of the steps, at which the code is right.
first_step-right :
    (now : Stamp) (right : ℕ → Text → Bool) (code : Text) (last : Option ℕ) (steps : List ℕ) {s : ℕ}
    → All (IsNear now) steps
    → first_step right code last steps ≡ some s
    → (right s code ≡ true) × IsNear now s
unfolding first_step
first_step-right now right code last [] near h = absurd (ground arith)
first_step-right now right code last (x ∷ xs) {s} near h = elim (Bool-cases (right x code)) [
  | inl e ↦ elim (Bool-cases (is_used last x)) [
    | inl used ↦ absurd (ground arith)
    | inr free ↦
        let same : x ≡ s = ground arith in
        (subst (λ y. right y code ≡ true) same e, subst (IsNear now) same near.0)
  ]
  | inr e ↦ first_step-right now right code last xs near.1 (ground arith)
]

verify-right :
    (t : Unicode) (right : ℕ → Text → Bool) (now : Stamp) (code : Text) (last : Option ℕ) {s : ℕ}
    → verify t (some right) now code last ≡ some (some s)
    → (right s (cleaned t code) ≡ true) × IsNear now s
unfolding verify
verify-right t right now code last {s} h = elim (Bool-cases (is_number t (cleaned t code))) [
  | inl e ↦
      first_step-right now right (cleaned t code) last
        ((current_step now - 1) ∷ current_step now ∷ (current_step now + 1) ∷ [])
        ((omega arith, omega arith), ((omega arith, omega arith), ((omega arith, omega arith), tt)))
        (ground arith)
  | inr e ↦ absurd (ground arith)
]

-- No row of the user may take the step.
abbrev pub IsSpent : ℕ → ℕ → List User → Type 0
IsSpent id s users = All (λ u. takes_step id s u ≡ false) users

taken_later :
    (id s s' : ℕ) (u : User) → takes_step id s' u ≡ true → takes_step id s u ≡ false → s < s'
unfolding takes_step is_used
taken_later id s s' u h k = ground arith

-- Where a step is spent, only a later one is claimed.
claim_step-later :
    (id s s' : ℕ) (users : List User)
    → IsSpent id s users
    → (claim_step id s' users).0 ≡ true
    → s < s'
unfolding claim_step
claim_step-later id s s' [] spent h = absurd (ground arith)
claim_step-later id s s' (u ∷ us) spent h = elim (Bool-cases (takes_step id s' u)) [
  | inl e ↦ taken_later id s s' u e spent.0
  | inr e ↦ claim_step-later id s s' us spent.1 (ground arith)
]

-- A claim leaves its step spent, also where it is refused.
claim_step_spends : (id s : ℕ) (users : List User) → IsSpent id s (claim_step id s users).1
unfolding claim_step takes_step is_used
claim_step_spends id s [] = tt
claim_step_spends id s (u ∷ us) = elim (Bool-cases (takes_step id s u)) [
  | inl e ↦ rw e (ground arith, claim_step_spends id s us)
  | inr e ↦ rw e (e, claim_step_spends id s us)
]

module _ (t : Unicode) (verify_password : String → String → Bool) (decrypt : String → Option String)
    (otp : String → Option (ℕ → Text → Bool)) where
  abbrev of_secret : Option String → Option (ℕ → Text → Bool)
  of_secret none = none
  of_secret (some secret) = otp secret

  -- The one-time passwords of a stored secret, if there is one and it can be read.
  abbrev pub passwords : Option String → Option (ℕ → Text → Bool)
  passwords none = none
  passwords (some stored) = if is_set (some stored) then of_secret (decrypt stored) else none

  -- The code that is checked, and nothing where none is given.
  abbrev pub given : Option Text → Text
  given none = []
  given (some code) = cleaned t code

  module _ (raced : List User → List User) (now : Stamp) where
    -- Who is signed in has claimed a step at which the code is right, and that is near the moment.
    abbrev Claims : (ℕ → Text → Bool) → Text → ℕ → List User → Answer × List User → Type 0
    Claims right code id users r =
        is_signed_in r.0 ≡ true
        → (s : ℕ) × (right s code ≡ true)
          × IsNear now s
          × ((claim_step id s (raced users)).0 ≡ true)
          × (r.1 ≡ (claim_step id s (raced users)).1)

    claimed-Claims :
        (u : User) (users : List User) (right : ℕ → Text → Bool) (code : Text)
        (v : Option (Option ℕ))
        → ((s : ℕ) → v ≡ some (some s) → (right s code ≡ true) × IsNear now s)
        → Claims right code u.id users (claimed t verify_password decrypt otp raced now u users v)
    unfolding claimed
    claimed-Claims u users right code none h = λ k. absurd (ground arith)
    claimed-Claims u users right code (some none) h = λ k. absurd (ground arith)
    claimed-Claims u users right code (some (some s)) h =
        elim (Bool-cases (claim_step u.id s (raced users)).0) [
          | inl e ↦ let (good, near) = h s refl in rw e (λ k. (s, good, near, e, refl))
          | inr e ↦ rw e (λ k. absurd (ground arith))
        ]

    second_factor-Claims :
        (u : User) (users : List User) (right : ℕ → Text → Bool) (code : Option Text)
        (d : Option String)
        → of_secret d ≡ some right
        → Claims right
            (given code)
            u.id
            users
            (second_factor t verify_password decrypt otp raced now u users code d)
    unfolding second_factor
    second_factor-Claims u users right code none h = λ k. absurd (ground arith)
    second_factor-Claims u users right none (some secret) h = λ k. absurd (ground arith)
    second_factor-Claims u users right (some []) (some secret) h = λ k. absurd (ground arith)
    second_factor-Claims u users right (some (c ∷ cs)) (some secret) h =
        claimed-Claims u users right (cleaned t (c ∷ cs))
          (verify t (otp secret) now (c ∷ cs) u.totp_last_step)
          (λ s v.
            verify-right t right now (c ∷ cs) u.totp_last_step
              (subst (λ o. verify t o now (c ∷ cs) u.totp_last_step ≡ some (some s)) h v))

    with_secret-Claims :
        (u : User) (users : List User) (right : ℕ → Text → Bool) (code : Option Text)
        (o : Option String)
        → passwords o ≡ some right
        → Claims right
            (given code)
            u.id
            users
            (with_secret t verify_password decrypt otp raced now u users code o)
    unfolding with_secret
    with_secret-Claims u users right code none h = absurd (ground arith)
    with_secret-Claims u users right code (some stored) h =
        elim (Bool-cases (is_set (some stored))) [
          | inl e ↦ rw e (
              second_factor-Claims u users right code (decrypt stored)
                (subst (λ b. (if b then of_secret (decrypt stored) else none) ≡ some right) e h))
          | inr e ↦
              let k : none ≡ some right =
                subst (λ b. (if b then of_secret (decrypt stored) else none) ≡ some right) e h in
              absurd (ground arith)
        ]

    authenticate-Claims :
        (body : LoginRequest) (u : User) (users : List User) (right : ℕ → Text → Bool)
        → passwords u.totp_secret ≡ some right
        → Claims right
            (given body.totp_code)
            u.id
            users
            (authenticate t verify_password decrypt otp raced now body users (some u))
    unfolding authenticate
    authenticate-Claims body u users right h =
        elim (Bool-cases (verify_password u.password_hash body.password)) [
          | inl e ↦ rw e (with_secret-Claims u users right body.totp_code u.totp_secret h)
          | inr e ↦ rw e (λ k. absurd (ground arith))
        ]

    settled-users :
        (body : LoginRequest) (source : Option String) (a : Accounts) (answer : Answer)
        (users : List User)
        → ((settled now body source a answer users).0 ≡ answer)
          × ((settled now body source a answer users).1.users ≡ users)
    unfolding settled
    settled-users body source a (signed_in u) users = (refl, refl)
    settled-users body source a (locked n) users = (refl, refl)
    settled-users body source a invalid_credentials users = (refl, refl)
    settled-users body source a unreadable_secret users = (refl, refl)
    settled-users body source a totp_required users = (refl, refl)
    settled-users body source a raised users = (refl, refl)

    login-Claims :
        (body : LoginRequest) (source : Option String) (a : Accounts) (u : User)
        (right : ℕ → Text → Bool)
        → find_user body.username a.users ≡ some u
        → passwords u.totp_secret ≡ some right
        → let r = login t verify_password decrypt otp raced now body source a in
          Claims right (given body.totp_code) u.id a.users (r.0, r.1.users)
    unfolding login
    login-Claims body source a u right found h =
        let wait = seconds_until_unlocked body.username source now now now now a.attempts in
        elim (Bool-cases (ltb 0 wait)) [
          | inl e ↦ rw e (λ k. absurd (ground arith))
          | inr e ↦
              rw (e, found)
                (let r =
                    authenticate t verify_password decrypt otp raced now body a.users (some u) in
                  rw
                    (
                      (settled-users body source a r.0 r.1).0,
                      (settled-users body source a r.0 r.1).1,
                    )
                    (authenticate-Claims body u a.users right h))
        ]

  -- Where a user with a second factor has signed in, and signs in again, in a request that claimed its
  -- step after the first one did: the second code is right at a later step than the first one, and
  -- each at a step that is at most one away from that of its request. So the code of a step signs in
  -- once, wherever the second request stood when the first one claimed it. This is as long as what
  -- others commit after the first claim does not give the step back.
  pub login_once :
      (raced raced' : List User → List User) (now now' : Stamp) (body body' : LoginRequest)
      (source source' : Option String) (a a' : Accounts) (u u' : User) (right : ℕ → Text → Bool)
      → find_user body.username a.users ≡ some u
      → find_user body'.username a'.users ≡ some u'
      → u'.id ≡ u.id
      → passwords u.totp_secret ≡ some right
      → passwords u'.totp_secret ≡ some right
      → ((s : ℕ)
          → IsSpent u.id s (login t verify_password decrypt otp raced now body source a).1.users
          → IsSpent u.id s (raced' a'.users))
      → is_signed_in (login t verify_password decrypt otp raced now body source a).0 ≡ true
      → is_signed_in (login t verify_password decrypt otp raced' now' body' source' a').0 ≡ true
      → (s : ℕ) × (s' : ℕ) × (s < s')
        × (right s (given body.totp_code) ≡ true)
        × (right s' (given body'.totp_code) ≡ true)
        × IsNear now s
        × IsNear now' s'
  login_once raced raced' now now' body body' source source' a a' u u' right f f' same h h' kept
        first again =
      let (s, good, near, won, table) = login-Claims raced now body source a u right f h first in
      let (s', good', near', won', table') =
        login-Claims raced' now' body' source' a' u' right f' h' again in
      let spent : IsSpent u.id s (raced' a'.users) =
        kept s (subst (IsSpent u.id s) (sym table) (claim_step_spends u.id s (raced a.users))) in
      let won_same : (claim_step u.id s' (raced' a'.users)).0 ≡ true =
        subst (λ i. (claim_step i s' (raced' a'.users)).0 ≡ true) same won' in
      (s, s', claim_step-later u.id s s' (raced' a'.users) spent won_same, good, good', near, near')
