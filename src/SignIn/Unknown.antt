-- ===== src/SignIn/Unknown.antt =====
-- What an answer tells about a username.
use podarium.Prelude.{
  ℕ, ◌≡◌, refl, String, Bool, false, Option, none, some, List, ltb, Bool-cases, inl, inr,
}
use podarium.Model.Enums.{Stamp}
use podarium.Model.User.{User}
use podarium.Throttle.{seconds_until_unlocked}
use podarium.SignIn.{Text, Unicode, LoginRequest, Accounts, settled, authenticate, find_user, login}

module _ (t : Unicode) (verify_password : String → String → Bool) (decrypt : String → Option String)
    (otp : String → Option (ℕ → Text → Bool)) (raced raced' : List User → List User)
    (now : Stamp) where
  -- A name that nobody has and a wrong password get the same answer, are recorded in the same way
  -- and so count towards the same lock, whatever the second factor of the user is.
  pub login_unknown :
      (body : LoginRequest) (source : Option String) (a a' : Accounts) (u : User)
      → a.attempts ≡ a'.attempts
      → a.next_id ≡ a'.next_id
      → find_user body.username a.users ≡ none
      → find_user body.username a'.users ≡ some u
      → verify_password u.password_hash body.password ≡ false
      → let r = login t verify_password decrypt otp raced now body source a in
        let r' = login t verify_password decrypt otp raced' now body source a' in
        (r.0 ≡ r'.0) × (r.1.attempts ≡ r'.1.attempts) × (r.1.next_id ≡ r'.1.next_id)
  unfolding login authenticate settled
  login_unknown body source a a' u same ids nobody found wrong =
      let wait = seconds_until_unlocked body.username source now now now now a'.attempts in
      elim (Bool-cases (ltb 0 wait)) [
        | inl e ↦ rw (same, e) (refl, refl, ids)
        | inr e ↦ rw (same, nobody, found, wrong, e, ids) (refl, refl, refl)
      ]
