-- ===== src/SignIn/Enrol.antt =====
-- Turning the second factor on and off: `totp_setup`, `totp_enable` and `totp_disable` of
-- src/podarium/api/auth_routes.py. The row is the one that the session of the request is for.
use podarium.Prelude.{
  ℕ, ◌+◌, ◌-◌, ◌≡◌, ◌≤◌, ◌==◌, ==_iff, any, refl, arith, String, Bool, true, Option, none, some,
  List, [], ◌∷◌, if◌then◌else◌, is_some, find, Bool-cases, inl, inr, sym, ap, subst, str_eq,
}
use podarium.Model.Enums.{Stamp}
use podarium.Model.User.{User}
use podarium.Timeline.{is_set}
use podarium.Throttle.{seconds_until_unlocked}
use podarium.SignIn.{
  Text, Unicode, first_step, current_step, is_used, cleaned, is_number, verify, LoginRequest,
  Answer, signed_in, locked, invalid_credentials, unreadable_secret, totp_required, raised,
  is_signed_in, lstrip, rstrip, Accounts, takes_step, claim_step, settled, claimed, second_factor,
  with_secret, authenticate, find_user, login,
}

pub data Reply {ℓ} (A : Type ℓ) : Type ℓ where
  replied : A → Reply A
  -- The status of the refusal.
  refused : ℕ → Reply A

-- The secret that is shown. Nothing is stored.
unfoldable pub totp_setup : String → User → Reply String
totp_setup fresh u = if is_some u.totp_secret then refused 409 else replied fresh

-- By the step of the code; an error of `verify` is caught.
unfoldable pub totp_confirmed : String → User → Option (Option ℕ) → Reply User
totp_confirmed stored u none = refused 400
totp_confirmed stored u (some none) = refused 400
totp_confirmed stored u (some (some step)) =
    replied (record u { totp_secret = some stored; totp_last_step = none })

unfoldable pub totp_enable :
    Unicode
    → (String → String)
    → (String → Option (ℕ → Text → Bool))
    → Stamp
    → String
    → Text
    → User
    → Reply User
unfolding totp_confirmed verify
totp_enable t encrypt otp now secret code u =
    if is_some u.totp_secret
    then refused 409
    else totp_confirmed (encrypt secret) u (verify t (otp secret) now code none)

unfoldable pub totp_disable : (String → String → Bool) → String → User → Reply User
totp_disable verify_password password u =
    if verify_password u.password_hash password
    then replied (record u { totp_secret = none; totp_last_step = none })
    else refused 401

-- The row that is found is one that the claim may write.
claim_step-find :
    (p : User → Bool) (s : ℕ) (users : List User) {u : User}
    → find p users ≡ some u
    → takes_step u.id s u ≡ true
    → (claim_step u.id s users).0 ≡ true
unfolding claim_step
claim_step-find p s [] {u} h k = absurd (ground arith)
claim_step-find p s (x ∷ xs) {u} h k = elim (Bool-cases (p x)) [
  | inl e ↦
      let same : u ≡ x = ground arith in rw (subst (λ y. takes_step u.id s y ≡ true) same k) refl
  | inr e ↦ elim (Bool-cases (takes_step u.id s x)) [
    | inl t ↦ rw t refl
    | inr t ↦ rw t (claim_step-find p s xs {u = u} (ground arith) k)
  ]
]

-- What a confirmation has stored.
totp_confirmed-replied :
    (stored : String) (u : User) (v : Option (Option ℕ)) {u' : User}
    → totp_confirmed stored u v ≡ replied u'
    → (record u { totp_secret = some stored; totp_last_step = none } ≡ u')
      × (s : ℕ) × (v ≡ some (some s))
unfolding totp_confirmed
totp_confirmed-replied stored u none h = absurd (ground arith)
totp_confirmed-replied stored u (some none) h = absurd (ground arith)
totp_confirmed-replied stored u (some (some s)) h = (ground arith, s, refl)

-- A code that is right at one of the steps is found where none has been used.
first_step_found :
    (right : ℕ → Text → Bool) (code : Text) (steps : List ℕ)
    → any (λ s. right s code) steps ≡ true
    → (s : ℕ) × (first_step right code none steps ≡ some s)
unfolding first_step is_used
first_step_found right code [] h = absurd (ground arith)
first_step_found right code (x ∷ xs) h = elim (Bool-cases (right x code)) [
  | inl e ↦ (x, rw e refl)
  | inr e ↦ let (s, found) = first_step_found right code xs (ground arith) in (s, rw e found)
]

verify-is_number :
    (t : Unicode) (otp : Option (ℕ → Text → Bool)) (now : Stamp) (code : Text) (last : Option ℕ)
    {s : ℕ}
    → verify t otp now code last ≡ some (some s)
    → is_number t (cleaned t code) ≡ true
unfolding verify
verify-is_number t otp now code last {s} h = elim (Bool-cases (is_number t (cleaned t code))) [
  | inl e ↦ e
  | inr e ↦ absurd (ground arith)
]

-- The code of a half minute is accepted in it and in the next one.
verify_on_screen :
    (t : Unicode) (right : ℕ → Text → Bool) (shown now : Stamp) (code : Text)
    → is_number t (cleaned t code) ≡ true
    → right (current_step shown) (cleaned t code) ≡ true
    → current_step shown ≤ current_step now
    → current_step now ≤ current_step shown + 1
    → (s : ℕ) × (verify t (some right) now code none ≡ some (some s))
unfolding verify
verify_on_screen t right shown now code digits good le le' =
    let step = current_step now in
    let tried : any (λ s. right s (cleaned t code)) ((step - 1) ∷ step ∷ (step + 1) ∷ []) ≡ true =
      elim (Bool-cases (current_step shown == step)) [
        | inl same ↦
            let k : right step (cleaned t code) ≡ true =
              subst (λ x. right x (cleaned t code) ≡ true) (omega (arith, (==_iff _ _).0 same))
                good in
            ground arith
        | inr other ↦
            let earlier : current_step shown ≡ step - 1 = ground arith in
            let k : right (step - 1) (cleaned t code) ≡ true =
              subst (λ x. right x (cleaned t code) ≡ true) earlier good in
            ground arith
      ] in
    let (s, found) =
      first_step_found right (cleaned t code) ((step - 1) ∷ step ∷ (step + 1) ∷ []) tried in
    (s, rw (digits, found) refl)

module _ (t : Unicode) (verify_password : String → String → Bool) (encrypt : String → String)
    (decrypt : String → Option String) (otp : String → Option (ℕ → Text → Bool)) (now : Stamp) where
  abbrev Enabled : User → String → Text → User → Type 0
  Enabled u secret code u' =
      (u'.totp_secret ≡ some (encrypt secret))
      × (u'.totp_last_step ≡ none)
      × (s : ℕ) × (verify t (otp secret) now code none ≡ some (some s))

  totp_enable-Enabled :
      (u : User) (secret : String) (code : Text) {u' : User}
      → totp_enable t encrypt otp now secret code u ≡ replied u'
      → Enabled u secret code u'
  unfolding totp_enable
  totp_enable-Enabled u secret code {u'} h = elim (Bool-cases (is_some u.totp_secret)) [
    | inl e ↦ absurd (ground arith)
    | inr e ↦
        let (row, s, v) =
          totp_confirmed-replied (encrypt secret) u (verify t (otp secret) now code none) {u' = u'}
            (ground arith) in
        (
          ap (λ (x : User). x.totp_secret) (sym row),
          ap (λ (x : User). x.totp_last_step) (sym row),
          s,
          v,
        )
  ]

module _ (t : Unicode) (verify_password : String → String → Bool) (encrypt : String → String)
    (decrypt : String → Option String) (otp : String → Option (ℕ → Text → Bool)) (now : Stamp) where
  abbrev SignsIn : Answer × List User → Type 0
  SignsIn r = is_signed_in r.0 ≡ true

  module _ (u : User) (users : List User) (s : ℕ) (free : (claim_step u.id s users).0 ≡ true) where
    claimed-SignsIn :
        (v : Option (Option ℕ))
        → v ≡ some (some s)
        → SignsIn (claimed t verify_password decrypt otp (λ l. l) now u users v)
    unfolding claimed
    claimed-SignsIn v h = rw (h, free) refl

    second_factor-SignsIn :
        (secret : String) (code : Text)
        → verify t (otp secret) now code u.totp_last_step ≡ some (some s)
        → SignsIn (
            second_factor t verify_password decrypt otp
              (λ l. l)
              now
              u
              users
              (some code)
              (some secret))
    unfolding second_factor verify cleaned lstrip rstrip is_number
    second_factor-SignsIn secret [] h = absurd (ground arith)
    second_factor-SignsIn secret (c ∷ cs) h =
        claimed-SignsIn (verify t (otp secret) now (c ∷ cs) u.totp_last_step) h

    with_secret-SignsIn :
        (secret : String) (code : Text) (o : Option String)
        → o ≡ some (encrypt secret)
        → is_set (some (encrypt secret)) ≡ true
        → decrypt (encrypt secret) ≡ some secret
        → verify t (otp secret) now code u.totp_last_step ≡ some (some s)
        → SignsIn (with_secret t verify_password decrypt otp (λ l. l) now u users (some code) o)
    unfolding with_secret
    with_secret-SignsIn secret code o stored full back v =
        rw (stored, full, back) (second_factor-SignsIn secret code v)

  settled_answer :
      (body : LoginRequest) (source : Option String) (a : Accounts) (r : Answer × List User)
      → SignsIn r
      → is_signed_in (settled now body source a r.0 r.1).0 ≡ true
  unfolding settled
  settled_answer body source a (signed_in u, us) h = refl
  settled_answer body source a (locked n, us) h = absurd (ground arith)
  settled_answer body source a (invalid_credentials, us) h = absurd (ground arith)
  settled_answer body source a (unreadable_secret, us) h = absurd (ground arith)
  settled_answer body source a (totp_required, us) h = absurd (ground arith)
  settled_answer body source a (raised, us) h = absurd (ground arith)

  -- The code of a half minute that has turned the second factor on signs in during it and the next
  -- one: with the password, where the name is not locked, nobody else commits in between, and a secret
  -- that was encrypted is not empty and can be read back.
  pub login_enabled :
      (shown : Stamp) (u u' : User) (secret : String) (code : Text) (right : ℕ → Text → Bool)
      (name password : String) (source : Option String) (a : Accounts)
      → totp_enable t encrypt otp shown secret code u ≡ replied u'
      → otp secret ≡ some right
      → right (current_step shown) (cleaned t code) ≡ true
      → current_step shown ≤ current_step now
      → current_step now ≤ current_step shown + 1
      → is_set (some (encrypt secret)) ≡ true
      → decrypt (encrypt secret) ≡ some secret
      → find_user name a.users ≡ some u'
      → verify_password u'.password_hash password ≡ true
      → seconds_until_unlocked name source now now now now a.attempts ≡ 0
      → is_signed_in
          (login t verify_password decrypt otp
            (λ l. l)
            now
            (record { username = name; password = password; totp_code = some code })
            source
            a).0
        ≡ true
  unfolding login authenticate find_user takes_step is_used
  login_enabled shown u u' secret code right name password source a on codes good le le' full back
        found known free =
      let (stored, unused, s0, v0) =
        totp_enable-Enabled t verify_password encrypt decrypt otp shown u secret code on in
      let digits = verify-is_number t (otp secret) shown code none v0 in
      let (s, v) = verify_on_screen t right shown now code digits good le le' in
      let open_step : (claim_step u'.id s a.users).0 ≡ true =
        claim_step-find (λ x. str_eq x.username name) s a.users found (ground arith) in
      let v' : verify t (otp secret) now code u'.totp_last_step ≡ some (some s) =
        subst (λ l. verify t (otp secret) now code l ≡ some (some s)) (sym unused)
          (subst (λ o. verify t o now code none ≡ some (some s)) (sym codes) v) in
      rw (free, found, known)
        (settled_answer (record { username = name; password = password; totp_code = some code })
          source a _
          (with_secret-SignsIn u' a.users s open_step secret code u'.totp_secret stored full back
            v'))
