-- ===== src/Throttle/Window.antt =====
-- Which attempts count towards a lockout.
use podarium.Prelude.{
  ◌+◌, ◌≤◌, ◌≡◌, refl, fun_ext, ap, ◌∙◌, String, Bool, true, ◌&&◌, ◌||◌, not, Option, List, [], ◌∷◌,
  arith, ltb, leb, filter, all, str_eq, Bool-cases, inl, inr,
}
use podarium.Model.Enums.{Stamp}
use podarium.Model.User.{LoginAttempt}
use podarium.Throttle.{
  retention, window, in_window, last_success, is_after, counts, username_failures, attempt_times,
}

-- Every success of the user's stands before the moment.
unfoldable pub after_successes : String → Stamp → List LoginAttempt → Bool
after_successes u t = all (λ a. not (str_eq a.username u && a.succeeded) || ltb a.attempted_at t)

-- The maximum stands for every success.
pub is_after-last_success :
    (u : String) (t : Stamp) (as_ : List LoginAttempt)
    → is_after (last_success u as_) t ≡ after_successes u t as_
unfolding last_success after_successes
is_after-last_success u t [] = refl
is_after-last_success u t (a ∷ as_) = ground (arith, is_after-last_success u t as_)

-- The rows that `record_attempt` keeps.
abbrev pub is_kept : Stamp → LoginAttempt → Bool
is_kept now a = leb now (a.attempted_at + retention)

module _ (u : String) (now : Stamp) where
  -- An old success stands before everything in the window anyway.
  after_successes_kept :
      (t : Stamp) (as_ : List LoginAttempt)
      → now ≤ t + window
      → after_successes u t (filter (is_kept now) as_) ≡ after_successes u t as_
  unfolding after_successes
  after_successes_kept t [] h = refl
  after_successes_kept t (a ∷ as_) h = ground (arith, after_successes_kept t as_ h)

  counts_kept :
      (later : Stamp) (as_ : List LoginAttempt) (a : LoginAttempt)
      → now ≤ later
      → counts u later (last_success u (filter (is_kept now) as_)) a
        ≡ counts u later (last_success u as_) a
  unfolding counts
  counts_kept later as_ a h = elim (Bool-cases (in_window later a)) [
    | inl e ↦ rw (
      is_after-last_success u a.attempted_at (filter (is_kept now) as_),
      is_after-last_success u a.attempted_at as_,
      after_successes_kept a.attempted_at as_ (within later a h e),
    )
    | inr e ↦ ground arith
  ]
    where
      within :
          (later : Stamp) (a : LoginAttempt)
          → now ≤ later
          → in_window later a ≡ true
          → now ≤ a.attempted_at + window
      within later a h e = ground arith

  filter_kept :
      (later : Stamp) (last : Option Stamp) (as_ : List LoginAttempt)
      → now ≤ later
      → filter (counts u later last) (filter (is_kept now) as_) ≡ filter (counts u later last) as_
  unfolding counts
  filter_kept later last [] h = refl
  filter_kept later last (a ∷ as_) h = ground (arith, filter_kept later last as_ h)

  -- Forgetting old rows changes no reckoning.
  pub username_failures_kept :
      (later : Stamp) (as_ : List LoginAttempt)
      → now ≤ later
      → username_failures u later (filter (is_kept now) as_) ≡ username_failures u later as_
  unfolding username_failures
  username_failures_kept later as_ h = ap attempt_times (
      ap (λ f. filter f (filter (is_kept now) as_)) (fun_ext (λ a. counts_kept later as_ a h))
      ∙ filter_kept later _ as_ h)
