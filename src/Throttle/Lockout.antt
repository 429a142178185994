-- ===== src/Throttle/Lockout.antt =====
-- When a username is locked out, for how long, and what another attempt changes.
use podarium.Prelude.{
  ℕ, suc, ◌+◌, ◌≤◌, ◌<◌, ◌≡◌, ◌↔◌, refl, ap, ◌∙◌, String, Bool, true, false, Option, List, [], ◌∷◌,
  map, arith, ltb, leb, if◌then◌else◌, filter, All, All-sort_by, str_eq_refl, Bool-cases, inl, inr,
  length, length-sort_by, sort_by, insert_sorted, IsSorted, filter_drops,
}
use podarium.Model.Enums.{Stamp}
use podarium.Model.User.{LoginAttempt}
use podarium.Throttle.{
  window, last_success, counts, username_failures, record_attempt, attempt_times, username_wait,
  wait_from, wait_of,
}
use podarium.Throttle.Window.{username_failures_kept, after_successes, is_after-last_success}
use podarium.Throttle.Wait.{
  nth-All, wait_of_nth, wait_of-insert_sorted, attempt_times-IsSorted, counts-window,
}

length-map {ℓ κ} :
    {A : Type ℓ} {B : Type κ} (f : A → B) (xs : List A) → length (map f xs) ≡ length xs
length-map f [] = refl
length-map f (x ∷ xs) = ap suc (length-map f xs)

wait_from_pos : (a now : Stamp) → now < a + window → 0 < wait_from a now
unfolding wait_from
wait_from_pos a now h = ground arith

wait_from_bound : (a now : Stamp) → a ≤ now → wait_from a now ≤ 901
unfolding wait_from
wait_from_bound a now h = ground arith

wait_of_few : (limit later : ℕ) (fs : List Stamp) → length fs < limit → wait_of limit fs later ≡ 0
unfolding wait_of
wait_of_few limit later fs h = ground arith

module _ (u : String) (now : Stamp) (as_ : List LoginAttempt) where
  -- The attempts that count against the user.
  abbrev pub counted : List LoginAttempt
  counted = filter (counts u now (last_success u as_)) as_

  length-username_failures : length (username_failures u now as_) ≡ length counted
  unfolding username_failures attempt_times
  length-username_failures = length-sort_by leb _ ∙ length-map _ counted

  username_failures-window : All (λ t. now < t + window) (username_failures u now as_)
  unfolding username_failures attempt_times
  username_failures-window = All-sort_by leb _ _ (counts-window u now _ as_)

  locked : 5 ≤ length counted → 0 < username_wait u now now as_
  unfolding username_wait
  locked h =
      let (a, e, w) =
        nth-All (λ t. now < t + window) 4 (username_failures u now as_)
          (omega (arith, length-username_failures)) username_failures-window in
      rw (wait_of_nth 4 a now _ (omega (arith, length-username_failures)) e) (wait_from_pos a now w)

  unlocked : length counted < 5 → username_wait u now now as_ ≡ 0
  unfolding username_wait
  unlocked h = wait_of_few 5 now _ (omega (arith, length-username_failures))

  -- A username may try at once exactly when fewer than five of its failures in the last quarter of
  -- an hour came after its last success.
  pub username_wait_iff : (username_wait u now now as_ ≡ 0) ↔ (length counted < 5)
  username_wait_iff = (still, unlocked)
    where
      still : username_wait u now now as_ ≡ 0 → length counted < 5
      still e = grind (arith, locked)

  times_before :
      (p : LoginAttempt → Bool) (xs : List LoginAttempt)
      → All (λ a. a.attempted_at ≤ now) xs
      → All (λ t. t ≤ now) (map (λ a. a.attempted_at) (filter p xs))
  times_before p [] h = tt
  times_before p (a ∷ xs) h = elim (Bool-cases (p a)) [
    | inl e ↦ rw e (h.0, times_before p xs h.1)
    | inr e ↦ rw e (times_before p xs h.1)
  ]

  username_failures-before :
      All (λ a. a.attempted_at ≤ now) as_ → All (λ t. t ≤ now) (username_failures u now as_)
  unfolding username_failures attempt_times
  username_failures-before h = All-sort_by leb (λ t. t ≤ now) _ (times_before _ as_ h)

  -- If no attempt is from the future, a lockout is over after a quarter of an hour and a second.
  pub username_wait-le : All (λ a. a.attempted_at ≤ now) as_ → username_wait u now now as_ ≤ 901
  unfolding username_wait
  username_wait-le h = elim (Bool-cases (ltb (length counted) 5)) [
    | inl few ↦
        rw
          (wait_of_few 5 now (username_failures u now as_)
            (ground (arith, length-username_failures)))
          (omega arith)
    | inr many ↦
        let long : 4 < length (username_failures u now as_) =
          ground (arith, length-username_failures) in
        let (a, e, b) =
          nth-All (λ t. t ≤ now) 4 (username_failures u now as_) long
            (username_failures-before h) in
        rw (wait_of_nth 4 a now _ long e) (wait_from_bound a now b)
  ]

module _ (u : String) (id : ℕ) (db_now now : Stamp) (source : Option String)
    (as_ : List LoginAttempt) where
  abbrev attempt : Bool → LoginAttempt
  attempt ok = record {
    id = id;
    username = u;
    source = source;
    succeeded = ok;
    attempted_at = db_now;
  }

  record_attempt-kept :
      (ok : Bool) (later : Stamp)
      → now ≤ later
      → username_failures u later (record_attempt id db_now now u ok source as_)
        ≡ username_failures u later (attempt ok ∷ as_)
  unfolding record_attempt
  record_attempt-kept ok later h = username_failures_kept u now later (attempt ok ∷ as_) h

  none_counts :
      (later : Stamp) (xs : List LoginAttempt)
      → All (λ a. a.attempted_at ≤ db_now) xs
      → All (λ a. counts u later (last_success u (attempt true ∷ as_)) a ≡ false) xs
  unfolding counts after_successes
  none_counts later [] h = tt
  none_counts later (a ∷ xs) h = (
    ground (arith, is_after-last_success u a.attempted_at (attempt true ∷ as_), str_eq_refl u),
    none_counts later xs h.1,
  )

  -- A success clears the reckoning: right after it there is no wait for the username, whatever
  -- failures came before.
  pub username_wait_after_success :
      (later later' : Stamp)
      → now ≤ later
      → All (λ a. a.attempted_at ≤ db_now) as_
      → username_wait u later later' (record_attempt id db_now now u true source as_) ≡ 0
  unfolding username_wait
  username_wait_after_success later later' h before =
      rw (record_attempt-kept true later h)
        (wait_of_few 5 later' _ (omega (arith, cleared later before)))
    where
      cleared :
          (later : Stamp)
          → All (λ a. a.attempted_at ≤ db_now) as_
          → length (username_failures u later (attempt true ∷ as_)) ≡ 0
      cleared later before =
          length-username_failures u later (attempt true ∷ as_)
          ∙ ap length (
              filter_drops _ (attempt true ∷ as_)
                (none_counts later (attempt true ∷ as_) (omega arith, before)))

  failed_last : last_success u (attempt false ∷ as_) ≡ last_success u as_
  unfolding last_success
  failed_last = ground arith

  times_after_failure :
      (later : Stamp) (last : Option Stamp)
      → attempt_times (filter (counts u later last) (attempt false ∷ as_)) ≡ (
          if counts u later last (attempt false)
          then insert_sorted leb db_now (attempt_times (filter (counts u later last) as_))
          else attempt_times (filter (counts u later last) as_))
  unfolding attempt_times sort_by
  times_after_failure later last = elim (Bool-cases (counts u later last (attempt false))) [
    | inl e ↦ rw e
    | inr e ↦ rw e
  ]

  failures_after_failure :
      (later : Stamp)
      → username_failures u later (attempt false ∷ as_) ≡ (
          if counts u later (last_success u as_) (attempt false)
          then insert_sorted leb db_now (username_failures u later as_)
          else username_failures u later as_)
  unfolding username_failures
  failures_after_failure later =
      ap (λ last. attempt_times (filter (counts u later last) (attempt false ∷ as_))) failed_last
      ∙ times_after_failure later (last_success u as_)

  sorted : (later : Stamp) → IsSorted leb (username_failures u later as_)
  unfolding username_failures
  sorted later = attempt_times-IsSorted _

  -- Hammering cannot extend a lockout: one more failure never makes a locked username wait longer.
  pub username_wait_after_failure :
      (later later' : Stamp)
      → now ≤ later
      → 5 ≤ length (counted u later as_)
      → username_wait u later later' (record_attempt id db_now now u false source as_)
        ≤ username_wait u later later' as_
  unfolding username_wait
  username_wait_after_failure later later' h locked_out =
      rw (record_attempt-kept false later h, failures_after_failure later)
        (elim (Bool-cases (counts u later (last_success u as_) (attempt false))) [
          | inl e ↦ rw e (
              wait_of-insert_sorted 4 db_now later' (username_failures u later as_) (sorted later)
                (omega (arith, length-username_failures u later as_)))
          | inr e ↦ rw e (omega arith)
        ])
