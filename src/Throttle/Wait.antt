-- ===== src/Throttle/Wait.antt =====
-- How long a lockout lasts, and what another attempt does to it.
use podarium.Prelude.{
  ℕ, zero, suc, ◌+◌, ◌-◌, ◌≤◌, ◌<◌, ◌≡◌, refl, String, true, false, Option, some, List, [], ◌∷◌,
  map, arith, ltb, leb, filter, All, Bool-cases, inl, inr, length, get_elem?, insert_sorted,
  IsSorted, sort_by-IsSorted,
}
use podarium.Model.Enums.{Stamp}
use podarium.Model.User.{LoginAttempt}
use podarium.Throttle.{window, counts, attempt_times, wait_from, wait_of}

-- The first k + 1 moments are there, and the k-th is some moment with the property.
abbrev pub Nth : ℕ → List Stamp → (Stamp → Type 0) → Type 0
Nth k fs P = (a : Stamp) × (get_elem? fs k ≡ some a) × P a

pub nth-All : (P : Stamp → Type 0) (k : ℕ) (fs : List Stamp) → k < length fs → All P fs → Nth k fs P
nth-All P k [] h a = absurd (omega arith)
nth-All P zero (y ∷ ys) h a = (y, refl, a.0)
nth-All P (suc k) (y ∷ ys) h a = nth-All P k ys (omega arith) a.1

leb_total : (x y : ℕ) → leb x y ≡ false → leb y x ≡ true
leb_total x y h = ground arith

leb_trans : (x y z : ℕ) → leb x y ≡ true → leb y z ≡ true → leb x z ≡ true
leb_trans x y z p q = ground arith

-- In a sorted list each moment is at most the next.
nth_step :
    (k y : ℕ) (ys : List Stamp)
    → IsSorted leb (y ∷ ys)
    → k < length ys
    → Nth k ys (λ b. Nth k (y ∷ ys) (λ a. a ≤ b))
nth_step k y [] s h = absurd (omega arith)
nth_step zero y (z ∷ zs) s h = (z, refl, (y, refl, ground arith))
nth_step (suc k) y (z ∷ zs) s h = nth_step k z zs s.1 (omega arith)

-- One more moment in a sorted list can only bring the k-th forward.
nth-insert_sorted :
    (k x : ℕ) (fs : List Stamp)
    → IsSorted leb fs
    → k < length fs
    → Nth k fs (λ b. Nth k (insert_sorted leb x fs) (λ a. a ≤ b))
unfolding insert_sorted
nth-insert_sorted k x [] s h = absurd (omega arith)
nth-insert_sorted zero x (y ∷ ys) s h = elim (Bool-cases (leb x y)) [
  | inl e ↦ rw e (y, refl, (x, refl, ground arith))
  | inr e ↦ rw e (y, refl, (y, refl, omega arith))
]
nth-insert_sorted (suc k) x (y ∷ ys) s h = elim (Bool-cases (leb x y)) [
  | inl e ↦ rw e (nth_step k y ys s (omega arith))
  | inr e ↦ rw e (nth-insert_sorted k x ys s.1 (omega arith))
]

wait_from_mono : (a b now : Stamp) → a ≤ b → wait_from a now ≤ wait_from b now
unfolding wait_from
wait_from_mono a b now h = ground arith

pub attempt_times-IsSorted : (as_ : List LoginAttempt) → IsSorted leb (attempt_times as_)
unfolding attempt_times
attempt_times-IsSorted as_ = sort_by-IsSorted leb leb_total leb_trans _

pub wait_of_nth :
    (k a later : ℕ) (fs : List Stamp)
    → k < length fs
    → get_elem? fs k ≡ some a
    → wait_of (suc k) fs later ≡ wait_from a later
unfolding wait_of
wait_of_nth k a later fs h e =
    let last : suc k - 1 ≡ k = omega arith in
    let enough : ltb (length fs) (suc k) ≡ false = ground arith in rw (enough, last, e)

length-insert_sorted : (x : ℕ) (fs : List ℕ) → length (insert_sorted leb x fs) ≡ suc (length fs)
unfolding insert_sorted
length-insert_sorted x [] = refl
length-insert_sorted x (y ∷ ys) = ground (arith, length-insert_sorted x ys)

pub wait_of-insert_sorted :
    (k x later : ℕ) (fs : List Stamp)
    → IsSorted leb fs
    → k < length fs
    → wait_of (suc k) (insert_sorted leb x fs) later ≤ wait_of (suc k) fs later
wait_of-insert_sorted k x later fs s h =
    let (b, eb, (a, ea, le)) = nth-insert_sorted k x fs s h in
    rw (wait_of_nth k b later fs h eb) (
      rw
        (wait_of_nth k a later (insert_sorted leb x fs) (omega (arith, length-insert_sorted x fs))
          ea)
        (wait_from_mono a b later le))

-- The moments of the failures that count all lie in the window.
pub counts-window :
    (u : String) (now : Stamp) (last : Option Stamp) (as_ : List LoginAttempt)
    → All (λ t. now < t + window) (map (λ a. a.attempted_at) (filter (counts u now last) as_))
unfolding counts
counts-window u now last [] = tt
counts-window u now last (a ∷ as_) = elim (Bool-cases (counts u now last a)) [
  | inl e ↦ rw (e, counts) (ground arith, counts-window u now last as_)
  | inr e ↦ rw (e, counts) (counts-window u now last as_)
]
