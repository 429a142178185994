-- ===== src/Prelude/Sort.antt =====
-- Stable sorting by a Boolean order, as `sorted` and `ORDER BY` do it.
use Prim.Native.Nat.{suc}
use mathlib.Core.Path.{◌≡◌, refl, sym, ap, ◌∙◌}
use mathlib.Core.List.{List, [], ◌∷◌, map, Perm}
use mathlib.Core.List.Perm
use mathlib.Core.Logic.{inl, inr}
use mathlib.Core.Bool.{Bool, true, false, ◌||◌}
use native.Mathlib.Omega.{arith}
use podarium.Prelude.Tests.{if◌then◌else◌, Bool-cases}
use podarium.Prelude.Lists.{length, filter, any, All, All-filter_of}

module _ {ℓ} {A : Type ℓ} (le : A → A → Bool) where
  unfoldable pub insert_sorted : A → List A → List A
  insert_sorted x [] = x ∷ []
  insert_sorted x (y ∷ ys) = if le x y then x ∷ y ∷ ys else y ∷ insert_sorted x ys

  unfoldable pub sort_by : List A → List A
  unfolding insert_sorted
  sort_by [] = []
  sort_by (x ∷ xs) = insert_sorted x (sort_by xs)

  -- Each element is below all later ones.
  abbrev pub IsSorted : List A → Type ℓ
  IsSorted [] = Unit
  IsSorted (x ∷ xs) = All (λ y. le x y ≡ true) xs × IsSorted xs

  insert_sorted-perm : (x : A) (xs : List A) → Perm (insert_sorted x xs) (x ∷ xs)
  unfolding insert_sorted
  insert_sorted-perm x [] = Perm.refl (x ∷ [])
  insert_sorted-perm x (y ∷ ys) = elim (Bool-cases (le x y)) [
    | inl e ↦ rw e (Perm.refl (x ∷ y ∷ ys))
    | inr e ↦ rw e (Perm.trans (Perm.cons y (insert_sorted-perm x ys)) (Perm.swap x y ys))
  ]

  -- Sorting loses and invents nothing.
  pub sort_by-perm : (xs : List A) → Perm (sort_by xs) xs
  unfolding sort_by
  sort_by-perm [] = Perm.refl []
  sort_by-perm (x ∷ xs) =
      Perm.trans (insert_sorted-perm x (sort_by xs)) (Perm.cons x (sort_by-perm xs))

  All-insert_sorted {κ} :
      (P : A → Type κ) (x : A) (xs : List A) → P x → All P xs → All P (insert_sorted x xs)
  unfolding insert_sorted
  All-insert_sorted P x [] p h = (p, tt)
  All-insert_sorted P x (y ∷ ys) p h = elim (Bool-cases (le x y)) [
    | inl e ↦ rw e (p, h)
    | inr e ↦ rw e (h.0, All-insert_sorted P x ys p h.1)
  ]

  pub All-sort_by {κ} : (P : A → Type κ) (xs : List A) → All P xs → All P (sort_by xs)
  unfolding sort_by
  All-sort_by P [] h = tt
  All-sort_by P (x ∷ xs) h = All-insert_sorted P x (sort_by xs) h.0 (All-sort_by P xs h.1)

  insert_sorted-head :
      (x : A) (xs : List A) → All (λ y. le x y ≡ true) xs → insert_sorted x xs ≡ x ∷ xs
  unfolding insert_sorted
  insert_sorted-head x [] h = refl
  insert_sorted-head x (y ∷ ys) h = rw (h.0)

  -- Sorting leaves a sorted list as it is.
  pub sort_by-sorted : (xs : List A) → IsSorted xs → sort_by xs ≡ xs
  unfolding sort_by
  sort_by-sorted [] h = refl
  sort_by-sorted (x ∷ xs) h = rw (sort_by-sorted xs h.1) (insert_sorted-head x xs h.0)

  insert_sorted-length : (x : A) (xs : List A) → length (insert_sorted x xs) ≡ suc (length xs)
  unfolding insert_sorted
  insert_sorted-length x [] = refl
  insert_sorted-length x (y ∷ ys) = ground (arith, insert_sorted-length x ys)

  pub length-sort_by : (xs : List A) → length (sort_by xs) ≡ length xs
  unfolding sort_by
  length-sort_by [] = refl
  length-sort_by (x ∷ xs) = insert_sorted-length x (sort_by xs) ∙ ap suc (length-sort_by xs)

  any-insert_sorted :
      (p : A → Bool) (x : A) (ys : List A) → any p (insert_sorted x ys) ≡ (p x || any p ys)
  unfolding insert_sorted
  any-insert_sorted p x [] = refl
  any-insert_sorted p x (y ∷ ys) = ground (arith, any-insert_sorted p x ys)

  -- The same elements are there after sorting.
  pub any-sort_by : (p : A → Bool) (xs : List A) → any p (sort_by xs) ≡ any p xs
  unfolding sort_by
  any-sort_by p [] = refl
  any-sort_by p (x ∷ xs) = ground (arith, any-insert_sorted p x (sort_by xs), any-sort_by p xs)

  module _ (total : (x y : A) → le x y ≡ false → le y x ≡ true)
      (trans : (x y z : A) → le x y ≡ true → le y z ≡ true → le x z ≡ true) where
    All-le :
        (x y : A) (ys : List A)
        → le x y ≡ true
        → All (λ z. le y z ≡ true) ys
        → All (λ z. le x z ≡ true) ys
    All-le x y [] e h = tt
    All-le x y (z ∷ zs) e h = (trans x y z e h.0, All-le x y zs e h.1)

    insert_sorted-IsSorted : (x : A) (xs : List A) → IsSorted xs → IsSorted (insert_sorted x xs)
    unfolding insert_sorted
    insert_sorted-IsSorted x [] h = (tt, tt)
    insert_sorted-IsSorted x (y ∷ ys) h = elim (Bool-cases (le x y)) [
      | inl e ↦ rw e ((e, All-le x y ys e h.0), h)
      | inr e ↦ rw e (
        All-insert_sorted (λ z. le y z ≡ true) x ys (total x y e) h.0,
        insert_sorted-IsSorted x ys h.1,
      )
    ]

    -- Under a total and transitive order the result is sorted.
    pub sort_by-IsSorted : (xs : List A) → IsSorted (sort_by xs)
    unfolding sort_by
    sort_by-IsSorted [] = tt
    sort_by-IsSorted (x ∷ xs) = insert_sorted-IsSorted x (sort_by xs) (sort_by-IsSorted xs)

    filter-insert_sorted :
        (p : A → Bool) (x : A) (ys : List A)
        → IsSorted ys
        → filter p (insert_sorted x ys)
          ≡ (if p x then insert_sorted x (filter p ys) else filter p ys)
    unfolding insert_sorted
    filter-insert_sorted p x [] h = refl
    filter-insert_sorted p x (y ∷ ys) h = elim (Bool-cases (le x y)) [
      | inl e ↦ rw e (
          ap (λ l. if p x then l else filter p (y ∷ ys))
            (sym (
              insert_sorted-head x _
                (All-filter_of (λ z. le x z ≡ true) p (y ∷ ys) (e, All-le x y ys e h.0)))))
      | inr e ↦ rw e (ground (arith, filter-insert_sorted p x ys h.1))
    ]

    -- To sort and then pick is to pick and then sort.
    pub filter-sort_by :
        (p : A → Bool) (xs : List A) → filter p (sort_by xs) ≡ sort_by (filter p xs)
    unfolding sort_by
    filter-sort_by p [] = refl
    filter-sort_by p (x ∷ xs) =
        ground
          (arith, filter-insert_sorted p x (sort_by xs) (sort_by-IsSorted xs), filter-sort_by p xs)

module _ {ℓ κ} {A : Type ℓ} {B : Type κ} (le : A → A → Bool) (le' : B → B → Bool) (f : A → B) where
  module _ (mono : (x y : A) → le' (f x) (f y) ≡ le x y) where
    map-insert_sorted :
        (x : A) (ys : List A) → insert_sorted le' (f x) (map f ys) ≡ map f (insert_sorted le x ys)
    unfolding insert_sorted
    map-insert_sorted x [] = refl
    map-insert_sorted x (y ∷ ys) = elim (Bool-cases (le x y)) [
      | inl e ↦ rw (mono x y, e)
      | inr e ↦ rw (mono x y, e) (ap (◌∷◌ (f y)) (map-insert_sorted x ys))
    ]

    -- To sort the images under a map that keeps the order is to sort, and then map.
    pub map-sort_by : (xs : List A) → sort_by le' (map f xs) ≡ map f (sort_by le xs)
    unfolding sort_by
    map-sort_by [] = refl
    map-sort_by (x ∷ xs) = rw (map-sort_by xs) (map-insert_sorted x (sort_by le xs))
