-- ===== src/Keyset.antt =====
-- Paging by a key: what is behind the last row of a page, in a list without ties.
use podarium.Prelude.{
  ℕ, zero, suc, ◌+◌, ◌<◌, ◌≡◌, refl, arith, sym, ap, ◌∙◌, subst, Bool, true, false, Option, none,
  some, List, [], ◌∷◌, filter, filter_keeps, All, All-filter, length, take, drop, ◌≤◌, ◌++◌,
  zero-add, suc-add, IsSorted, sort_by, insert_sorted, All-sort_by, All-filter_of, ◌&&◌, Bool-cases,
  inl, inr,
}

suc_add_one : (n : ℕ) → suc n + 1 ≡ suc (n + 1)
suc_add_one n = omega arith

module _ {A : Type 0} where
  abbrev pub last_of : List A → Option A
  last_of [] = none
  last_of (x ∷ xs) = elim (last_of xs) [ none ↦ some x | some y ↦ some y ]

  pub last_of-cons : (y z : A) (m : List A) → last_of (y ∷ z ∷ m) ≡ last_of (z ∷ m)
  last_of-cons y z m = ground arith

  pub All-last_of :
      (p : A → Bool) (n : ℕ) (x : A) (l : List A)
      → All (λ d. p d ≡ true) l
      → last_of (take n l) ≡ some x
      → p x ≡ true
  All-last_of p zero x l h e = absurd (ground arith)
  All-last_of p (suc n) x [] h e = absurd (ground arith)
  All-last_of p (suc zero) x (z ∷ l) h e = ground (arith, h.0)
  All-last_of p (suc (suc n)) x (z ∷ []) h e = ground (arith, h.0)
  All-last_of p (suc (suc n)) x (z ∷ w ∷ l) h e =
      All-last_of p (suc n) x (w ∷ l) h.1 (sym (last_of-cons z w (take n l)) ∙ e)

  -- The last row of a page is behind the cursor that the page is read with.
  pub last_of-filter :
      (p : A → Bool) (n : ℕ) (x : A) (l : List A)
      → last_of (take n (filter p l)) ≡ some x
      → p x ≡ true
  last_of-filter p n x l e = All-last_of p n x (filter p l) (All-filter p l) e

  pub length-drop_lt : (n : ℕ) (l : List A) → suc n < length l → length (drop (suc n) l) < length l
  length-drop_lt n [] h = absurd (omega arith)
  length-drop_lt zero (x ∷ l) h = omega arith
  length-drop_lt (suc n) (x ∷ l) h = omega (arith, length-drop_lt n l (omega arith))

  pub last_of-take :
      (n : ℕ) (l : List A) → 0 < length l → (x : A) × (last_of (take (suc n) l) ≡ some x)
  last_of-take n [] h = absurd (omega arith)
  last_of-take zero (x ∷ l) h = (x, refl)
  last_of-take (suc n) (x ∷ []) h = (x, refl)
  last_of-take (suc n) (x ∷ y ∷ l) h =
      let z = last_of-take n (y ∷ l) (omega arith) in (z.0, last_of-cons x y (take n l) ∙ z.1)

  pub take-take : (n : ℕ) (l : List A) → take n (take (n + 1) l) ≡ take n l
  take-take zero l = refl
  take-take (suc n) [] = rw (suc_add_one n) refl
  take-take (suc n) (x ∷ l) = rw (suc_add_one n) (ap (λ r. x ∷ r) (take-take n l))

  pub length-take-lt : (n : ℕ) (l : List A) → n < length l → n < length (take (n + 1) l)
  length-take-lt n [] h = absurd (omega arith)
  length-take-lt zero (x ∷ l) h = omega arith
  length-take-lt (suc n) (x ∷ l) h =
      rw (suc_add_one n) (omega (arith, length-take-lt n l (omega arith)))

  pub take_all : (n : ℕ) (l : List A) → length l ≤ n → take n l ≡ l
  take_all zero [] h = refl
  take_all zero (x ∷ l) h = absurd (omega arith)
  take_all (suc n) [] h = refl
  take_all (suc n) (x ∷ l) h = ap (◌∷◌ x) (take_all n l (omega arith))

  pub take-append-take : (n m : ℕ) (l : List A) → take n l ++ take m (drop n l) ≡ take (n + m) l
  take-append-take zero m l = rw (zero-add m) refl
  take-append-take (suc n) zero [] = rw (suc-add n 0) refl
  take-append-take (suc n) (suc m) [] = rw (suc-add n (suc m)) refl
  take-append-take (suc n) m (x ∷ l) = rw (suc-add n m) (ap (◌∷◌ x) (take-append-take n m l))

  pub filter_both :
      (p q : A → Bool) (l : List A) → filter (λ c. p c && q c) l ≡ filter q (filter p l)
  filter_both p q [] = refl
  filter_both p q (c ∷ l) = elim (Bool-cases (p c)) [
    | inl e ↦ rw e (elim (Bool-cases (q c)) [
      | inl f ↦ rw (f, filter_both p q l) refl
      | inr f ↦ rw (f, filter_both p q l) refl
    ])
    | inr e ↦ rw e (filter_both p q l)
  ]

  pub IsSorted-filter :
      (le : A → A → Bool) (p : A → Bool) (l : List A) → IsSorted le l → IsSorted le (filter p l)
  IsSorted-filter le p [] h = tt
  IsSorted-filter le p (c ∷ l) h = elim (Bool-cases (p c)) [
    | inl e ↦ rw e (All-filter_of (λ d. le c d ≡ true) p l h.0, IsSorted-filter le p l h.1)
    | inr e ↦ rw e (IsSorted-filter le p l h.1)
  ]

  -- A test that passes nothing that another one stops.
  pub filter_within :
      (p q : A → Bool) (l : List A)
      → ((c : A) → p c ≡ false → q c ≡ false)
      → filter q (filter p l) ≡ filter q l
  filter_within p q [] h = refl
  filter_within p q (c ∷ l) h = elim (Bool-cases (p c)) [
    | inl e ↦ rw (e, filter_within p q l h) refl
    | inr e ↦ rw (e, h c e) (filter_within p q l h)
  ]

-- What a cursor made of the first row leaves of the second.
module _ {A : Type 0} (leaves : A → A → Bool) (leaves_refl : (x : A) → leaves x x ≡ false)
    (leaves-sym : (x y : A) → leaves x y ≡ true → leaves y x ≡ false) where
  -- Behind the last row of a page are the rows that the page does not have.
  pub filter-leaves :
      (n : ℕ) (x : A) (l : List A)
      → IsSorted leaves l
      → last_of (take (suc n) l) ≡ some x
      → filter (leaves x) l ≡ drop (suc n) l
  filter-leaves n x [] s e = absurd (ground arith)
  filter-leaves zero x (y ∷ l) s e =
      subst (λ z. filter (leaves z) (y ∷ l) ≡ l) {x = y} {y = x} (ground arith)
        (rw (leaves_refl y) (filter_keeps (leaves y) l s.0))
  filter-leaves (suc n) x (y ∷ []) s e =
      subst (λ z. filter (leaves z) (y ∷ []) ≡ []) {x = y} {y = x} (ground arith)
        (rw (leaves_refl y) refl)
  filter-leaves (suc n) x (y ∷ z ∷ l) s e =
      let rest : last_of (take (suc n) (z ∷ l)) ≡ some x = sym (last_of-cons y z (take n l)) ∙ e in
      rw (leaves-sym y x (All-last_of (leaves y) (suc n) x (z ∷ l) s.0 rest))
        (filter-leaves n x (z ∷ l) s.1 rest)

-- The rows of a sorted list, of which no two are of one key, stand strictly behind each other.
module _ {A : Type 0} (le leaves differs : A → A → Bool)
    (differs-sym : (x y : A) → differs x y ≡ true → differs y x ≡ true)
    (strict : (x y : A) → le x y ≡ true → differs x y ≡ true → leaves x y ≡ true) where
  All-insert :
      (x y : A) (l : List A)
      → differs x y ≡ true
      → All (λ d. differs y d ≡ true) l
      → All (λ d. differs y d ≡ true) (insert_sorted le x l)
  unfolding insert_sorted
  All-insert x y [] e h = (differs-sym x y e, tt)
  All-insert x y (z ∷ l) e h = elim (Bool-cases (le x z)) [
    | inl k ↦ rw k (differs-sym x y e, h)
    | inr k ↦ rw k (h.0, All-insert x y l e h.1)
  ]

  IsSorted-insert_sorted :
      (x : A) (l : List A)
      → All (λ d. differs x d ≡ true) l
      → IsSorted differs l
      → IsSorted differs (insert_sorted le x l)
  unfolding insert_sorted
  IsSorted-insert_sorted x [] h s = (tt, tt)
  IsSorted-insert_sorted x (y ∷ l) h s = elim (Bool-cases (le x y)) [
    | inl e ↦ rw e (h, s)
    | inr e ↦ rw e (All-insert x y l h.0 s.0, IsSorted-insert_sorted x l h.1 s.1)
  ]

  sort_by-differs : (l : List A) → IsSorted differs l → IsSorted differs (sort_by le l)
  unfolding sort_by
  sort_by-differs [] h = tt
  sort_by-differs (x ∷ l) h =
      IsSorted-insert_sorted x (sort_by le l) (All-sort_by le (λ d. differs x d ≡ true) l h.0)
        (sort_by-differs l h.1)

  All-leaves :
      (x : A) (l : List A)
      → All (λ d. le x d ≡ true) l
      → All (λ d. differs x d ≡ true) l
      → All (λ d. leaves x d ≡ true) l
  All-leaves x [] h k = tt
  All-leaves x (d ∷ l) h k = (strict x d h.0 k.0, All-leaves x l h.1 k.1)

  IsSorted-leaves : (l : List A) → IsSorted le l → IsSorted differs l → IsSorted leaves l
  IsSorted-leaves [] h k = tt
  IsSorted-leaves (x ∷ l) h k = (All-leaves x l h.0 k.0, IsSorted-leaves l h.1 k.1)

  pub sort_by-leaves :
      (l : List A)
      → IsSorted le (sort_by le l)
      → IsSorted differs l
      → IsSorted leaves (sort_by le l)
  sort_by-leaves l s h = IsSorted-leaves (sort_by le l) s (sort_by-differs l h)
