-- ===== src/Transfer/Outcome.antt =====
-- What a transfer accepts, and what a run leaves of it.
use podarium.Prelude.{
  ℕ, ◌≤◌, ◌<◌, ◌≡◌, ◌⊎◌, inl, inr, refl, arith, sym, ap, subst, ◌∙◌, String, false, Option, none,
  some, List, [], ◌∷◌, ◌++◌, ltb, ◌==◌, length, Bool-cases, append-nil, append_assoc, length-append,
  ==_iff, ==_refl,
}
use podarium.Transfer.{
  Bytes, Answer, Body, broke, got, receive, declared_length, check_length, transfer_from, transfer,
}

-- The chunks one behind the other.
abbrev pub joined : List Bytes → Bytes
joined [] = []
joined (c ∷ cs) = c ++ joined cs

got-inj : {b c : Bytes} → ◌≡◌ {A = Body} (got b) (got c) → b ≡ c
got-inj h = cc

receive-got :
    (max : ℕ) (o : Option String) (content : Bytes) (cs : List Bytes) {content' : Bytes}
    → length content ≤ max
    → receive max o content cs ≡ got content'
    → (content' ≡ content ++ joined cs) × (o ≡ none) × (length content' ≤ max)
unfolding receive
receive-got max o content (c ∷ cs) {content'} le h =
    elim (Bool-cases (ltb max (length (content ++ c)))) [
      | inl e ↦ absurd (ground arith)
      | inr e ↦
          let next : receive max o (content ++ c) cs ≡ got content' = ground arith in
          let (same, ended, le') = receive-got max o (content ++ c) cs (ground arith) next in
          (same ∙ append_assoc content c (joined cs), ended, le')
    ]
receive-got max none content [] {content'} le h =
    let same : content ≡ content' = got-inj h in
    (sym same ∙ sym (append-nil content), refl, subst (λ (l : Bytes). length l ≤ max) same le)
receive-got max (some e) content [] {content'} le h = absurd (ground arith)

-- What is read of a body that ends within the limit is the whole of it.
receive-joined :
    (max : ℕ) (content : Bytes) (cs : List Bytes)
    → length (content ++ joined cs) ≤ max
    → receive max none content cs ≡ got (content ++ joined cs)
unfolding receive
receive-joined max content (c ∷ cs) le =
    let le' : length ((content ++ c) ++ joined cs) ≤ max =
      subst (λ (l : Bytes). length l ≤ max) (sym (append_assoc content c (joined cs))) le in
    let within : ltb max (length (content ++ c)) ≡ false =
      ground (arith, length-append (content ++ c) (joined cs)) in
    rw within
      (receive-joined max (content ++ c) cs le' ∙ ap got (append_assoc content c (joined cs)))
receive-joined max content [] le = ap got (sym (append-nil content))

check_length-got :
    (declared : Option ℕ) (o : Body) {content : Bytes}
    → check_length declared o ≡ got content
    → (o ≡ got content)
      × (0 < length content)
      × ((declared ≡ none) ⊎ (declared ≡ some (length content)))
unfolding check_length
check_length-got declared (broke f) h = absurd (ground arith)
check_length-got declared (got []) h = absurd (ground arith)
check_length-got none (got (b ∷ bs)) {content} h =
    (h, subst (λ (l : Bytes). 0 < length l) (got-inj h) (omega arith), inl refl)
check_length-got (some n) (got (b ∷ bs)) {content} h = elim (Bool-cases (length (b ∷ bs) == n)) [
  | inl e ↦
      let same : b ∷ bs ≡ content = ground arith in
      (
        ap got same,
        subst (λ (l : Bytes). 0 < length l) same (omega arith),
        inr (ap some (sym ((==_iff _ n).0 e) ∙ ap length same)),
      )
  | inr e ↦ absurd (ground arith)
]

transfer_from-got :
    (max : ℕ) (o : Option ℕ) (a : Answer) {content : Bytes}
    → transfer_from max o a ≡ got content
    → check_length o (receive max a.broken [] a.chunks) ≡ got content
unfolding transfer_from
transfer_from-got max none a h = h
transfer_from-got max (some n) a h = elim (Bool-cases (ltb max n)) [
  | inl e ↦ absurd (ground arith)
  | inr e ↦ ground arith
]

-- A body is accepted only whole: it is all the chunks, it ended without an error, it is not empty or
-- over the limit, and it has the length that was declared, if one counts.
pub transfer-got :
    (max : ℕ) (a : Answer) {content : Bytes}
    → transfer max a ≡ got content
    → (content ≡ joined a.chunks)
      × (a.broken ≡ none)
      × (0 < length content)
      × (length content ≤ max)
      × ((declared_length a ≡ none) ⊎ (declared_length a ≡ some (length content)))
unfolding transfer
transfer-got max a {content} h =
    let (ended, full, declared) =
      check_length-got (declared_length a) (receive max a.broken [] a.chunks)
        (transfer_from-got max (declared_length a) a h) in
    let (same, whole, le) = receive-got max a.broken [] a.chunks (omega arith) ended in
    (same, whole, full, le, declared)

check_length-declared :
    (o : Option ℕ) (content : Bytes)
    → 0 < length content
    → (o ≡ none) ⊎ (o ≡ some (length content))
    → check_length o (got content) ≡ got content
unfolding check_length
check_length-declared o [] full h = absurd (omega arith)
check_length-declared none (b ∷ bs) full h = refl
check_length-declared (some n) (b ∷ bs) full (inl h) = absurd (ground arith)
check_length-declared (some n) (b ∷ bs) full (inr h) = ground (arith, ==_refl n)

transfer_from-joined :
    (max : ℕ) (o : Option ℕ) (a : Answer)
    → a.broken ≡ none
    → 0 < length (joined a.chunks)
    → length (joined a.chunks) ≤ max
    → (o ≡ none) ⊎ (o ≡ some (length (joined a.chunks)))
    → transfer_from max o a ≡ got (joined a.chunks)
unfolding transfer_from
transfer_from-joined max none a whole full le h =
    rw (whole, receive-joined max [] a.chunks le) (check_length-declared none _ full h)
transfer_from-joined max (some n) a whole full le (inl h) = absurd (ground arith)
transfer_from-joined max (some n) a whole full le (inr h) =
    let same : n ≡ length (joined a.chunks) = ground arith in
    let within : ltb max n ≡ false = ground arith in
    rw (within, whole, receive-joined max [] a.chunks le)
      (check_length-declared (some n) _ full (inr h))

-- A body that is whole, not empty, within the limit and as long as declared is accepted.
pub transfer-joined :
    (max : ℕ) (a : Answer)
    → a.broken ≡ none
    → 0 < length (joined a.chunks)
    → length (joined a.chunks) ≤ max
    → (declared_length a ≡ none) ⊎ (declared_length a ≡ some (length (joined a.chunks)))
    → transfer max a ≡ got (joined a.chunks)
unfolding transfer
transfer-joined max a whole full le h =
    transfer_from-joined max (declared_length a) a whole full le h
