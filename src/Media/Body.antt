-- ===== src/Media/Body.antt =====
-- The bytes that are sent.
use podarium.Prelude.{
  ℕ, zero, suc, ◌+◌, ◌-◌, ◌≤◌, ◌<◌, ◌≡◌, refl, sym, ap, ◌∙◌, subst, min, arith, Option, some, List,
  [], ◌∷◌, ◌++◌, ◌==◌, length, take, drop, All, Bool-cases, List-cases, inl, inr, zero-add, suc-add,
  length-take-le, ==_iff,
}
use podarium.Media.{
  Text, chunk_size, read_chunks, iter_file, part, parse_range, Response, serve_local,
}
use podarium.Media.Bounds.{parse_range-IsWithin, IsWithin}

-- The chunks one behind the other.
abbrev pub joined : List Text → Text
joined [] = []
joined (c ∷ cs) = c ++ joined cs

take-nil : (n : ℕ) → take {A = ℕ} n [] ≡ []
take-nil zero = refl
take-nil (suc n) = refl

take-append-take-drop : (m n : ℕ) (s : Text) → take m s ++ take n (drop m s) ≡ take (m + n) s
take-append-take-drop zero n s = rw (zero-add n)
take-append-take-drop (suc m) n [] = take-nil n ∙ sym (take-nil (suc m + n))
take-append-take-drop (suc m) n (b ∷ s) =
    rw (suc-add m n) (ap (◌∷◌ b) (take-append-take-drop m n s))

-- Where the file ends early, nothing is left to take.
take-drop_short :
    (k n : ℕ) (s : Text) → take (k - length (take n s)) (drop n s) ≡ take (k - n) (drop n s)
take-drop_short k zero s = refl
take-drop_short k (suc n) [] = take-nil _ ∙ sym (take-nil _)
take-drop_short k (suc n) (b ∷ s) =
    let e : k - suc (length (take n s)) ≡ k - 1 - length (take n s) = omega arith in
    let e' : k - suc n ≡ k - 1 - n = omega arith in rw (e, e') (take-drop_short (k - 1) n s)

nil_of_take : (n : ℕ) (s : Text) → 0 < n → take n s ≡ [] → s ≡ []
nil_of_take zero s h e = absurd (omega arith)
nil_of_take (suc n) [] h e = refl
nil_of_take (suc n) (b ∷ s) h e = cc

read_chunks-joined :
    (fuel remaining : ℕ) (rest : Text)
    → remaining < fuel
    → joined (read_chunks fuel remaining rest) ≡ take remaining rest
unfolding read_chunks
read_chunks-joined zero remaining rest h = absurd (omega arith)
read_chunks-joined (suc fuel) remaining rest h =
    let n = min chunk_size remaining in
    let later = read_chunks fuel (remaining - length (take n rest)) (drop n rest) in
    elim (Bool-cases (remaining == 0)) [
      | inl e ↦ rw e (rw ((==_iff remaining 0).0 e))
      | inr m ↦ elim (List-cases (take n rest)) [
        | inl e ↦ rw (m, e) (rw (nil_of_take n rest (ground arith) e) (sym (take-nil remaining)))
        | inr (b, bs, e) ↦
            rw (m, e)
              (ap (λ c. c ++ joined later) (sym e)
                ∙ ap (λ l. take n rest ++ l)
                    (read_chunks-joined fuel _ (drop n rest) (ground (arith, ap length e))
                      ∙ take-drop_short remaining n rest)
                ∙ take-append-take-drop n (remaining - n) rest
                ∙ ap (λ k. take k rest) (omega arith))
      ]
    ]

-- No chunk is longer than the limit or empty.
read_chunks-All :
    (fuel remaining : ℕ) (rest : Text)
    → All (λ c. (0 < length c) × (length c ≤ chunk_size)) (read_chunks fuel remaining rest)
unfolding read_chunks
read_chunks-All zero remaining rest = tt
read_chunks-All (suc fuel) remaining rest =
    let n = min chunk_size remaining in
    elim (Bool-cases (remaining == 0)) [
      | inl e ↦ rw e tt
      | inr m ↦ elim (List-cases (take n rest)) [
        | inl e ↦ rw (m, e) tt
        | inr (b, bs, e) ↦
            rw (m, e)
              (
                (omega arith, omega (arith, length-take-le n rest, ap length e)),
                read_chunks-All fuel (remaining - length (take n rest)) (drop n rest),
              )
      ]
    ]

length-take-drop : (s n : ℕ) (t : Text) → s + n ≤ length t → length (take n (drop s t)) ≡ n
length-take-drop zero zero t h = refl
length-take-drop zero (suc n) [] h = absurd (omega arith)
length-take-drop zero (suc n) (b ∷ t) h = ap suc (length-take-drop zero n t (omega arith))
length-take-drop (suc s) n [] h = ground (arith, take-nil n)
length-take-drop (suc s) n (b ∷ t) h = length-take-drop s n t (omega arith)

module _ (file_response : Option Text → Text → Response) (header : Option Text) (content : Text)
    (start end : ℕ) (asked : parse_range header (length content) ≡ part start end) where
  -- A part is served as exactly the bytes from its start to its end, in chunks of bounded length
  -- none of which is empty, and the length that is declared is the length that is sent.
  pub serve_local-part :
      let r = serve_local file_response header content in
      (r.status ≡ 206)
      × (r.content_range ≡ some (start, end, length content))
      × (joined r.body ≡ take (end - start + 1) (drop start content))
      × (length (joined r.body) ≡ r.content_length)
      × All (λ c. (0 < length c) × (length c ≤ chunk_size)) r.body
  unfolding serve_local iter_file
  serve_local-part =
      let n = end - start + 1 in
      let within : IsWithin (length content) (part start end) =
        subst (IsWithin (length content)) asked (parse_range-IsWithin header (length content)) in
      let sent : joined (read_chunks (suc n) n (drop start content)) ≡ take n (drop start content) =
        read_chunks-joined (suc n) n (drop start content) (omega arith) in
      rw (asked, serve_local)
        (
          refl,
          refl,
          sent,
          ap length sent ∙ length-take-drop start n content (omega arith),
          read_chunks-All (suc n) n (drop start content),
        )
