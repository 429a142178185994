-- ===== src/Media/Bounds.antt =====
-- The ranges that `parse_range` hands on.
use podarium.Prelude.{
  ℕ, ◌-◌, ◌≤◌, ◌<◌, ◌≡◌, ◌≢◌, refl, ap, ◌∙◌, min, arith, true, false, ◌&&◌, Option, none, some, [],
  ◌∷◌, ◌++◌, ltb, leb, ◌==◌, if◌then◌else◌, All, Option-cases, inl, inr, All-append,
}
use podarium.Media.{
  Text, is_space, lstrip, rstrip, is_digit, digits, int_from, range_prefix, match_range, Range,
  whole, part, not_satisfiable, clamp_range, range_of, parse_range,
}

-- A range that lies in the file.
abbrev pub IsWithin : ℕ → Range → Type 0
IsWithin size (part start end) = (start ≤ end) × (end < size)
IsWithin size whole = Unit
IsWithin size not_satisfiable = Unit

clamp_range-IsWithin : (size start end : ℕ) → IsWithin size (clamp_range size start end)
unfolding clamp_range
clamp_range-IsWithin size start end = ground arith

range_of-IsWithin : (size : ℕ) (groups : Text × Text) → IsWithin size (range_of size groups)
unfolding range_of
range_of-IsWithin size ([], []) = tt
range_of-IsWithin size ([], c ∷ s) = ground arith
range_of-IsWithin size (c ∷ s, []) = clamp_range-IsWithin size _ _
range_of-IsWithin size (c ∷ s, d ∷ r) = clamp_range-IsWithin size _ _

-- Whatever the header says, a range that is served lies in the file.
pub parse_range-IsWithin :
    (header : Option Text) (size : ℕ) → IsWithin size (parse_range header size)
unfolding parse_range
parse_range-IsWithin none size = tt
parse_range-IsWithin (some []) size = tt
parse_range-IsWithin (some (c ∷ s)) size =
    elim (Option-cases (match_range (lstrip (rstrip (c ∷ s))))) [
      | inl e ↦ rw (e, parse_range) tt
      | inr (groups, e) ↦ rw (e, parse_range) (range_of-IsWithin size groups)
    ]

-- Digits, and something else or nothing behind them.
abbrev pub AreDigits : Text → Type 0
AreDigits = All (λ c. is_digit c ≡ true)

digits-append :
    (ds : Text) (c : ℕ) (r : Text)
    → AreDigits ds
    → is_digit c ≡ false
    → digits (ds ++ c ∷ r) ≡ (ds, c ∷ r)
unfolding digits
digits-append [] c r h n = rw n
digits-append (d ∷ ds) c r h n = rw (digits-append ds c r h.1 n, h.0)

digits_all : (ds : Text) → AreDigits ds → digits ds ≡ (ds, [])
unfolding digits
digits_all [] h = refl
digits_all (d ∷ ds) h = rw (digits_all ds h.1, h.0)

match_range_lem :
    (ds es : Text)
    → AreDigits ds
    → AreDigits es
    → match_range (range_prefix ++ (ds ++ b'-' ∷ es)) ≡ some (ds, es)
unfolding match_range
match_range_lem ds es h k = ground (arith, digits-append ds b'-' es h refl, digits_all es k)

rstrip_none : (s : Text) → All (λ c. is_space c ≡ false) s → rstrip s ≡ s
unfolding rstrip
rstrip_none [] h = refl
rstrip_none (c ∷ []) h = rw (h.0)
rstrip_none (c ∷ d ∷ s) h = rw (rstrip_none (d ∷ s) h.1)

digits_no_space : (ds : Text) → AreDigits ds → All (λ c. is_space c ≡ false) ds
digits_no_space [] h = tt
digits_no_space (d ∷ ds) h = (ground arith, digits_no_space ds h.1)

-- `bytes=…-…` with these digits.
abbrev pub header_of : Text → Text → Text
header_of ds es = range_prefix ++ (ds ++ b'-' ∷ es)

header_of-strip :
    (ds es : Text)
    → AreDigits ds
    → AreDigits es
    → lstrip (rstrip (header_of ds es)) ≡ header_of ds es
unfolding lstrip
header_of-strip ds es h k = ap lstrip (
    rstrip_none (header_of ds es) (
      refl,
      (
        refl,
        (
          refl,
          (
            refl,
            (
              refl,
              (
                refl,
                All-append _ ds (b'-' ∷ es) (digits_no_space ds h) (refl, digits_no_space es k),
              ),
            ),
          ),
        ),
      ),
    ))

parse_range-header_of :
    (ds es : Text) (size : ℕ)
    → AreDigits ds
    → AreDigits es
    → parse_range (some (header_of ds es)) size ≡ range_of size (ds, es)
unfolding parse_range
parse_range-header_of ds es size h k =
    rw (header_of-strip ds es h k, match_range_lem ds es h k, parse_range)

-- A request for the bytes from a to b gets them, as far as the file goes; one that starts behind the
-- file or ends before it starts gets the whole file. The last n bytes are the suffix of that length,
-- or the whole file where it is shorter.
pub parse_range_from_to :
    (a b : Text) (size : ℕ)
    → AreDigits a
    → AreDigits b
    → a ≢ []
    → b ≢ []
    → parse_range (some (header_of a b)) size ≡ (
        if ltb (int_from 0 a) size && leb (int_from 0 a) (int_from 0 b)
        then part (int_from 0 a) (min (int_from 0 b) (size - 1))
        else whole)
unfolding clamp_range range_of
parse_range_from_to [] b size h k p q = absurd (p refl)
parse_range_from_to (c ∷ a) [] size h k p q = absurd (q refl)
parse_range_from_to (c ∷ a) (d ∷ b) size h k p q =
    parse_range-header_of (c ∷ a) (d ∷ b) size h k ∙ ground arith

-- A request for the last n bytes gets them, or the whole of a shorter file as a range. For n = 0 it is refused.
pub parse_range_suffix :
    (b : Text) (size : ℕ)
    → AreDigits b
    → b ≢ []
    → 0 < size
    → parse_range (some (header_of [] b)) size
      ≡ (if int_from 0 b == 0 then not_satisfiable else part (size - int_from 0 b) (size - 1))
unfolding clamp_range range_of
parse_range_suffix [] size k q h = absurd (q refl)
parse_range_suffix (d ∷ b) size k q h = parse_range-header_of [] (d ∷ b) size tt k ∙ ground arith
