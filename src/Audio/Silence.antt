-- ===== src/Audio/Silence.antt =====
-- The cuts that the silences of a file come to.
use podarium.Prelude.{
  ℕ, ◌+◌, ◌≤◌, ◌≡◌, arith, ◌&&◌, none, some, List, [], ◌∷◌, ltb, Bool-cases, inl, inr,
}
use podarium.Timeline.{Interval, to_processed, to_original}
use podarium.Prelude.Int.{pos}
use podarium.Timeline.Cuts.{IsCuts, to_processed-to_original}
use podarium.Audio.{
  SilenceLine, start, end, parse_silences, removed_from_silences, silence_survives,
  detection_window,
}

-- The lines come in the order of time.
abbrev pub IsAscending : ℕ → List SilenceLine → Type 0
IsAscending lo [] = Unit
IsAscending lo (start t ∷ r) = (lo ≤ t) × IsAscending t r
IsAscending lo (end t ∷ r) = (lo ≤ t) × IsAscending t r

-- Silences one after the other.
abbrev InOrder : ℕ → List Interval → Type 0
InOrder lo [] = Unit
InOrder lo ((s, e) ∷ r) = (lo ≤ s) × (s ≤ e) × InOrder e r

InOrder-le : (lo lo' : ℕ) (l : List Interval) → lo ≤ lo' → InOrder lo' l → InOrder lo l
InOrder-le lo lo' [] le h = tt
InOrder-le lo lo' ((s, e) ∷ r) le (a, b, h) = (omega arith, b, h)

mutual
  unfolding parse_silences

  parse_silences-none :
      (lo : ℕ) (l : List SilenceLine) → IsAscending lo l → InOrder lo (parse_silences none l)
  parse_silences-none lo [] h = tt
  parse_silences-none lo (start t ∷ r) (le, h) = parse_silences-some lo t t r le (omega arith) h
  parse_silences-none lo (end t ∷ r) (le, h) = InOrder-le lo t _ le (parse_silences-none t r h)

  parse_silences-some :
      (lo s t : ℕ) (l : List SilenceLine)
      → lo ≤ s
      → s ≤ t
      → IsAscending t l
      → InOrder lo (parse_silences (some s) l)
  parse_silences-some lo s t [] le le' h = tt
  parse_silences-some lo s t (start u ∷ r) le le' (k, h) =
      parse_silences-some lo u u r (omega arith) (omega arith) h
  parse_silences-some lo s t (end u ∷ r) le le' (k, h) =
      (le, omega arith, parse_silences-none u r h)

IsCuts-le : (lo lo' : ℕ) (l : List Interval) → lo ≤ lo' → IsCuts lo' l → IsCuts lo l
IsCuts-le lo lo' [] le h = tt
IsCuts-le lo lo' ((s, e) ∷ r) le (a, b, h) = (omega arith, b, h)

removed_from_silences-IsCuts :
    (lo : ℕ) (l : List Interval) → InOrder lo l → IsCuts lo (removed_from_silences l)
unfolding removed_from_silences
removed_from_silences-IsCuts lo [] h = tt
removed_from_silences-IsCuts lo ((s, e) ∷ r) (a, b, h) =
    let rest = removed_from_silences-IsCuts e r h in
    elim (Bool-cases (ltb detection_window s && ltb (s + silence_survives) e)) [
      | inl k ↦ rw k (omega arith, ground arith, rest)
      | inr k ↦ rw k (IsCuts-le lo e _ (omega arith) rest)
    ]

-- If the detector reports in the order of time, what is cut is a list of cuts in order that do not
-- overlap, and so a moment of the trimmed copy survives the way to the original clock and back.
pub parse_silences-IsCuts :
    (l : List SilenceLine) (p : ℕ)
    → IsAscending 0 l
    → let cuts = removed_from_silences (parse_silences none l) in
      IsCuts 0 cuts × (to_processed (to_original p cuts) cuts ≡ pos p)
parse_silences-IsCuts l p h =
    let cuts = removed_from_silences-IsCuts 0 _ (parse_silences-none 0 l h) in
    (cuts, to_processed-to_original p _ cuts)
