-- ===== src/Timeline/Cuts.antt =====
-- The two clocks: what the map between them keeps.
use podarium.Prelude.{
  ℕ, ◌+◌, ◌-◌, ◌≤◌, ◌<◌, ◌≡◌, ◌⊎◌, refl, arith, List, [], ◌∷◌, leb, Bool-cases, inl, inr,
}
use podarium.Prelude.Int.{pos}
use podarium.Timeline.{Interval, removed_from, to_processed, original_from, to_original}

-- The cuts come in order from a moment on, do not overlap and are not empty.
abbrev pub IsCuts : ℕ → List Interval → Type 0
IsCuts lo [] = Unit
IsCuts lo ((s, e) ∷ r) = (lo ≤ s) × (s < e) × IsCuts e r

original_from-le :
    (removed p : ℕ) (cuts : List Interval) → p + removed ≤ original_from removed p cuts
unfolding original_from
original_from-le removed p [] = omega arith
original_from-le removed p ((s, e) ∷ r) = ground (arith, original_from-le (removed + (e - s)) p r)

removed_from-original :
    (removed lo p : ℕ) (cuts : List Interval)
    → IsCuts lo cuts
    → removed_from removed (original_from removed p cuts) cuts + p ≡ original_from removed p cuts
unfolding original_from removed_from
removed_from-original removed lo p [] h = omega arith
removed_from-original removed lo p ((s, e) ∷ r) h = elim (Bool-cases (leb (p + removed) s)) [
  | inl c ↦ rw c (ground arith)
  | inr c ↦ rw c (
      ground (
        arith,
        original_from-le (removed + (e - s)) p r,
        removed_from-original (removed + (e - s)) e p r h.2,
      ))
]

-- Where the cuts are in order and do not overlap, a moment of the trimmed copy, taken to the original's
-- clock and back, is the same moment.
pub to_processed-to_original :
    (p : ℕ) (cuts : List Interval) → IsCuts 0 cuts → to_processed (to_original p cuts) cuts ≡ pos p
unfolding to_processed to_original
to_processed-to_original p cuts h = ground (arith, removed_from-original 0 0 p cuts h)

removed_from_none :
    (removed lo t : ℕ) (cuts : List Interval)
    → IsCuts lo cuts
    → t ≤ lo
    → removed_from removed t cuts ≡ removed
unfolding removed_from
removed_from_none removed lo t [] h le = refl
removed_from_none removed lo t ((s, e) ∷ r) h le = ground arith

removed_from_bounds :
    (removed lo t : ℕ) (cuts : List Interval)
    → IsCuts lo cuts
    → lo ≤ t
    → (removed ≤ removed_from removed t cuts) × (removed_from removed t cuts ≤ removed + (t - lo))
unfolding removed_from
removed_from_bounds removed lo t [] h le = omega arith
removed_from_bounds removed lo t ((s, e) ∷ r) h le = ground (
  arith,
  removed_from_bounds (removed + (e - s)) e t r h.2,
  removed_from_none (removed + (t - s)) e t r h.2,
)

-- What is removed before a later moment is no less, and more by at most the time between.
pub removed_from_mono :
    (removed lo t t' : ℕ) (cuts : List Interval)
    → IsCuts lo cuts
    → t ≤ t'
    → (removed_from removed t cuts ≤ removed_from removed t' cuts)
      × (removed_from removed t' cuts ≤ removed_from removed t cuts + (t' - t))
unfolding removed_from
removed_from_mono removed lo t t' [] h le = omega arith
removed_from_mono removed lo t t' ((s, e) ∷ r) h le = ground (
  arith,
  removed_from_mono (removed + (e - s)) e t t' r h.2,
  removed_from_none (removed + (t - s)) e t r h.2,
  removed_from_none (removed + (t' - s)) e t' r h.2,
  removed_from_bounds (removed + (e - s)) e t' r h.2,
)

-- The moment on the trimmed clock, as a number.
pub on_trimmed : ℕ → List Interval → ℕ
on_trimmed t cuts = t - removed_from 0 t cuts

pub to_processed-on_trimmed :
    (t : ℕ) (cuts : List Interval) → IsCuts 0 cuts → to_processed t cuts ≡ pos (on_trimmed t cuts)
unfolding to_processed on_trimmed
to_processed-on_trimmed t cuts h = ground (arith, removed_from_bounds 0 0 t cuts h)

pub on_trimmed_mono :
    (t t' : ℕ) (cuts : List Interval)
    → IsCuts 0 cuts
    → t ≤ t'
    → (on_trimmed t cuts ≤ on_trimmed t' cuts) × (on_trimmed t' cuts ≤ on_trimmed t cuts + (t' - t))
unfolding on_trimmed
on_trimmed_mono t t' cuts h le =
    omega (arith, removed_from_mono 0 0 t t' cuts h le, removed_from_bounds 0 0 t cuts h)

-- Time on the trimmed clock never runs back, and never faster than on the original's.
pub to_processed_mono :
    (t t' : ℕ) (cuts : List Interval)
    → IsCuts 0 cuts
    → t ≤ t'
    → (a : ℕ) × (b : ℕ) × (to_processed t cuts ≡ pos a)
      × (to_processed t' cuts ≡ pos b)
      × (a ≤ b)
      × (b ≤ a + (t' - t))
to_processed_mono t t' cuts h le = (
  on_trimmed t cuts,
  on_trimmed t' cuts,
  to_processed-on_trimmed t cuts h,
  to_processed-on_trimmed t' cuts h,
  (on_trimmed_mono t t' cuts h le).0,
  (on_trimmed_mono t t' cuts h le).1,
)

-- The moment lies in no cut; its end belongs to a cut, and its start does not.
abbrev pub IsHeard : ℕ → List Interval → Type 0
IsHeard t [] = Unit
IsHeard t ((s, e) ∷ r) = ((t ≤ s) ⊎ (e < t)) × IsHeard t r

removed_from-heard :
    (removed lo t : ℕ) (cuts : List Interval)
    → IsCuts lo cuts
    → IsHeard t cuts
    → lo < t
    → removed_from removed t cuts + lo < removed + t
unfolding removed_from
removed_from-heard removed lo t [] h o le = omega arith
removed_from-heard removed lo t ((s, e) ∷ r) h o le =
    ground (arith, removed_from-heard (removed + (e - s)) e t r h.2 o.1)

original_from-removed :
    (removed lo p t : ℕ) (cuts : List Interval)
    → IsCuts lo cuts
    → IsHeard t cuts
    → p + removed_from removed t cuts ≡ t
    → original_from removed p cuts ≡ t
unfolding original_from removed_from
original_from-removed removed lo p t [] h o eq = eq
original_from-removed removed lo p t ((s, e) ∷ r) h o eq = ground (
  arith,
  removed_from-heard (removed + (e - s)) e t r h.2 o.1,
  original_from-removed (removed + (e - s)) e p t r h.2 o.1,
)

-- Where the cuts are in order and do not overlap, a moment of the original that trimming did not take
-- out comes back from the trimmed clock.
pub to_original-to_processed :
    (t : ℕ) (cuts : List Interval)
    → IsCuts 0 cuts
    → IsHeard t cuts
    → (p : ℕ) × (to_processed t cuts ≡ pos p) × (to_original p cuts ≡ t)
unfolding to_original on_trimmed
to_original-to_processed t cuts h o = (
  on_trimmed t cuts,
  to_processed-on_trimmed t cuts h,
  original_from-removed 0 0 _ t cuts h o (omega (arith, removed_from_bounds 0 0 t cuts h)),
)
