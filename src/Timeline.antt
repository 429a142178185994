-- ===== src/Timeline.antt =====
-- One clock for every stored second: src/podarium/timeline.py. Seconds that the source holds as
-- floats are whole milliseconds here, to which a trim map is rounded when it is written; the
-- rounding errors of floats are not modelled.
pub mod Cuts
pub mod Clock
mod Tests
use podarium.Prelude.{
  ℕ, ◌+◌, ◌-◌, ◌*◌, ◌/◌, ◌%◌, String, Bool, true, false, ◌&&◌, ◌||◌, not, Option, none, some, List,
  [], ◌∷◌, ltb, leb, ◌==◌, if◌then◌else◌, filter, sort_by, str_eq, is_some,
}
use podarium.Prelude.Int.{ℤ, pos, negsuc, pos_part, sub_ℕ, ltb_ℤ}
use podarium.Model.Episode.{Episode}

abbrev pub Interval : Type 0
Interval = ℕ × ℕ

abbrev pub processed : String
processed = "p"

abbrev pub original : String
original = "o"

-- A text that Python counts as true.
abbrev pub is_set : Option String → Bool
is_set none = false
is_set (some s) = not (str_eq s "")

-- The order of tuples.
unfoldable pub pair_le : ℤ × ℤ → ℤ × ℤ → Bool
pair_le (a, b) (c, d) = ltb_ℤ a c || not (ltb_ℤ c a) && not (ltb_ℤ d b)

-- `[(a, b) for a, b in … if b > a >= 0]`
unfoldable pub proper : List (ℤ × ℤ) → List Interval
proper [] = []
proper ((pos a, pos b) ∷ r) = if ltb a b then (a, b) ∷ proper r else proper r
proper ((pos a, negsuc b) ∷ r) = proper r
proper ((negsuc a, b) ∷ r) = proper r

-- The time that trimming takes out before a moment of the original, added to what is removed so far.
unfoldable pub removed_from : ℕ → ℕ → List Interval → ℕ
removed_from removed t [] = removed
removed_from removed t ((start, end) ∷ r) =
    let past = removed_from (removed + (end - start)) t r in
    let inside = removed_from (removed + (t - start)) t r in
    if leb end t then past else if ltb start t then inside else removed

unfoldable pub to_processed : ℕ → List Interval → ℤ
to_processed t cuts = sub_ℕ t (removed_from 0 t cuts)

unfoldable pub original_from : ℕ → ℕ → List Interval → ℕ
original_from removed t [] = t + removed
original_from removed t ((start, end) ∷ r) =
    let later = original_from (removed + (end - start)) t r in
    if leb (t + removed) start then t + removed else later

unfoldable pub to_original : ℕ → List Interval → ℕ
to_original = original_from 0

unfoldable pub served_version : Episode → String
served_version e = if is_set e.processed_path then processed else original

unfoldable pub ratio_of : Option ℕ → Option ℕ → Option (ℕ × ℕ)
ratio_of none p = none
ratio_of (some s) none = none
ratio_of (some s) (some p) = if s == 0 || p == 0 || leb s p then none else some (p, s)

-- The processed length over the source's, as a fraction.
unfoldable pub ratio : Episode → Option (ℕ × ℕ)
unfolding ratio_of
ratio e = ratio_of e.source_duration_seconds e.processed_duration_seconds

-- `int` on milliseconds: cut towards zero.
unfoldable pub int_seconds : ℤ → ℤ
int_seconds (pos n) = pos (n / 1000)
int_seconds (negsuc n) = sub_ℕ 0 ((n + 1) / 1000)

-- `round(a / b)`: the nearest integer, a half to the even one.
unfoldable pub round_div : ℕ → ℕ → ℕ
round_div a b =
    let q = a / b in
    let r = a % b in if ltb (2 * r) b then q else if ltb b (2 * r) then q + 1 else q + q % 2

-- `json.loads` and the conversion of its pairs to numbers; `none` where they raise.
module _ (loads : String → Option (List (ℤ × ℤ))) where
  unfoldable pub removed_intervals : Episode → Option (List Interval)
  removed_intervals e = elim e.trim_map_json [
    | none ↦ none
    | some raw ↦ elim (loads raw) [
      | none ↦ none
      | some pairs ↦ some (proper (sort_by pair_le pairs))
    ]
  ]

  -- A stored moment in milliseconds, as the served copy's clock reads it, in seconds.
  unfoldable pub outbound : Episode → Option ℕ → Option ℤ
  outbound e none = none
  outbound e (some ms) = some (
      if not (str_eq (served_version e) processed)
      then pos (ms / 1000)
      else elim (removed_intervals e) [
        | some cuts ↦ int_seconds (to_processed ms cuts)
        | none ↦ elim (ratio e) [ some (p, s) ↦ pos (ms * p / (1000 * s)) | none ↦ pos (ms / 1000) ]
      ])

  -- The copy that a report was heard on.
  unfoldable pub heard_on : Episode → Option String → String
  heard_on e none = served_version e
  heard_on e (some v) = if str_eq v "" then served_version e else v

  -- A second that a client reports, on the original's clock.
  unfoldable pub inbound : Episode → ℕ → Option String → ℕ
  inbound e s version =
      if not (str_eq (heard_on e version) processed) || not (is_set e.processed_path)
      then s
      else elim (removed_intervals e) [
        | some cuts ↦ round_div (to_original (s * 1000) cuts) 1000
        | none ↦ elim (ratio e) [ some (p, q) ↦ round_div (s * q) p | none ↦ s ]
      ]
