-- ===== src/Timeline/Clock.antt =====
-- A position that a client reports comes back to it.
use podarium.Prelude.{
  ℕ, ◌+◌, ◌*◌, ◌/◌, ◌≤◌, ◌≡◌, sym, ap, ◌∙◌, leb→le, arith, String, true, false, Option, some, none,
  List, leb, Bool-cases, inl, inr,
}
use podarium.Prelude.Int.{ℤ, pos}
use podarium.Model.Episode.{Episode}
use podarium.Timeline.{
  Interval, is_set, processed, original, to_original, served_version, int_seconds, round_div,
  removed_intervals, outbound, heard_on, inbound,
}
use podarium.Timeline.Cuts.{
  IsCuts, on_trimmed, to_processed-on_trimmed, to_processed-to_original, on_trimmed_mono,
}

-- Rounding moves a moment by at most half a second.
round_seconds : (n : ℕ) → (round_div n 1000 * 1000 ≤ n + 500) × (n ≤ round_div n 1000 * 1000 + 500)
unfolding round_div
round_seconds n = ground arith

pos-injective : {a b : ℕ} → pos a ≡ pos b → a ≡ b
pos-injective h = cc

served_processed : (e : Episode) → is_set e.processed_path ≡ true → served_version e ≡ processed
unfolding served_version
served_processed e h = rw h

served_original : (e : Episode) → is_set e.processed_path ≡ false → served_version e ≡ original
unfolding served_version
served_original e h = rw h

module _ (loads : String → Option (List (ℤ × ℤ))) (e : Episode) where
  -- With no processed copy both clocks are the original's.
  pub outbound-inbound_original :
      (s : ℕ)
      → is_set e.processed_path ≡ false
      → outbound loads e (some (inbound loads e s none * 1000)) ≡ some (pos s)
  unfolding outbound inbound heard_on
  outbound-inbound_original s h = rw (served_original e h) (ap (λ n. some (pos n)) (omega arith))

  module _ (copy : is_set e.processed_path ≡ true) {cuts : List Interval}
      (map_known : removed_intervals loads e ≡ some cuts) (disjoint : IsCuts 0 cuts)
      (version : Option String) (heard : heard_on loads e version ≡ processed) where
    inbound-cuts :
        (s : ℕ) → inbound loads e s version ≡ round_div (to_original (s * 1000) cuts) 1000
    unfolding inbound heard_on
    inbound-cuts s = rw (heard, copy, map_known)

    outbound-cuts : (ms : ℕ) → outbound loads e (some ms) ≡ some (pos (on_trimmed ms cuts / 1000))
    unfolding outbound int_seconds
    outbound-cuts ms =
        rw (served_processed e copy, map_known, to_processed-on_trimmed ms cuts disjoint)

    back : (s : ℕ) → on_trimmed (to_original (s * 1000) cuts) cuts ≡ s * 1000
    back s = pos-injective (
        sym (to_processed-on_trimmed _ cuts disjoint)
        ∙ to_processed-to_original (s * 1000) cuts disjoint)

    near :
        (s x : ℕ)
        → x * 1000 ≤ to_original (s * 1000) cuts + 500
        → to_original (s * 1000) cuts ≤ x * 1000 + 500
        → (on_trimmed (x * 1000) cuts / 1000 ≤ s) × (s ≤ on_trimmed (x * 1000) cuts / 1000 + 1)
    near s x lo hi = elim (Bool-cases (leb (to_original (s * 1000) cuts) (x * 1000))) [
      | inl c ↦ omega (
        arith,
        on_trimmed_mono (to_original (s * 1000) cuts) (x * 1000) cuts disjoint (leb→le _ _ c),
        back s,
      )
      | inr c ↦ omega (
        arith,
        on_trimmed_mono (x * 1000) (to_original (s * 1000) cuts) cuts disjoint (ground arith),
        back s,
      )
    ]

    -- Where the trim map is known and its cuts are in order and do not overlap, a second that is
    -- reported as heard on the trimmed copy, by its name or by the copy that is served, and read back
    -- is the same second or, from rounding, the one before it.
    pub outbound-inbound :
        (s : ℕ)
        → (d : ℕ) × (outbound loads e (some (inbound loads e s version * 1000)) ≡ some (pos d))
          × (d ≤ s)
          × (s ≤ d + 1)
    outbound-inbound s =
        let x = inbound loads e s version in
        let r = round_seconds (to_original (s * 1000) cuts) in
        let (below, above) = near s x (rw (inbound-cuts s) r.0) (rw (inbound-cuts s) r.1) in
        (on_trimmed (x * 1000) cuts / 1000, outbound-cuts (x * 1000), below, above)
