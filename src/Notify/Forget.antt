-- ===== src/Notify/Forget.antt =====
-- When a phone is forgotten.
use podarium.Prelude.{
  ◌+◌, ◌≤◌, ◌≡◌, ◌⊎◌, refl, arith, subst, Bool, true, false, Option, none, some, List, [], ◌∷◌, leb,
  leb→le, if◌then◌else◌, Bool-cases, inl, inr,
}
use podarium.Model.Enums.{Stamp}
use podarium.Notify.{ApnsDevice, forget_device_after, refuse, notify_device}

-- The passes over a phone, the oldest one first: the moment of each and whether the relay accepts.
abbrev pub passes : List (Stamp × Bool) → ApnsDevice → Option ApnsDevice
passes [] d = some d
passes (p ∷ ps) d = elim (notify_device p.0 p.1 d) [ none ↦ none | some d' ↦ passes ps d' ]

abbrev passed : List (Stamp × Bool) → Option ApnsDevice → Option ApnsDevice
passed ps none = none
passed ps (some d) = passes ps d

abbrev accepted : Stamp → ApnsDevice → ApnsDevice
accepted now d = record d { last_used_at = some now; failing_since = none }

-- Every pass refuses, up to one that is three days after the moment.
abbrev pub IsRefusedSince : Stamp → List (Stamp × Bool) → Type 0
IsRefusedSince since [] = ⊥
IsRefusedSince since (p ∷ ps) =
    (p.1 ≡ false) × ((since + forget_device_after ≤ p.0) ⊎ IsRefusedSince since ps)

-- Somewhere such a series of refusals begins.
abbrev pub IsDead : List (Stamp × Bool) → Type 0
IsDead [] = ⊥
IsDead (p ∷ ps) = ((p.1 ≡ false) × IsRefusedSince p.0 ps) ⊎ IsDead ps

abbrev Verdict : Option Stamp → List (Stamp × Bool) → Type 0
Verdict none ps = IsDead ps
Verdict (some since) ps = IsRefusedSince since ps ⊎ IsDead ps

passes-Verdict :
    (ps : List (Stamp × Bool)) (d : ApnsDevice) (failing : Option Stamp)
    → d.failing_since ≡ failing
    → passes ps d ≡ none
    → Verdict failing ps
unfolding notify_device refuse
passes-Verdict [] d failing f h = absurd (ground arith)
passes-Verdict ((now, true) ∷ ps) d none f h = inr (passes-Verdict ps (accepted now d) none refl h)
passes-Verdict ((now, true) ∷ ps) d (some since) f h =
    inr (inr (passes-Verdict ps (accepted now d) none refl h))
passes-Verdict ((now, false) ∷ ps) d none f h =
    elim (passes-Verdict ps (record d { failing_since = some now }) (some now) refl
      (subst (λ o. passed ps (refuse now d o) ≡ none) f h)) [
        | inl r ↦ inl (refl, r)
        | inr r ↦ inr r
      ]
passes-Verdict ((now, false) ∷ ps) d (some since) f h =
    let h' : passed ps (refuse now d (some since)) ≡ none =
      subst (λ o. passed ps (refuse now d o) ≡ none) f h in
    elim (Bool-cases (leb (since + forget_device_after) now)) [
      | inl late ↦ inl (refl, inl (leb→le _ _ late))
      | inr early ↦
          let h2 : passes ps d ≡ none =
            subst (λ b. passed ps (if b then none else some d) ≡ none) early h' in
          elim (passes-Verdict ps d (some since) f h2) [
            | inl r ↦ inl (refl, inr r)
            | inr r ↦ inr (inr r)
          ]
    ]

-- A phone that had not been refused is only forgotten after a series of refusals without an
-- acceptance between them, of which the last is three days or more after the first.
pub passes-IsDead :
    (ps : List (Stamp × Bool)) (d : ApnsDevice)
    → d.failing_since ≡ none
    → passes ps d ≡ none
    → IsDead ps
passes-IsDead ps d f h = passes-Verdict ps d none f h
