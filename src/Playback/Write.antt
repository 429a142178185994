-- ===== src/Playback/Write.antt =====
-- What a write of the state of an episode does and what it leaves alone.
use podarium.Prelude.{
  ℕ, zero, suc, ◌+◌, ◌≤◌, ◌<◌, ◌≡◌, refl, arith, sym, ap, ap₂, subst, ◌∙◌, String, Bool, true,
  false, ◌&&◌, Option, none, some, List, or_else, min, is_some, Bool-cases, inl, inr,
}
use podarium.Prelude.Int.{ℤ}
use podarium.Model.Enums.{Stamp, seconds}
use podarium.Model.Episode.{Episode, EpisodeState}
use podarium.Timeline.{inbound}
use podarium.Queue.{Table}
use podarium.Playback.{
  StateUpdate, is_stale, new_state, get_or_create_state, add_listened, write_played, write_starred,
  queue_after, described_at, stored_at, write_position, apply_write, update_found, update_state,
}

-- An episode has a moment of completion exactly while it is played, and describes no moment that is
-- still to come.
abbrev pub IsSettled : Stamp → EpisodeState → Type 0
IsSettled now s = (is_some s.completed_at ≡ s.played) × (or_else s.changed_at 0 ≤ now)

module _ (loads : String → Option (List (ℤ × ℤ))) (now : Stamp) (u : ℕ) (e : Episode)
    (body : StateUpdate) where
  add_listened-IsSettled :
      (o : Option ℕ) (s : EpisodeState) → IsSettled now s → IsSettled now (add_listened now o s)
  unfolding add_listened
  add_listened-IsSettled none s h = h
  add_listened-IsSettled (some zero) s h = h
  add_listened-IsSettled (some (suc n)) s h = h

  add_listened_lem :
      (o : Option ℕ) (s : EpisodeState)
      → (add_listened now o s).listened_seconds ≡ s.listened_seconds + or_else o 0
  unfolding add_listened
  add_listened_lem none s = omega arith
  add_listened_lem (some zero) s = omega arith
  add_listened_lem (some (suc n)) s = refl

  write_played-completed :
      (o : Option Bool) (s : EpisodeState)
      → is_some s.completed_at ≡ s.played
      → is_some (write_played now o s).completed_at ≡ (write_played now o s).played
  unfolding write_played
  write_played-completed none s h = h
  write_played-completed (some true) s h = ground arith
  write_played-completed (some false) s h = refl

  -- The other fields do not touch these.
  pub apply_write-fields :
      (s : EpisodeState)
      → let s' = apply_write loads now e body s in
        (s'.completed_at ≡ (write_played now body.played s).completed_at)
        × (s'.played ≡ (write_played now body.played s).played)
        × (s'.listened_seconds ≡ s.listened_seconds)
        × (s'.changed_at ≡ some (described_at now body.changed_at))
  unfolding apply_write write_starred write_position write_played
  apply_write-fields s = ground arith

  apply_write-IsSettled :
      (s : EpisodeState) → IsSettled now s → IsSettled now (apply_write loads now e body s)
  unfolding described_at
  apply_write-IsSettled s (h, le) =
      let (c, p, _, m) = apply_write-fields s in
      (ap is_some c ∙ write_played-completed body.played s h ∙ sym p, ground arith)

  update_found-IsSettled :
      (s : EpisodeState) (existed : Bool) (t : Table)
      → IsSettled now s
      → IsSettled now (update_found loads now u e body (s, existed) t).0
  unfolding update_found
  update_found-IsSettled s existed t h =
      let s' = add_listened now body.listened_delta s in
      let h' = add_listened-IsSettled body.listened_delta s h in
      elim (Bool-cases (existed && is_stale now body.changed_at (stored_at s'))) [
        | inl b ↦ rw b h'
        | inr b ↦ rw b (apply_write-IsSettled s' h')
      ]

  abbrev pub AreSettled : Option EpisodeState → Type 0
  AreSettled none = Unit
  AreSettled (some s) = IsSettled now s

  abbrev AreSettledResult : Option (EpisodeState × Table) → Type 0
  AreSettledResult none = Unit
  AreSettledResult (some (s, t)) = IsSettled now s

  apply_write-listened :
      (s : EpisodeState) → (apply_write loads now e body s).listened_seconds ≡ s.listened_seconds
  apply_write-listened s = let (_, _, same, _) = apply_write-fields s in same

  -- The invariant is kept by every write, also by one that finds the row of another first write.
  pub update_state-IsSettled :
      (stored raced : Option EpisodeState) (t : Table) {s' : EpisodeState} {t' : Table}
      → AreSettled stored
      → AreSettled raced
      → update_state loads now u (some e) body stored raced t ≡ some (s', t')
      → IsSettled now s'
  unfolding update_state get_or_create_state new_state
  update_state-IsSettled (some s) raced t h k same =
      subst (AreSettledResult) same (update_found-IsSettled s true t h)
  update_state-IsSettled none none t h k same =
      subst (AreSettledResult) same
        (update_found-IsSettled (new_state u e.id now) false t (refl, omega arith))
  update_state-IsSettled none (some s) t h k same =
      subst (AreSettledResult) same (update_found-IsSettled s false t k)

  -- Audio that was heard is counted on every branch: also a write that is overtaken adds its seconds.
  pub update_state-listened :
      (s : EpisodeState) (raced : Option EpisodeState) (t : Table) {s' : EpisodeState} {t' : Table}
      → update_state loads now u (some e) body (some s) raced t ≡ some (s', t')
      → s'.listened_seconds ≡ s.listened_seconds + or_else body.listened_delta 0
  unfolding update_state get_or_create_state update_found
  update_state-listened s raced t {s'} {t'} same =
      let s1 = add_listened now body.listened_delta s in
      let first : (update_found loads now u e body (s, true) t).0 ≡ s' =
        ap (λ (o : Option (EpisodeState × Table)). elim o [ none ↦ s | some x ↦ x.0 ]) same in
      ap (λ (x : EpisodeState). x.listened_seconds) (sym first)
      ∙ elim (Bool-cases (is_stale now body.changed_at (stored_at s1))) [
        | inl b ↦ rw b (add_listened_lem body.listened_delta s)
        | inr b ↦ rw b (apply_write-listened s1 ∙ add_listened_lem body.listened_delta s)
      ]

  abbrev SameProgress : EpisodeState → EpisodeState → Type 0
  SameProgress s s' =
      (s'.position_seconds ≡ s.position_seconds)
      × (s'.played ≡ s.played)
      × (s'.completed_at ≡ s.completed_at)
      × (s'.starred ≡ s.starred)
      × (s'.last_played_at ≡ s.last_played_at)
      × (s'.changed_at ≡ s.changed_at)

  add_listened-SameProgress :
      (o : Option ℕ) (s : EpisodeState) → SameProgress s (add_listened now o s)
  unfolding add_listened
  add_listened-SameProgress none s = (refl, refl, refl, refl, refl, refl)
  add_listened-SameProgress (some zero) s = (refl, refl, refl, refl, refl, refl)
  add_listened-SameProgress (some (suc n)) s = (refl, refl, refl, refl, refl, refl)

  -- The check reads the stored moment through the listened total.
  is_stale-add_listened :
      (s : EpisodeState) {made described : Stamp}
      → s.changed_at ≡ some made
      → body.changed_at ≡ some described
      → is_stale now body.changed_at (stored_at (add_listened now body.listened_delta s))
        ≡ is_stale now (some described) (some made)
  is_stale-add_listened s h k =
      let (_, _, _, _, _, same) = add_listened-SameProgress body.listened_delta s in
      ap₂ (is_stale now) k
        (ap (λ o. some (or_else o (add_listened now body.listened_delta s).updated_at)) (same ∙ h))

  apply_write-position :
      (s : EpisodeState) {p : ℕ}
      → body.position_seconds ≡ some p
      → let s' = apply_write loads now e body s in
        (s'.position_seconds ≡ inbound loads e p body.audio_version)
        × (s'.last_played_at ≡ some now)
  unfolding apply_write write_starred write_position
  apply_write-position s h = ground arith

  -- A write that describes a moment more than a minute before what is stored changes neither the
  -- progress nor the marks of the episode nor the queue.
  pub update_state_overtaken :
      (s : EpisodeState) (raced : Option EpisodeState) (t : Table) {made described : Stamp}
      → s.changed_at ≡ some made
      → body.changed_at ≡ some described
      → described + seconds 60 < made
      → (s' : EpisodeState) × (update_state loads now u (some e) body (some s) raced t
          ≡ some (s', t))
        × (s'.position_seconds ≡ s.position_seconds)
        × (s'.played ≡ s.played)
        × (s'.completed_at ≡ s.completed_at)
        × (s'.starred ≡ s.starred)
        × (s'.last_played_at ≡ s.last_played_at)
        × (s'.changed_at ≡ s.changed_at)
  unfolding update_state get_or_create_state update_found is_stale described_at
  update_state_overtaken s raced t {made} {described} h k lt =
      let s1 = add_listened now body.listened_delta s in
      let b : is_stale now body.changed_at (stored_at s1) ≡ true =
        is_stale-add_listened s h k ∙ ground arith in
      let (position, played, completed, starred, last, changed) =
        add_listened-SameProgress body.listened_delta s in
      (s1, rw (b, update_found) refl, position, played, completed, starred, last, changed)

  -- A write that describes a moment at most a minute before what is stored is applied: the position
  -- is the one that was reported, on the clock of the original, and the moment of the row is that of
  -- the write, or now if it claims to be from the future.
  pub update_state_applied :
      (s : EpisodeState) (raced : Option EpisodeState) (t : Table) (p : ℕ) {made described : Stamp}
      → s.changed_at ≡ some made
      → body.changed_at ≡ some described
      → body.position_seconds ≡ some p
      → made ≤ min described now + seconds 60
      → (s' : EpisodeState) × (t' : Table) × (update_state loads now u
            (some e)
            body
            (some s)
            raced
            t
          ≡ some (s', t'))
        × (s'.position_seconds ≡ inbound loads e p body.audio_version)
        × (s'.last_played_at ≡ some now)
        × (s'.changed_at ≡ some (min described now))
  unfolding update_state get_or_create_state update_found is_stale described_at
  update_state_applied s raced t p {made} {described} h k pos le =
      let s1 = add_listened now body.listened_delta s in
      let b : is_stale now body.changed_at (stored_at s1) ≡ false =
        is_stale-add_listened s h k ∙ ground arith in
      let (position, last) = apply_write-position s1 pos in
      let (_, _, _, changed) = apply_write-fields s1 in
      (
        apply_write loads now e body s1,
        queue_after u e.id body.played t,
        rw (b, update_found) refl,
        position,
        last,
        changed ∙ rw (k, described_at) refl,
      )
