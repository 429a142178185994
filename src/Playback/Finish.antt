-- ===== src/Playback/Finish.antt =====
-- A finished episode leaves the queue.
use podarium.Prelude.{
  ℕ, ◌≡◌, refl, arith, sym, ap, ◌∙◌, String, Bool, true, false, ◌&&◌, Option, none, some, List, [],
  ◌∷◌, contains, filter, ==_iff,
}
use podarium.Prelude.Int.{ℤ}
use podarium.Model.Enums.{Stamp}
use podarium.Model.Episode.{Episode, EpisodeState}
use podarium.Queue.{Table, ordered}
use podarium.Queue.Order.{episodes}
use podarium.Queue.Drop.{stays, drop_from_queue_lem}
use podarium.Playback.{
  StateUpdate, is_stale, get_or_create_state, add_listened, write_played, queue_after, stored_at,
  apply_write, update_found, update_state,
}
use podarium.Playback.Write.{apply_write-fields}

contains-stays : (x : ℕ) (q : Table) → contains x (episodes (filter (stays (x ∷ [])) q)) ≡ false
contains-stays x [] = refl
contains-stays x (r ∷ q) =
    ground (arith, contains-stays x q, ==_iff x r.episode_id, ==_iff r.episode_id x)

is_stale-none : (now : Stamp) (o : Option Stamp) → is_stale now none o ≡ false
unfolding is_stale
is_stale-none now none = refl
is_stale-none now (some t) = refl

and_false : (b c : Bool) → c ≡ false → (b && c) ≡ false
and_false b c h = ground arith

write_played-true :
    (now : Stamp) (s : EpisodeState) → (write_played now (some true) s).played ≡ true
unfolding write_played
write_played-true now s = ground arith

module _ (loads : String → Option (List (ℤ × ℤ))) (now : Stamp) (u : ℕ) (e : Episode)
    (body : StateUpdate) where
  -- An episode that is marked as played, by a write that happens now, is played and is not in the
  -- queue any more.
  pub update_state_finished :
      (stored raced : Option EpisodeState) (t : Table) {s' : EpisodeState} {t' : Table}
      → body.played ≡ some true
      → body.changed_at ≡ none
      → update_state loads now u (some e) body stored raced t ≡ some (s', t')
      → (s'.played ≡ true) × (contains e.id (episodes (ordered u t')) ≡ false)
  unfolding update_state update_found queue_after
  update_state_finished stored raced t {s'} {t'} p c same =
      let found = get_or_create_state u e.id now stored raced in
      let s1 = add_listened now body.listened_delta found.0 in
      let fresh : (found.1 && is_stale now body.changed_at (stored_at s1)) ≡ false =
        and_false _ _
          (ap (λ o. is_stale now o (stored_at s1)) c ∙ is_stale-none now (stored_at s1)) in
      let written : update_found loads now u e body found t
          ≡ (apply_write loads now e body s1, queue_after u e.id body.played t) =
        rw (fresh, update_found) refl in
      let both : ◌≡◌ {A = Option (EpisodeState × Table)}
          (some (apply_write loads now e body s1, queue_after u e.id body.played t))
          (some (s', t')) =
        ap some (sym written) ∙ same in
      let (_, played, _, _) = apply_write-fields loads now u e body s1 in
      let state : apply_write loads now e body s1 ≡ s' = ground arith in
      let queue : queue_after u e.id body.played t ≡ t' = ground arith in
      (
        ap (λ (x : EpisodeState). x.played) (sym state)
            ∙ played
            ∙ ap (λ o. (write_played now o s1).played) p
            ∙ write_played-true now s1,
        ap (λ x. contains e.id (episodes (ordered u x)))
              (sym queue ∙ ap (λ o. queue_after u e.id o t) p)
            ∙ ap (contains e.id) ((drop_from_queue_lem u (e.id ∷ []) t).0)
            ∙ contains-stays e.id (ordered u t),
      )
