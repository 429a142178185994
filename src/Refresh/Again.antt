-- ===== src/Refresh/Again.antt =====
-- A refresh that is repeated, over all the renders of a feed.
use podarium.Prelude.{
  ℕ, ◌≡◌, ◌≢◌, refl, arith, sym, ap, ◌∙◌, subst, String, Bool, true, false, ◌||◌, Option, none,
  some, if◌then◌else◌, List, [], ◌∷◌, ◌++◌, any, str_eq, str_eq_refl, str_eq_iff, is_some,
  Bool-cases, Option-cases, inl, inr, sort_by,
}
use podarium.Model.Enums.{Stamp}
use podarium.Model.Episode.{Episode}
use podarium.Refresh.{
  ParsedEpisode, apply_parsed_episode, refresh_noted, refresh_row, stamped, new_episode, find_guid,
  write_guid, Pass, merge_found, merge_episode, merge_episodes, published_before, store_episodes,
}
use podarium.Refresh.Apply.{IsKept, apply_parsed_episode_twice, apply_parsed_episode-IsKept}
use podarium.Refresh.Merge.{refresh_row_twice, stamped_same, some-inj}

find_guid-guid :
    (g : String) (rows : List Episode) {e : Episode} → find_guid g rows ≡ some e → e.guid ≡ g
unfolding find_guid
find_guid-guid g [] h = absurd (ground arith)
find_guid-guid g (r ∷ rows) {e} h = elim (Bool-cases (str_eq r.guid g)) [
  | inl k ↦
      let same : r ≡ e = ground arith in
      ap (λ (x : Episode). x.guid) (sym same) ∙ (str_eq_iff r.guid g).0 k
  | inr k ↦ let later : find_guid g rows ≡ some e = ground arith in find_guid-guid g rows later
]

find_guid-append :
    (g : String) (rows : List Episode) (r : Episode)
    → find_guid g (rows ++ r ∷ []) ≡ elim (find_guid g rows) [
      | none ↦ if str_eq r.guid g then some r else none
      | some e ↦ some e
    ]
unfolding find_guid
find_guid-append g [] r = refl
find_guid-append g (x ∷ rows) r = ground (arith, find_guid-append g rows r)

find_guid-write_guid :
    (g : String) (rows : List Episode) (e' e : Episode)
    → e'.guid ≡ g
    → find_guid g rows ≡ some e
    → find_guid g (write_guid g e' rows) ≡ some e'
unfolding find_guid write_guid
find_guid-write_guid g [] e' e k h = absurd (ground arith)
find_guid-write_guid g (x ∷ rows) e' e k h =
    ground (arith, find_guid-write_guid g rows e' e, str_eq_iff e'.guid g)

find_guid-write_guid_other :
    (g g' : String) (rows : List Episode) (e' : Episode)
    → e'.guid ≡ g
    → g' ≢ g
    → find_guid g' (write_guid g e' rows) ≡ find_guid g' rows
unfolding find_guid write_guid
find_guid-write_guid_other g g' [] e' k n = refl
find_guid-write_guid_other g g' (x ∷ rows) e' k n = ground (
  arith,
  find_guid-write_guid_other g g' rows e' k n,
  str_eq_iff e'.guid g',
  str_eq_iff x.guid g',
  str_eq_iff x.guid g,
)

write_guid_same :
    (g : String) (rows : List Episode) (e : Episode)
    → find_guid g rows ≡ some e
    → write_guid g e rows ≡ rows
unfolding find_guid write_guid
write_guid_same g [] e h = refl
write_guid_same g (x ∷ rows) e h = ground (arith, write_guid_same g rows e)

true_ne_false : true ≢ false
true_ne_false h = cc

or_true : (b c : Bool) → c ≡ true → (b || c) ≡ true
or_true b c h = ground arith

none_ne_some : {A : Type 0} {a : A} → none ≢ some a
none_ne_some h = cc

-- A render that the rows have taken already.
abbrev Settled : Stamp → ParsedEpisode → List Episode → Type 0
Settled now p rows =
    (e : Episode) × (find_guid p.guid rows ≡ some e) × (refresh_row now e p ≡ some (e, false))

module _ (feed_id : ℕ) (now now' : Stamp) where
  abbrev first_row : ParsedEpisode → ℕ → Episode
  first_row p id = (apply_parsed_episode (new_episode id feed_id p.guid now) p).0

  first_row-again :
      (p : ParsedEpisode) (id : ℕ)
      → (refresh_row now' (first_row p id) p ≡ some (first_row p id, false))
        × ((first_row p id).guid ≡ p.guid)
  unfolding refresh_row refresh_noted new_episode
  first_row-again p id =
      let e = new_episode id feed_id p.guid now in
      let kept : IsKept e (first_row p id) = apply_parsed_episode-IsKept e p in
      let bare : is_some (first_row p id).local_path ≡ false = ap is_some kept.path in
      (
        rw (bare) (
            ap (λ (x : Episode × Bool). some (stamped now' (first_row p id) x.0 x.1, x.1))
              (apply_parsed_episode_twice e p)
            ∙ ap (λ x. some (x, false)) (stamped_same now' (first_row p id))),
        kept.guid,
      )

  -- A render that is the first of its guid is taken.
  merge_found-Settled :
      (p : ParsedEpisode) (m : Pass) (o : Option Episode) {m' : Pass}
      → find_guid p.guid m.rows ≡ o
      → merge_found feed_id now p m o ≡ some m'
      → Settled now' p m'.rows × (m'.seen ≡ p.guid ∷ m.seen)
  unfolding merge_found
  merge_found-Settled p m none {m'} h k =
      let rows_eq : m.rows ++ first_row p m.next_id ∷ [] ≡ m'.rows = ground arith in
      let (again, guid) = first_row-again p m.next_id in
      let there : find_guid p.guid (m.rows ++ first_row p m.next_id ∷ [])
          ≡ some (first_row p m.next_id) =
        find_guid-append p.guid m.rows (first_row p m.next_id)
        ∙ rw h (rw ((str_eq_iff _ _).1 guid) refl) in
      (
        (
          first_row p m.next_id,
          subst (λ rs. find_guid p.guid rs ≡ some (first_row p m.next_id)) rows_eq there,
          again,
        ),
        ground arith,
      )
  merge_found-Settled p m (some e) {m'} h k = elim (Option-cases (refresh_row now e p)) [
    | inl r ↦ absurd (ground arith)
    | inr ((e', c), r) ↦
        let rows_eq : write_guid p.guid e' m.rows ≡ m'.rows = ground arith in
        let (again, guid) = refresh_row_twice now now' e p r in
        let own : e'.guid ≡ p.guid = guid ∙ find_guid-guid p.guid m.rows h in
        (
          (
            e',
            subst (λ rs. find_guid p.guid rs ≡ some e') rows_eq
                (find_guid-write_guid p.guid m.rows e' e own h),
            again,
          ),
          ground arith,
        )
  ]

  -- It leaves alone what other guids have.
  merge_found-find :
      (p : ParsedEpisode) (m : Pass) (o : Option Episode) (g : String) {m' : Pass} {e : Episode}
      → find_guid p.guid m.rows ≡ o
      → merge_found feed_id now p m o ≡ some m'
      → g ≢ p.guid
      → find_guid g m.rows ≡ some e
      → find_guid g m'.rows ≡ some e
  unfolding merge_found
  merge_found-find p m none g {m'} {e} h k n f =
      let rows_eq : m.rows ++ first_row p m.next_id ∷ [] ≡ m'.rows = ground arith in
      subst (λ rs. find_guid g rs ≡ some e) rows_eq
        (find_guid-append g m.rows (first_row p m.next_id) ∙ rw f refl)
  merge_found-find p m (some x) g {m'} {e} h k n f = elim (Option-cases (refresh_row now x p)) [
    | inl r ↦ absurd (ground arith)
    | inr ((e', c), r) ↦
        let rows_eq : write_guid p.guid e' m.rows ≡ m'.rows = ground arith in
        let (_, guid) = refresh_row_twice now now x p r in
        let own : e'.guid ≡ p.guid = guid ∙ find_guid-guid p.guid m.rows h in
        subst (λ rs. find_guid g rs ≡ some e) rows_eq
          (find_guid-write_guid_other p.guid g m.rows e' own n ∙ f)
  ]

  -- The rest of the pass from what a step gives.
  abbrev Continues : List ParsedEpisode → Pass → Option Pass → Type 0
  Continues ps m' o = elim o [ none ↦ none | some x ↦ merge_episodes feed_id now ps x ] ≡ some m'

  not_seen :
      (p q : ParsedEpisode) (seen : List String)
      → any (str_eq q.guid) seen ≡ true
      → any (str_eq p.guid) seen ≡ false
      → q.guid ≢ p.guid
  not_seen p q seen h k e = absurd (true_ne_false (sym h ∙ ap (λ g. any (str_eq g) seen) e ∙ k))

  -- The rest of the pass leaves alone what has been seen.
  merge_episodes-find :
      (ps : List ParsedEpisode) (m : Pass) (q : ParsedEpisode) {m' : Pass} {e : Episode}
      → merge_episodes feed_id now ps m ≡ some m'
      → any (str_eq q.guid) m.seen ≡ true
      → find_guid q.guid m.rows ≡ some e
      → find_guid q.guid m'.rows ≡ some e
  unfolding merge_episodes merge_episode
  merge_episodes-find [] m q {m'} {e} h s f =
      subst (λ (x : Pass). find_guid q.guid x.rows ≡ some e) (some-inj h) f
  merge_episodes-find (p ∷ ps) m q {m'} {e} h s f = elim (Bool-cases (any (str_eq p.guid) m.seen)) [
    | inl old ↦
        let skip : merge_episode feed_id now p m ≡ some m = rw old refl in
        merge_episodes-find ps m q (subst (Continues ps m') skip h) s f
    | inr new ↦ elim (Option-cases (merge_found feed_id now p m (find_guid p.guid m.rows))) [
      | inl k ↦
          let stop : merge_episode feed_id now p m ≡ none = rw new k in
          absurd (none_ne_some (subst (Continues ps m') stop h))
      | inr (m1, k) ↦
          let go : merge_episode feed_id now p m ≡ some m1 = rw new k in
          let (_, seen) = merge_found-Settled p m _ refl k in
          let s1 : any (str_eq q.guid) m1.seen ≡ true =
            ap (any (str_eq q.guid)) seen ∙ or_true _ _ s in
          merge_episodes-find ps m1 q (subst (Continues ps m') go h) s1
            (merge_found-find p m _ q.guid refl k (not_seen p q m.seen s new) f)
    ]
  ]

-- The state of a second pass over the rows of a first one.
abbrev over : Pass → ℕ → List String → Pass
over m' next_id seen = record {
  rows = m'.rows;
  next_id = next_id;
  seen = seen;
  new_episodes = 0;
  updated_episodes = 0;
}

module _ (feed_id : ℕ) (now now' : Stamp) (next_id : ℕ) where
  -- A render that the rows have taken is met again.
  merge_found_again :
      (p : ParsedEpisode) (m' : Pass) (seen : List String)
      → Settled now' p m'.rows
      → merge_found feed_id now' p (over m' next_id seen) (find_guid p.guid m'.rows)
        ≡ some (over m' next_id (p.guid ∷ seen))
  unfolding merge_found
  merge_found_again p m' seen (e, found, again) = rw found (
      rw (again, merge_found)
        (ap (λ rs. some (over (record m' { rows = rs }) next_id (p.guid ∷ seen)))
          (write_guid_same p.guid m'.rows e found)))

  merge_episodes_again :
      (ps : List ParsedEpisode) (m : Pass) {m' : Pass}
      → merge_episodes feed_id now ps m ≡ some m'
      → merge_episodes feed_id now' ps (over m' next_id m.seen) ≡ some (over m' next_id m'.seen)
  unfolding merge_episodes merge_episode
  merge_episodes_again [] m {m'} h = ap (λ (x : Pass). some (over m' next_id x.seen)) (some-inj h)
  merge_episodes_again (p ∷ ps) m {m'} h = elim (Bool-cases (any (str_eq p.guid) m.seen)) [
    | inl old ↦
        let skip : merge_episode feed_id now p m ≡ some m = rw old refl in
        let skip' : merge_episode feed_id now' p (over m' next_id m.seen)
            ≡ some (over m' next_id m.seen) =
          rw old refl in
        rw (skip', merge_episodes)
          (merge_episodes_again ps m (subst (Continues feed_id now now' ps m') skip h))
    | inr new ↦ elim (Option-cases (merge_found feed_id now p m (find_guid p.guid m.rows))) [
      | inl k ↦
          let stop : merge_episode feed_id now p m ≡ none = rw new k in
          absurd (none_ne_some (subst (Continues feed_id now now' ps m') stop h))
      | inr (m1, k) ↦
          let go : merge_episode feed_id now p m ≡ some m1 = rw new k in
          let rest = subst (Continues feed_id now now' ps m') go h in
          let ((e, found, again), seen) = merge_found-Settled feed_id now now' p m _ refl k in
          let s1 : any (str_eq p.guid) m1.seen ≡ true =
            ap (any (str_eq p.guid)) seen ∙ rw (str_eq_refl p.guid) refl in
          let there = merge_episodes-find feed_id now now' ps m1 p rest s1 found in
          let go' : merge_episode feed_id now' p (over m' next_id m.seen)
              ≡ some (over m' next_id (p.guid ∷ m.seen)) =
            rw new (merge_found_again p m' m.seen (e, there, again)) in
          rw (go', merge_episodes)
            (subst
              (λ l.
                merge_episodes feed_id now' ps (over m' next_id l) ≡ some (over m' next_id m'.seen))
              seen (merge_episodes_again ps m1 rest))
    ]
  ]

  -- A feed that is stored a second time, at any later moment, changes no row and counts no new or
  -- updated episode.
  pub store_episodes_again :
      (ps : List ParsedEpisode) (first_id : ℕ) (rows : List Episode) {m' : Pass}
      → store_episodes feed_id now ps first_id rows ≡ some m'
      → store_episodes feed_id now' ps next_id m'.rows
        ≡ some (record {
          rows = m'.rows;
          next_id = next_id;
          seen = m'.seen;
          new_episodes = 0;
          updated_episodes = 0;
        })
  unfolding store_episodes
  store_episodes_again ps first_id rows h = merge_episodes_again (sort_by published_before ps) _ h
