-- ===== src/AutoDownload/Trim.antt =====
-- What the removal half of the window leaves.
use podarium.Prelude.{
  ℕ, ◌≡◌, refl, arith, ap, ◌∙◌, subst, String, Bool, true, false, ◌&&◌, Option, none, some, List,
  [], ◌∷◌, if◌then◌else◌, is_some, All, filter, str_eq_refl, Bool-cases, Option-cases, inl, inr,
}
use podarium.Model.Enums.{Stamp}
use podarium.Model.Episode.{Episode}
use podarium.Timeline.{is_set}
use podarium.Disk.{
  Disk, unlink, unlink_set, forget_processed, drop_processed, finish_purge, purge_unlinked,
  purge_path, purge_episode,
}
use podarium.Disk.Purge.{Purges, IsSameEpisode, IsPurged, purge_episode-Purges}
use podarium.AutoDownload.{is_outside, trim_window}

and_left : (b c : Bool) → (b && c) ≡ true → b ≡ true
and_left b c h = ground arith

-- Nothing is refused.
abbrev pub IsFree : Disk → Type 0
IsFree d = (p : String) → d.locked p ≡ false

-- No file of the path, if there is one.
abbrev pub IsGone : Disk → Option String → Type 0
IsGone d none = Unit
IsGone d (some p) = d.exists p ≡ false

-- A path that is set.
abbrev pub set_path : Option String → Option String
set_path o = if is_set o then o else none

-- No file has been added.
abbrev IsBelow : Disk → Disk → Type 0
IsBelow d' d = (p : String) → d.exists p ≡ false → d'.exists p ≡ false

IsGone-IsBelow : (o : Option String) (d d' : Disk) → IsBelow d' d → IsGone d o → IsGone d' o
IsGone-IsBelow none d d' below gone = tt
IsGone-IsBelow (some p) d d' below gone = below p gone

abbrev Frees : Disk → Option String → Option Disk → Type 0
Frees d o none = ⊥
Frees d o (some d') = IsFree d' × IsBelow d' d × IsGone d' o

unlink-Frees : (p : String) (d : Disk) → IsFree d → Frees d (some p) (unlink p d)
unfolding unlink
unlink-Frees p d h = rw (h p) (h, λ q k. ground arith, rw (str_eq_refl p) refl)

unlink_set-Frees : (p : Option String) (d : Disk) → IsFree d → Frees d (set_path p) (unlink_set p d)
unfolding unlink_set
unlink_set-Frees none d h = (h, λ q k. k, tt)
unlink_set-Frees (some p) d h = elim (Bool-cases (is_set (some p))) [
  | inl e ↦ rw e (unlink-Frees p d h)
  | inr e ↦ rw e (h, λ q k. k, tt)
]

-- On such a disk a purge of a row with a file succeeds, and leaves such a disk without both copies.
abbrev Goes : Disk → Option String → Option String → Option (Bool × Disk × Episode) → Type 0
Goes d path copy none = ⊥
Goes d path copy (some (went, d', e)) =
    (went ≡ true) × IsFree d' × IsBelow d' d × IsGone d' path × IsGone d' copy

finish_purge-Goes :
    (now : Stamp) (d d' : Disk) (e : Episode) (path copy : Option String) (o : Option Disk)
    → IsBelow d' d
    → IsGone d' path
    → Frees d' copy o
    → Goes d path copy
        (finish_purge now (elim o [ none ↦ none | some d'' ↦ some (d'', forget_processed e) ]))
unfolding finish_purge
finish_purge-Goes now d d' e path copy none below gone h = h
finish_purge-Goes now d d' e path copy (some d'') below gone (free, below', gone') =
    (refl, free, λ q k. below' q (below q k), IsGone-IsBelow path d' d'' below' gone, gone')

purge_unlinked-Goes :
    (now : Stamp) (d : Disk) (e : Episode) (path : Option String) (o : Option Disk)
    → Frees d path o
    → Goes d path (set_path e.processed_path) (purge_unlinked now d e o)
unfolding purge_unlinked drop_processed
purge_unlinked-Goes now d e path none h = absurd h
purge_unlinked-Goes now d e path (some d') (free, below, gone) =
    finish_purge-Goes now d d' e path (set_path e.processed_path) (unlink_set e.processed_path d')
      below gone (unlink_set-Frees e.processed_path d' free)

purge_path-Goes :
    (now : Stamp) (d : Disk) (e : Episode) (o : Option String)
    → IsFree d
    → is_some o ≡ true
    → Goes d o (set_path e.processed_path) (purge_path now d e o)
unfolding purge_path
purge_path-Goes now d e none h there = cc
purge_path-Goes now d e (some p) h there =
    purge_unlinked-Goes now d e (some p) (unlink p d) (unlink-Frees p d h)

purge_episode-Goes :
    (now : Stamp) (d : Disk) (e : Episode)
    → IsFree d
    → is_some e.local_path ≡ true
    → Goes d e.local_path (set_path e.processed_path) (purge_episode now d e)
unfolding purge_episode
purge_episode-Goes now d e h there = purge_path-Goes now d e e.local_path h there

-- Neither copy of the episode is on the disk.
abbrev pub HasGone : Disk → Episode → Type 0
HasGone d e = IsGone d e.local_path × IsGone d (set_path e.processed_path)

HasGone-IsBelow :
    (d d' : Disk) (es : List Episode) → IsBelow d' d → All (HasGone d) es → All (HasGone d') es
HasGone-IsBelow d d' [] below h = tt
HasGone-IsBelow d d' (e ∷ es) below ((path, copy), rest) = (
  (
    IsGone-IsBelow e.local_path d d' below path,
    IsGone-IsBelow (set_path e.processed_path) d d' below copy,
  ),
  HasGone-IsBelow d d' es below rest,
)

module _ (window protected : List ℕ) where
  -- Rows side by side: those in the window, protected or without a file are as they were, and the
  -- others are the same episodes without a file.
  abbrev pub AreTrimmed : List Episode → List Episode → Type 0
  AreTrimmed [] [] = Unit
  AreTrimmed [] (e' ∷ rows') = ⊥
  AreTrimmed (e ∷ rows) [] = ⊥
  AreTrimmed (e ∷ rows) (e' ∷ rows') =
      (if is_outside window protected e
        then IsSameEpisode e e' × (e'.local_path ≡ none)
        else e' ≡ e)
      × AreTrimmed rows rows'

  abbrev pub AreGone : Disk → List Episode → Type 0
  AreGone d rows = All (HasGone d) (filter (is_outside window protected) rows)

  abbrev pub Trims : Disk → List Episode → Option (Disk × List Episode) → Type 0
  Trims d rows none = ⊥
  Trims d rows (some (d', rows')) =
      IsFree d' × IsBelow d' d × AreGone d' rows × AreTrimmed rows rows'

  pub trim_window-Trims :
      (now : Stamp) (d : Disk) (rows : List Episode)
      → IsFree d
      → Trims d rows (trim_window window protected now d rows)
  unfolding trim_window
  trim_window-Trims now d [] h = (h, λ q k. k, tt, tt)
  trim_window-Trims now d (e ∷ rows) h = elim (Bool-cases (is_outside window protected e)) [
    | inl out ↦
        let goes = purge_episode-Goes now d e h (and_left _ _ (and_left _ _ out)) in
        elim (Option-cases (purge_episode now d e)) [
          | inl k ↦ absurd (subst (Goes d e.local_path (set_path e.processed_path)) k goes)
          | inr ((went, d1, e1), k) ↦
              let (gone, free, below, path, copy) =
                subst (Goes d e.local_path (set_path e.processed_path)) k goes in
              let purges : Purges now e (some (went, d1, e1)) =
                subst (Purges now e) k (purge_episode-Purges now d e) in
              let purged : IsPurged now e1 =
                subst (λ b. if b then IsPurged now e1 else e1 ≡ e) gone purges.1 in
              let rest = trim_window-Trims now d1 rows free in
              elim (Option-cases (trim_window window protected now d1 rows)) [
                | inl k1 ↦ absurd (subst (Trims d1 rows) k1 rest)
                | inr ((d2, rows2), k1) ↦
                    let (free2, below2, gone2, trimmed) = subst (Trims d1 rows) k1 rest in
                    let both = HasGone-IsBelow d1 d2 (e ∷ []) below2 ((path, copy), tt) in
                    rw (out, k, k1)
                      (
                        free2,
                        λ q x. below2 q (below q x),
                        rw out (both.0, gone2),
                        (rw out (purges.0, purged.path), trimmed),
                      )
              ]
        ]
    | inr in_ ↦
        let rest = trim_window-Trims now d rows h in
        elim (Option-cases (trim_window window protected now d rows)) [
          | inl k1 ↦ absurd (subst (Trims d rows) k1 rest)
          | inr ((d2, rows2), k1) ↦
              let (free2, below2, gone2, trimmed) = subst (Trims d rows) k1 rest in
              rw (in_, k1) (free2, below2, rw in_ gone2, (rw in_ refl, trimmed))
        ]
  ]

  -- After it no row outside the window holds a file, unless it is protected.
  pub AreTrimmed-All :
      (rows rows' : List Episode)
      → AreTrimmed rows rows'
      → All (λ e. is_outside window protected e ≡ false) rows'
  AreTrimmed-All [] [] h = tt
  AreTrimmed-All [] (e' ∷ rows') h = absurd h
  AreTrimmed-All (e ∷ rows) [] h = absurd h
  AreTrimmed-All (e ∷ rows) (e' ∷ rows') (one, rest) = (
    elim (Bool-cases (is_outside window protected e)) [
      | inl out ↦
          let gone : IsSameEpisode e e' × (e'.local_path ≡ none) =
            subst (λ b. if b then IsSameEpisode e e' × (e'.local_path ≡ none) else e' ≡ e) out
              one in
          rw (gone.1) refl
      | inr in_ ↦
          let same : e' ≡ e =
            subst (λ b. if b then IsSameEpisode e e' × (e'.local_path ≡ none) else e' ≡ e) in_
              one in
          ap (is_outside window protected) same ∙ in_
    ],
    AreTrimmed-All rows rows' rest,
  )
