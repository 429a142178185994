-- ===== src/Retention/Protect.antt =====
-- A sweep leaves alone what is queued or starred.
use podarium.Prelude.{
  All, ℕ, ◌-◌, ◌≡◌, refl, arith, sym, ap, subst, ◌∙◌, Bool, true, false, ◌&&◌, ◌||◌, not, Option,
  none, some, List, [], ◌∷◌, ◌++◌, leb, ◌==◌, if◌then◌else◌, contains, filter, sort_by, sum_by,
  Bool-cases, Option-cases, inl, inr, map, any, ==_iff,
}
use podarium.Model.Enums.{Stamp}
use podarium.Model.Episode.{Episode, EpisodeState, QueueItem}
use podarium.Model.Feed.{AppSettings}
use podarium.Disk.{Disk, purge_episode}
use podarium.Disk.Purge.{Purges, purge_episode-Purges}
use podarium.Retention.{
  caught_up, left_over, Row, Pass, is_protected, expires, sweep_policy, goes_before, sweep_ceiling,
  sweep_survivors, sweep_rows, sweep, size, protected_episode_ids,
}

-- A purged episode keeps its id.
purge_episode-id :
    (now : Stamp) (d : Disk) (e : Episode) {went : Bool} {d' : Disk} {e' : Episode}
    → purge_episode now d e ≡ some (went, d', e')
    → e'.id ≡ e.id
purge_episode-id now d e {went} {d'} {e'} h =
    let p : Purges now e (some (went, d', e')) =
      subst (Purges now e) h (purge_episode-Purges now d e) in
    p.0.id

-- A row that is caught up is still of the same episode.
caught_up-id : (tried : List Row) (r : Row) → (caught_up tried r).episode.id ≡ r.episode.id
unfolding caught_up
caught_up-id [] r = refl
caught_up-id (x ∷ tried) r = elim (Bool-cases (x.episode.id == r.episode.id)) [
  | inl e ↦ rw (e, caught_up) ((==_iff x.episode.id r.episode.id).0 e)
  | inr e ↦ rw (e, caught_up) (caught_up-id tried r)
]

module _ (ids : List ℕ) where
  -- No purge was tried on a protected row.
  abbrev AreBare : List Row → Type 0
  AreBare rs = All (λ r. is_protected ids r ≡ false) rs

  purged-bare :
      (now : Stamp) (d : Disk) (tried : List Row) (r : Row) {went : Bool} {d' : Disk} {e' : Episode}
      → is_protected ids r ≡ false
      → purge_episode now d (caught_up tried r).episode ≡ some (went, d', e')
      → is_protected ids (record r { episode = e' }) ≡ false
  purged-bare now d tried r bare m =
      ap (λ i. contains i ids)
        (purge_episode-id now d (caught_up tried r).episode m ∙ caught_up-id tried r)
      ∙ bare

  abbrev PassBare : Option Pass → Type 0
  PassBare none = Unit
  PassBare (some p) = AreBare p.tried

  sweep_policy-PassBare :
      (settings : AppSettings) (now : Stamp) (d : Disk) (tried rs : List Row)
      → AreBare tried
      → PassBare (sweep_policy ids settings now d tried rs)
  unfolding sweep_policy
  sweep_policy-PassBare settings now d tried [] h = h
  sweep_policy-PassBare settings now d tried (r ∷ rs) h =
      elim (Bool-cases (is_protected ids r || not (expires settings now (caught_up tried r)))) [
        | inl stays ↦ elim (Option-cases (sweep_policy ids settings now d tried rs)) [
          | inl m ↦ rw (stays, m) tt
          | inr (p, m) ↦
              rw (stays, m) (subst PassBare m (sweep_policy-PassBare settings now d tried rs h))
        ]
        | inr goes ↦ elim (Option-cases (purge_episode now d (caught_up tried r).episode)) [
          | inl m ↦ rw (goes, m) tt
          | inr ((went, d1, e1), m) ↦
              let tried' = record r { episode = e1 } ∷ tried in
              let bare = purged-bare now d tried r (ground arith) m in
              elim (Option-cases (sweep_policy ids settings now d1 tried' rs)) [
                | inl m1 ↦ rw (goes, m, m1) tt
                | inr (p, m1) ↦
                    rw (goes, m, m1)
                      (subst PassBare m1
                        (sweep_policy-PassBare settings now d1 tried' rs (bare, h)))
              ]
        ]
      ]

  abbrev LoopBare : Option (Disk × List Row × ℕ) → Type 0
  LoopBare none = Unit
  LoopBare (some (d, tried, n)) = AreBare tried

  sweep_ceiling-LoopBare :
      (now : Stamp) (ceiling total : ℕ) (d : Disk) (tried rs : List Row)
      → AreBare tried
      → LoopBare (sweep_ceiling ids now ceiling total d tried rs)
  unfolding sweep_ceiling
  sweep_ceiling-LoopBare now ceiling total d tried [] h = h
  sweep_ceiling-LoopBare now ceiling total d tried (r ∷ rs) h =
      elim (Bool-cases (leb total ceiling)) [
        | inl below ↦ rw below h
        | inr over ↦ elim (Bool-cases (is_protected ids r)) [
          | inl safe ↦ rw (over, safe) (sweep_ceiling-LoopBare now ceiling total d tried rs h)
          | inr bare ↦ elim (Option-cases (purge_episode now d (caught_up tried r).episode)) [
            | inl m ↦ rw (over, bare, m) tt
            | inr ((went, d1, e1), m) ↦
                let left = if went then total - size (caught_up tried r) else total in
                let tried' = record r { episode = e1 } ∷ tried in
                let bare' = purged-bare now d tried r bare m in
                elim (Option-cases (sweep_ceiling ids now ceiling left d1 tried' rs)) [
                  | inl m1 ↦ rw (over, bare, m, m1) tt
                  | inr ((d2, tried2, n2), m1) ↦
                      rw (over, bare, m, m1)
                        (subst LoopBare m1
                          (sweep_ceiling-LoopBare now ceiling left d1 tried' rs (bare', h)))
                ]
          ]
        ]
      ]

  sweep_survivors-LoopBare :
      (now : Stamp) (o : Option ℕ) (d : Disk) (tried rs : List Row)
      → AreBare tried
      → LoopBare (sweep_survivors ids now o d tried rs)
  unfolding sweep_survivors
  sweep_survivors-LoopBare now none d tried rs h = h
  sweep_survivors-LoopBare now (some ceiling) d tried rs h =
      elim (Bool-cases (ceiling == 0 || leb (sum_by size rs) ceiling)) [
        | inl e ↦ rw e h
        | inr e ↦
            rw e (
              sweep_ceiling-LoopBare now ceiling (sum_by size rs) d tried (sort_by goes_before rs)
                h)
      ]

  -- A protected row is not among them, so it stays as it is.
  caught_up_protected :
      (tried : List Row) (r : Row)
      → AreBare tried
      → is_protected ids r ≡ true
      → caught_up tried r ≡ r
  unfolding caught_up
  caught_up_protected [] r h safe = refl
  caught_up_protected (x ∷ tried) r h safe = elim (Bool-cases (x.episode.id == r.episode.id)) [
    | inl e ↦
        let other : is_protected ids r ≡ false =
          ap (λ i. contains i ids) (sym ((==_iff x.episode.id r.episode.id).0 e)) ∙ h.0 in
        absurd (ground arith)
    | inr e ↦ rw (e, caught_up) (caught_up_protected tried r h.1 safe)
  ]

  -- Row by row, those that are protected come out as they were.
  abbrev pub AreKept : List Row → List Row → Type 0
  AreKept [] [] = Unit
  AreKept [] (r' ∷ rs') = ⊥
  AreKept (r ∷ rs) [] = ⊥
  AreKept (r ∷ rs) (r' ∷ rs') = (if is_protected ids r then r' ≡ r else Unit) × AreKept rs rs'

  caught_up-AreKept : (tried rs : List Row) → AreBare tried → AreKept rs (map (caught_up tried) rs)
  caught_up-AreKept tried [] h = tt
  caught_up-AreKept tried (r ∷ rs) h = elim (Bool-cases (is_protected ids r)) [
    | inl safe ↦ (rw safe (caught_up_protected tried r h safe), caught_up-AreKept tried rs h)
    | inr bare ↦ (rw bare tt, caught_up-AreKept tried rs h)
  ]

  sweep_rows-AreKept :
      (settings : AppSettings) (now : Stamp) (d : Disk) (rs : List Row) {d' : Disk} {rs' : List Row}
      {n : ℕ}
      → sweep_rows ids settings now d rs ≡ some (d', rs', n)
      → AreKept rs rs'
  unfolding sweep_rows
  sweep_rows-AreKept settings now d rs {d'} {rs'} {n} h =
      elim (Option-cases (sweep_policy ids settings now d [] rs)) [
        | inl m ↦ absurd (ground arith)
        | inr (p, m) ↦
            let ceiling = settings.download_dir_max_bytes in
            let bare : AreBare p.tried =
              subst PassBare m (sweep_policy-PassBare settings now d [] rs tt) in
            elim (Option-cases (sweep_survivors ids now ceiling p.disk p.tried (left_over p))) [
              | inl m1 ↦ absurd (ground arith)
              | inr ((d1, tried1, n1), m1) ↦
                  let same : map (caught_up tried1) rs ≡ rs' = ground arith in
                  let bare1 : AreBare tried1 =
                    subst LoopBare m1
                      (sweep_survivors-LoopBare now ceiling p.disk p.tried (left_over p) bare) in
                  subst (AreKept rs) same (caught_up-AreKept tried1 rs bare1)
            ]
      ]

-- The row's episode is in somebody's queue, or somebody has starred it.
abbrev pub is_kept : List QueueItem → List EpisodeState → Row → Bool
is_kept queue states r =
    any (λ q. q.episode_id == r.episode.id) queue
    || any (λ s. s.starred && s.episode_id == r.episode.id) states

any-append-queue :
    (x : ℕ) (queue : List QueueItem) (ys : List ℕ)
    → contains x (map (λ q. q.episode_id) queue ++ ys)
      ≡ (any (λ q. q.episode_id == x) queue || contains x ys)
any-append-queue x [] ys = refl
any-append-queue x (q ∷ queue) ys =
    ground (arith, any-append-queue x queue ys, ==_iff x q.episode_id, ==_iff q.episode_id x)

contains-starred :
    (x : ℕ) (states : List EpisodeState)
    → contains x (map (λ s. s.episode_id) (filter (λ s. s.starred) states))
      ≡ any (λ s. s.starred && s.episode_id == x) states
contains-starred x [] = refl
contains-starred x (s ∷ states) =
    ground (arith, contains-starred x states, ==_iff x s.episode_id, ==_iff s.episode_id x)

is_protected-is_kept :
    (queue : List QueueItem) (states : List EpisodeState) (r : Row)
    → is_protected (protected_episode_ids queue states) r ≡ is_kept queue states r
unfolding protected_episode_ids
is_protected-is_kept queue states r =
    any-append-queue r.episode.id queue _
    ∙ ap (λ b. any (λ q. q.episode_id == r.episode.id) queue || b)
        (contains-starred r.episode.id states)

-- Row by row, those of episodes that are queued or starred come out as they were.
abbrev pub AreUntouched : List QueueItem → List EpisodeState → List Row → List Row → Type 0
AreUntouched queue states [] [] = Unit
AreUntouched queue states [] (r' ∷ rs') = ⊥
AreUntouched queue states (r ∷ rs) [] = ⊥
AreUntouched queue states (r ∷ rs) (r' ∷ rs') =
    (if is_kept queue states r then r' ≡ r else Unit) × AreUntouched queue states rs rs'

AreKept-AreUntouched :
    (queue : List QueueItem) (states : List EpisodeState) (rs rs' : List Row)
    → AreKept (protected_episode_ids queue states) rs rs'
    → AreUntouched queue states rs rs'
AreKept-AreUntouched queue states [] [] h = tt
AreKept-AreUntouched queue states [] (r' ∷ rs') h = absurd h
AreKept-AreUntouched queue states (r ∷ rs) [] h = absurd h
AreKept-AreUntouched queue states (r ∷ rs) (r' ∷ rs') (one, rest) = (
  subst (λ b. if b then r' ≡ r else Unit) (is_protected-is_kept queue states r) one,
  AreKept-AreUntouched queue states rs rs' rest,
)

-- In a sweep that ends without an error, every row of an episode that is in somebody's queue or that
-- somebody has starred comes out in its place as it was.
pub sweep-AreUntouched :
    (queue : List QueueItem) (states : List EpisodeState) (settings : AppSettings) (now : Stamp)
    (d : Disk) (rs : List Row) {d' : Disk} {rs' : List Row} {n : ℕ}
    → sweep queue states settings now d rs ≡ some (d', rs', n)
    → AreUntouched queue states rs rs'
unfolding sweep
sweep-AreUntouched queue states settings now d rs {d'} {rs'} {n} h =
    AreKept-AreUntouched queue states rs rs'
      (sweep_rows-AreKept (protected_episode_ids queue states) settings now d rs h)
