-- ===== src/Retention.antt =====
-- The retention sweeper: src/podarium/jobs/retention.py. The sweep works on the rows of its query, one
-- for each state of a downloaded episode; the rows of one episode share it. Metrics and logging are
-- left out.
pub mod Expiry
pub mod Protect
mod Tests
use podarium.Prelude.{
  ℕ, zero, suc, ◌+◌, ◌-◌, ◌*◌, Bool, true, false, ◌&&◌, ◌||◌, not, Option, none, some, List, [],
  ◌∷◌, ◌++◌, map, ltb, leb, ◌==◌, if◌then◌else◌, or_else, contains, filter, sort_by, sum_by, find,
}
use podarium.Model.Enums.{Stamp, seconds, RetentionMode, after_played, after_download, never}
use podarium.Model.Episode.{Episode, EpisodeState, QueueItem}
use podarium.Model.Feed.{Feed, AppSettings}
use podarium.Settings.{effective_retention}
use podarium.Disk.{Disk, purge_episode}

unfoldable pub protected_episode_ids : List QueueItem → List EpisodeState → List ℕ
protected_episode_ids queue states =
    map (λ q. q.episode_id) queue ++ map (λ s. s.episode_id) (filter (λ s. s.starred) states)

-- `marker is not None and marker < now - timedelta(days=days)`
unfoldable pub is_before_cutoff : Option Stamp → ℕ → Stamp → Bool
is_before_cutoff none days now = false
is_before_cutoff (some t) days now = ltb (t + seconds (days * 86400)) now

-- `a or b` on moments.
abbrev pub first_of_two : Option Stamp → Option Stamp → Option Stamp
first_of_two none b = b
first_of_two (some a) b = some a

unfoldable pub is_expired : Episode → Option EpisodeState → RetentionMode → ℕ → Stamp → Bool
unfolding is_before_cutoff
is_expired e state never days now = false
is_expired e none after_played days now = false
is_expired e (some s) after_played days now =
    s.played && is_before_cutoff (first_of_two s.completed_at e.downloaded_at) days now
is_expired e state after_download days now = is_before_cutoff e.downloaded_at days now

pub record Row : Type 0 where
  pub episode : Episode
  pub state : Option EpisodeState
  pub feed : Feed

-- A pass so far: the disk, the rows that a purge was tried on with what it left of the episode, the
-- last one first, the survivors and the count.
pub record Pass : Type 0 where
  pub disk : Disk
  pub tried : List Row
  pub survivors : List Row
  pub purged : ℕ

-- A row with its episode as it is after these: the rows of an episode share the object.
unfoldable pub caught_up : List Row → Row → Row
caught_up tried r = elim (find (λ x. x.episode.id == r.episode.id) tried) [
  | none ↦ r
  | some x ↦ record r { episode = x.episode }
]

abbrev pub is_protected : List ℕ → Row → Bool
is_protected ids r = contains r.episode.id ids

unfoldable pub expires : AppSettings → Stamp → Row → Bool
unfolding effective_retention is_expired
expires settings now r =
    let (mode, days) = effective_retention r.feed settings in
    is_expired r.episode r.state mode days now

abbrev pub count_if : Bool → ℕ → ℕ
count_if true n = suc n
count_if false n = n

-- The first row of the loop is done before the rest, on whose disk the rest goes on.
unfoldable pub sweep_policy :
    List ℕ → AppSettings → Stamp → Disk → List Row → List Row → Option Pass
unfolding caught_up
sweep_policy ids settings now d tried [] =
    some (record { disk = d; tried = tried; survivors = []; purged = 0 })
sweep_policy ids settings now d tried (r ∷ rs) =
    let rest = λ (d' : Disk) (tried' : List Row). sweep_policy ids settings now d' tried' rs in
    let row = caught_up tried r in
    if is_protected ids r || not (expires settings now row)
    then elim (rest d tried) [
      | none ↦ none
      | some p ↦ some (record p { survivors = r ∷ p.survivors })
    ]
    else elim (purge_episode now d row.episode) [
      | none ↦ none
      | some (went, d', e') ↦ elim (rest d' (record r { episode = e' } ∷ tried)) [
        | none ↦ none
        | some p ↦ some (record p { purged = count_if went p.purged })
      ]
    ]

-- The bytes of both copies.
abbrev pub size : Row → ℕ
size r = or_else r.episode.local_bytes 0 + or_else r.episode.processed_bytes 0

abbrev pub has_played : Row → Bool
has_played r = elim r.state [ none ↦ false | some s ↦ s.played ]

-- `_aware(downloaded_at) or datetime.min`
abbrev pub downloaded_key : Row → ℕ
downloaded_key r = elim r.episode.downloaded_at [ none ↦ 0 | some t ↦ suc t ]

-- Played episodes go first, then the oldest downloads.
unfoldable pub goes_before : Row → Row → Bool
goes_before a b =
    if has_played a
    then not (has_played b) || leb (downloaded_key a) (downloaded_key b)
    else not (has_played b) && leb (downloaded_key a) (downloaded_key b)

-- The loop over the survivors: the disk, the rows that a purge was tried on and how many files went.
unfoldable pub sweep_ceiling :
    List ℕ → Stamp → ℕ → ℕ → Disk → List Row → List Row → Option (Disk × List Row × ℕ)
unfolding caught_up
sweep_ceiling ids now ceiling total d tried [] = some (d, tried, 0)
sweep_ceiling ids now ceiling total d tried (r ∷ rs) =
    let rest =
      λ (t : ℕ) (d' : Disk) (tried' : List Row). sweep_ceiling ids now ceiling t d' tried' rs in
    let row = caught_up tried r in
    if leb total ceiling
    then some (d, tried, 0)
    else if is_protected ids r
    then rest total d tried
    else elim (purge_episode now d row.episode) [
      | none ↦ none
      | some (went, d', e') ↦
          elim (rest (if went then total - size row else total) d'
            (record r { episode = e' } ∷ tried)) [
              | none ↦ none
              | some (d'', tried', n) ↦ some (d'', tried', count_if went n)
            ]
    ]

-- What the ceiling does to the survivors; no ceiling, or one of 0, is none.
unfoldable pub sweep_survivors :
    List ℕ → Stamp → Option ℕ → Disk → List Row → List Row → Option (Disk × List Row × ℕ)
unfolding sweep_ceiling
sweep_survivors ids now none d tried rs = some (d, tried, 0)
sweep_survivors ids now (some ceiling) d tried rs =
    let total = sum_by size rs in
    if ceiling == 0 || leb total ceiling
    then some (d, tried, 0)
    else sweep_ceiling ids now ceiling total d tried (sort_by goes_before rs)

-- What the survivors are when the policy is through.
abbrev pub left_over : Pass → List Row
left_over p = map (caught_up p.tried) p.survivors

-- The two loops, with the ids that are protected: every row afterwards, and how many files went.
unfoldable pub sweep_rows :
    List ℕ → AppSettings → Stamp → Disk → List Row → Option (Disk × List Row × ℕ)
unfolding sweep_policy sweep_survivors caught_up
sweep_rows ids settings now d rows = elim (sweep_policy ids settings now d [] rows) [
  | none ↦ none
  | some p ↦
      elim (sweep_survivors ids now settings.download_dir_max_bytes p.disk p.tried (left_over p)) [
        | none ↦ none
        | some (d', tried, n) ↦ some (d', map (caught_up tried) rows, p.purged + n)
      ]
]

-- One pass over everybody's queue and states: every row afterwards, and how many files went.
unfoldable pub sweep :
    List QueueItem
    → List EpisodeState
    → AppSettings
    → Stamp
    → Disk
    → List Row
    → Option (Disk × List Row × ℕ)
unfolding protected_episode_ids sweep_rows
sweep queue states settings now d rows =
    sweep_rows (protected_episode_ids queue states) settings now d rows
