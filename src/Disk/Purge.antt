-- ===== src/Disk/Purge.antt =====
-- What a purge leaves behind.
use podarium.Prelude.{
  String, Bool, false, Option, none, some, if◌then◌else◌, ◌≡◌, refl, Option-cases, inl, inr,
}
use podarium.Model.Enums.{Stamp}
use podarium.Model.Episode.{Episode}
use podarium.Disk.{
  Disk, unlink, unlink_set, forget_processed, drop_processed, mark_purged, finish_purge,
  purge_unlinked, purge_path, purge_episode,
}

-- What identifies an episode and dates its discovery, and where it can be fetched again.
pub record IsSameEpisode (e e' : Episode) : Type 0 where
  pub id : e'.id ≡ e.id
  pub feed : e'.feed_id ≡ e.feed_id
  pub guid : e'.guid ≡ e.guid
  pub first_seen : e'.first_seen_at ≡ e.first_seen_at
  pub published : e'.published_at ≡ e.published_at
  pub enclosure : e'.enclosure_url ≡ e.enclosure_url
  pub downloaded : e'.downloaded_at ≡ e.downloaded_at

-- The row no longer points to a file.
pub record IsPurged (now : Stamp) (e' : Episode) : Type 0 where
  pub path : e'.local_path ≡ none
  pub bytes : e'.local_bytes ≡ none
  pub copy : e'.processed_path ≡ none
  pub copy_bytes : e'.processed_bytes ≡ none
  pub stamp : e'.purged_at ≡ some now

-- By how a purge ended.
abbrev pub Purges : Stamp → Episode → Option (Bool × Disk × Episode) → Type 0
Purges now e none = Unit
Purges now e (some (gone, d', e')) = IsSameEpisode e e' × (if gone then IsPurged now e' else e' ≡ e)

mark_purged-forget :
    (now : Stamp) (e : Episode)
    → IsSameEpisode e (mark_purged now (forget_processed e))
      × IsPurged now (mark_purged now (forget_processed e))
unfolding mark_purged forget_processed
mark_purged-forget now e = (
  record {
    id = refl;
    feed = refl;
    guid = refl;
    first_seen = refl;
    published = refl;
    enclosure = refl;
    downloaded = refl;
  },
  record { path = refl; bytes = refl; copy = refl; copy_bytes = refl; stamp = refl },
)

unchanged : (now : Stamp) (d : Disk) (e : Episode) → Purges now e (some (false, d, e))
unchanged now d e = (
  record {
    id = refl;
    feed = refl;
    guid = refl;
    first_seen = refl;
    published = refl;
    enclosure = refl;
    downloaded = refl;
  },
  refl,
)

purge_unlinked-Purges :
    (now : Stamp) (d : Disk) (e : Episode) (o : Option Disk)
    → Purges now e (purge_unlinked now d e o)
unfolding purge_unlinked finish_purge drop_processed
purge_unlinked-Purges now d e none = unchanged now d e
purge_unlinked-Purges now d e (some d') = elim (Option-cases (unlink_set e.processed_path d')) [
  | inl h ↦ rw (h, drop_processed, finish_purge) tt
  | inr (d'', h) ↦ rw (h, drop_processed, finish_purge) (mark_purged-forget now e)
]

purge_path-Purges :
    (now : Stamp) (d : Disk) (e : Episode) (p : Option String) → Purges now e (purge_path now d e p)
unfolding purge_path
purge_path-Purges now d e none = unchanged now d e
purge_path-Purges now d e (some p) = purge_unlinked-Purges now d e (unlink p d)

-- A purge never loses the row: what it returns is the same episode, with the pointers to both files
-- gone if the file went, and otherwise unchanged.
pub purge_episode-Purges :
    (now : Stamp) (d : Disk) (e : Episode) → Purges now e (purge_episode now d e)
unfolding purge_episode
purge_episode-Purges now d e = purge_path-Purges now d e e.local_path
