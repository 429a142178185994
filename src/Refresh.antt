-- ===== src/Refresh.antt =====
-- What a refresh stores: `_apply_parsed_episode`, `_note_replaced_audio` and the part of
-- `_apply_result` that stores a parsed feed, of src/podarium/jobs/refresh.py. The rows are those of
-- one feed, in the order of insertion; metrics and logging are left out.
pub mod Apply
pub mod Merge
pub mod Again
pub mod Keep
mod Tests
use podarium.Prelude.{
  ℕ, zero, suc, ◌+◌, ◌-◌, ◌*◌, String, Bool, true, false, ◌&&◌, ◌||◌, not, Option, none, some, List,
  [], ◌∷◌, ◌++◌, ltb, leb, ◌==◌, if◌then◌else◌, is_some, find, any, sort_by, str_eq, or_else,
}
use podarium.Model.Enums.{Stamp}
use podarium.Model.Episode.{Episode}
use podarium.Model.Feed.{Feed}

pub record ParsedEpisode : Type 0 where
  pub guid : String
  pub title : Option String
  pub description_html : Option String
  pub image_url : Option String
  pub episode_number : Option ℕ
  pub season : Option ℕ
  pub explicit : Bool
  pub published_at : Option Stamp
  pub duration_seconds : Option ℕ
  pub enclosure_url : Option String
  pub enclosure_type : Option String
  pub enclosure_bytes : Option ℕ
  pub chapters_url : Option String
  pub transcript_url : Option String
  pub transcript_type : Option String

pub record ParsedFeed : Type 0 where
  pub title : Option String
  pub author : Option String
  pub description : Option String
  pub link : Option String
  pub language : Option String
  pub image_url : Option String
  pub explicit : Bool
  pub episodes : List ParsedEpisode

-- `==` on truth values.
abbrev pub bool_eq : Bool → Bool → Bool
bool_eq true b = b
bool_eq false b = not b

-- One round of the loop over the attributes: whether the value is there and another one, and what
-- the attribute is afterwards.
module _ {A : Type 0} (same : A → A → Bool) where
  unfoldable pub changes : Option A → Option A → Bool
  changes none cur = false
  changes (some v) none = true
  changes (some v) (some w) = not (same w v)

  unfoldable pub set_attr : Option A → Option A → Option A
  unfolding changes
  set_attr v cur = if changes v cur then v else cur

unfoldable pub any_changes : Episode → ParsedEpisode → Bool
unfolding changes
any_changes e p =
    changes str_eq p.title e.title
    || changes str_eq p.description_html e.description_html
    || changes str_eq p.image_url e.image_url
    || changes ◌==◌ p.episode_number e.episode_number
    || changes ◌==◌ p.season e.season
    || not (bool_eq e.explicit p.explicit)
    || changes ◌==◌ p.published_at e.published_at
    || changes ◌==◌ p.duration_seconds e.duration_seconds
    || changes str_eq p.enclosure_url e.enclosure_url
    || changes str_eq p.enclosure_type e.enclosure_type
    || changes ◌==◌ p.enclosure_bytes e.enclosure_bytes
    || changes str_eq p.chapters_url e.chapters_url
    || changes str_eq p.transcript_url e.transcript_url
    || changes str_eq p.transcript_type e.transcript_type

-- The row afterwards, and whether anything changed. What was fetched from an address that changes
-- is forgotten.
unfoldable pub apply_parsed_episode : Episode → ParsedEpisode → Episode × Bool
unfolding any_changes set_attr changes
apply_parsed_episode e p =
    let chapters = changes str_eq p.chapters_url e.chapters_url in
    let transcript = changes str_eq p.transcript_url e.transcript_url in
    (
      record e {
        title = set_attr str_eq p.title e.title;
        description_html = set_attr str_eq p.description_html e.description_html;
        image_url = set_attr str_eq p.image_url e.image_url;
        episode_number = set_attr ◌==◌ p.episode_number e.episode_number;
        season = set_attr ◌==◌ p.season e.season;
        explicit = p.explicit;
        published_at = set_attr ◌==◌ p.published_at e.published_at;
        duration_seconds = set_attr ◌==◌ p.duration_seconds e.duration_seconds;
        enclosure_url = set_attr str_eq p.enclosure_url e.enclosure_url;
        enclosure_type = set_attr str_eq p.enclosure_type e.enclosure_type;
        enclosure_bytes = set_attr ◌==◌ p.enclosure_bytes e.enclosure_bytes;
        chapters_url = set_attr str_eq p.chapters_url e.chapters_url;
        chapters_json = if chapters then none else e.chapters_json;
        chapters_fetched_at = if chapters then none else e.chapters_fetched_at;
        transcript_url = set_attr str_eq p.transcript_url e.transcript_url;
        transcript_type = set_attr str_eq p.transcript_type e.transcript_type;
        transcript_text = if transcript then none else e.transcript_text;
        transcript_fetched_at = if transcript then none else e.transcript_fetched_at;
      },
      any_changes e p,
    )

-- `abs(declared - held) / held > 0.10`
unfoldable pub has_drifted : ℕ → ℕ → Bool
has_drifted declared held = ltb held (10 * ((declared - held) + (held - declared)))

-- By the bytes on disk and those that the feed declares; `none` is the error of a division by 0.
unfoldable pub note_sizes : Stamp → Option ℕ → Option ℕ → Episode → Option Episode
unfolding has_drifted
note_sizes now none declared e = some e
note_sizes now (some held) none e = some e
note_sizes now (some held) (some zero) e = some e
note_sizes now (some zero) (some (suc n)) e = if is_some e.replaced_at then some e else none
note_sizes now (some (suc h)) (some (suc n)) e =
    if not (is_some e.replaced_at) && has_drifted (suc n) (suc h)
    then some (record e { replaced_at = some now })
    else some e

unfoldable pub note_replaced_audio : Stamp → Episode → ParsedEpisode → Option Episode
unfolding note_sizes
note_replaced_audio now e p = note_sizes now e.local_bytes p.enclosure_bytes e

-- A row that the pass writes is stamped.
unfoldable pub stamped : Stamp → Episode → Episode → Bool → Episode
stamped now e e' changed = record e' {
  updated_at =
      if changed || is_some e'.replaced_at && not (is_some e.replaced_at)
      then now
      else e'.updated_at;
}

-- A render of an episode that has a row: the row afterwards and whether its fields changed.
unfoldable pub refresh_noted :
    Stamp → Episode → ParsedEpisode → Option Episode → Option (Episode × Bool)
unfolding apply_parsed_episode stamped
refresh_noted now e p none = none
refresh_noted now e p (some e1) =
    let r = apply_parsed_episode e1 p in some (stamped now e r.0 r.1, r.1)

unfoldable pub refresh_row : Stamp → Episode → ParsedEpisode → Option (Episode × Bool)
unfolding note_replaced_audio refresh_noted
refresh_row now e p =
    refresh_noted now e p (if is_some e.local_path then note_replaced_audio now e p else some e)

-- The defaults of a new row.
unfoldable pub new_episode : ℕ → ℕ → String → Stamp → Episode
new_episode id feed_id guid now = record {
  id = id;
  feed_id = feed_id;
  guid = guid;
  title = none;
  description_html = none;
  image_url = none;
  episode_number = none;
  season = none;
  explicit = false;
  published_at = none;
  first_seen_at = now;
  duration_seconds = none;
  enclosure_url = none;
  enclosure_type = none;
  enclosure_bytes = none;
  chapters_url = none;
  chapters_json = none;
  chapters_fetched_at = none;
  transcript_url = none;
  transcript_type = none;
  transcript_text = none;
  transcript_fetched_at = none;
  processed_path = none;
  processed_bytes = none;
  processed_recipe = none;
  trim_map_json = none;
  source_duration_seconds = none;
  processed_duration_seconds = none;
  processed_at = none;
  audio_sha256 = none;
  replaced_at = none;
  local_path = none;
  local_bytes = none;
  downloaded_at = none;
  purged_at = none;
  updated_at = now;
}

-- `existing.get(guid)`
unfoldable pub find_guid : String → List Episode → Option Episode
find_guid g = find (λ e. str_eq e.guid g)

-- The row of a guid is written.
unfoldable pub write_guid : String → Episode → List Episode → List Episode
write_guid g e [] = []
write_guid g e (r ∷ rs) = if str_eq r.guid g then e ∷ rs else r ∷ write_guid g e rs

-- The pass so far: the rows, the id of the next one, the guids that have been seen and the counts.
pub record Pass : Type 0 where
  pub rows : List Episode
  pub next_id : ℕ
  pub seen : List String
  pub new_episodes : ℕ
  pub updated_episodes : ℕ

-- `published_at or datetime.min`
abbrev pub publication_key : ParsedEpisode → ℕ
publication_key p = elim p.published_at [ none ↦ 0 | some t ↦ suc t ]

abbrev pub published_before : ParsedEpisode → ParsedEpisode → Bool
published_before p q = leb (publication_key p) (publication_key q)

module _ (feed_id : ℕ) (now : Stamp) where
  -- What becomes of a render that is the first of its guid, by the row of the guid.
  unfoldable pub merge_found : ParsedEpisode → Pass → Option Episode → Option Pass
  unfolding apply_parsed_episode new_episode refresh_row write_guid
  merge_found p m none = some (record m {
    rows = m.rows ++ (apply_parsed_episode (new_episode m.next_id feed_id p.guid now) p).0 ∷ [];
    next_id = m.next_id + 1;
    seen = p.guid ∷ m.seen;
    new_episodes = m.new_episodes + 1;
  })
  merge_found p m (some e) = elim (refresh_row now e p) [
    | none ↦ none
    | some (e', changed) ↦ some (record m {
      rows = write_guid p.guid e' m.rows;
      seen = p.guid ∷ m.seen;
      updated_episodes = if changed then m.updated_episodes + 1 else m.updated_episodes;
    })
  ]

  unfoldable pub merge_episode : ParsedEpisode → Pass → Option Pass
  unfolding merge_found find_guid
  merge_episode p m =
      if any (str_eq p.guid) m.seen then some m else merge_found p m (find_guid p.guid m.rows)

  -- The loop over the renders.
  unfoldable pub merge_episodes : List ParsedEpisode → Pass → Option Pass
  unfolding merge_episode
  merge_episodes [] m = some m
  merge_episodes (p ∷ ps) m = elim (merge_episode p m) [
    | none ↦ none
    | some m' ↦ merge_episodes ps m'
  ]

  unfoldable pub store_episodes : List ParsedEpisode → ℕ → List Episode → Option Pass
  unfolding merge_episodes
  store_episodes ps next_id rows =
      merge_episodes (sort_by published_before ps) (record {
        rows = rows;
        next_id = next_id;
        seen = [];
        new_episodes = 0;
        updated_episodes = 0;
      })
