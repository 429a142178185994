-- ===== src/Refresh/Apply.antt =====
-- What a render of an episode does to its row, once and twice.
use podarium.Prelude.{
  ℕ, ◌≡◌, refl, ◌∙◌, String, Bool, true, false, Option, none, some, str_eq, str_eq_refl, ◌==◌,
  ==_refl, Bool-cases, inl, inr,
}
use podarium.Model.Episode.{Episode}
use podarium.Refresh.{ParsedEpisode, bool_eq, changes, set_attr, any_changes, apply_parsed_episode}

module _ {A : Type 0} (same : A → A → Bool) (same_refl : (a : A) → same a a ≡ true) where
  changes-set_attr : (v cur : Option A) → changes same v (set_attr same v cur) ≡ false
  unfolding set_attr
  changes-set_attr none cur = refl
  changes-set_attr (some v) none = rw (same_refl v) refl
  changes-set_attr (some v) (some w) = elim (Bool-cases (same w v)) [
    | inl e ↦ rw (e) (rw e refl)
    | inr e ↦ rw (e) (rw (same_refl v) refl)
  ]

  set_attr_twice : (v cur : Option A) → set_attr same v (set_attr same v cur) ≡ set_attr same v cur
  unfolding set_attr
  set_attr_twice v cur = rw (changes-set_attr v cur) refl

bool_eq_refl : (b : Bool) → bool_eq b b ≡ true
bool_eq_refl true = refl
bool_eq_refl false = refl

text_changes : (v cur : Option String) → changes str_eq v (set_attr str_eq v cur) ≡ false
text_changes = changes-set_attr str_eq str_eq_refl

number_changes : (v cur : Option ℕ) → changes ◌==◌ v (set_attr ◌==◌ v cur) ≡ false
number_changes = changes-set_attr ◌==◌ ==_refl

text_twice :
    (v cur : Option String) → set_attr str_eq v (set_attr str_eq v cur) ≡ set_attr str_eq v cur
text_twice = set_attr_twice str_eq str_eq_refl

number_twice : (v cur : Option ℕ) → set_attr ◌==◌ v (set_attr ◌==◌ v cur) ≡ set_attr ◌==◌ v cur
number_twice = set_attr_twice ◌==◌ ==_refl

ruleset stored = (text_changes, number_changes, text_twice, number_twice, bool_eq_refl)

-- A render that is stored changes nothing when it is stored again.
pub apply_parsed_episode_twice :
    (e : Episode) (p : ParsedEpisode)
    → let e' = (apply_parsed_episode e p).0 in apply_parsed_episode e' p ≡ (e', false)
unfolding apply_parsed_episode any_changes
apply_parsed_episode_twice e p = simp stored

-- What the server knows about an episode is none of the feed's business: the row keeps its id, the
-- moment it was first seen, its files and what is known of them.
pub record IsKept (e e' : Episode) : Type 0 where
  pub id : e'.id ≡ e.id
  pub feed : e'.feed_id ≡ e.feed_id
  pub guid : e'.guid ≡ e.guid
  pub first_seen : e'.first_seen_at ≡ e.first_seen_at
  pub path : e'.local_path ≡ e.local_path
  pub bytes : e'.local_bytes ≡ e.local_bytes
  pub downloaded : e'.downloaded_at ≡ e.downloaded_at
  pub purged : e'.purged_at ≡ e.purged_at
  pub copy : e'.processed_path ≡ e.processed_path
  pub digest : e'.audio_sha256 ≡ e.audio_sha256

pub apply_parsed_episode-IsKept :
    (e : Episode) (p : ParsedEpisode) → IsKept e (apply_parsed_episode e p).0
unfolding apply_parsed_episode
apply_parsed_episode-IsKept e p = record {
  id = refl;
  feed = refl;
  guid = refl;
  first_seen = refl;
  path = refl;
  bytes = refl;
  downloaded = refl;
  purged = refl;
  copy = refl;
  digest = refl;
}

pub apply_parsed_episode-replaced :
    (e : Episode) (p : ParsedEpisode) → (apply_parsed_episode e p).0.replaced_at ≡ e.replaced_at
unfolding apply_parsed_episode
apply_parsed_episode-replaced e p = refl

pub IsKept-refl : (e : Episode) → IsKept e e
IsKept-refl e = record {
  id = refl;
  feed = refl;
  guid = refl;
  first_seen = refl;
  path = refl;
  bytes = refl;
  downloaded = refl;
  purged = refl;
  copy = refl;
  digest = refl;
}

pub IsKept-trans : (a b c : Episode) → IsKept a b → IsKept b c → IsKept a c
IsKept-trans a b c h k = record {
  id = k.id ∙ h.id;
  feed = k.feed ∙ h.feed;
  guid = k.guid ∙ h.guid;
  first_seen = k.first_seen ∙ h.first_seen;
  path = k.path ∙ h.path;
  bytes = k.bytes ∙ h.bytes;
  downloaded = k.downloaded ∙ h.downloaded;
  purged = k.purged ∙ h.purged;
  copy = k.copy ∙ h.copy;
  digest = k.digest ∙ h.digest;
}
