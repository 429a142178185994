-- ===== src/Listing/Tests.antt =====
-- Pages of a listing of three episodes, two of them published at one moment.
use podarium.Prelude.{
  ℕ, ◌≡◌, refl, true, false, none, some, List, [], ◌∷◌, ◌++◌, sort_by, insert_sorted,
}
use podarium.Model.Enums.{Stamp}
use podarium.Samples.{episode, feed}
use podarium.Listing.{
  Listed, Query, resume_key, catalogue_key, sort_key, is_resumable, is_listed, listed_first,
  is_behind, listed_rows, next_listed, without_notes, list_episodes,
}
use podarium.Listing.Next.{list_episodes-append}

program : Unit {0}
unfolding resume_key catalogue_key sort_key is_resumable is_listed listed_first is_behind
    listed_rows next_listed without_notes list_episodes sort_by insert_sorted
program = tt

abbrev query : Query
query = record {
  feed_id = none;
  unplayed = some true;
  downloaded = none;
  starred = none;
  in_progress = none;
  matches = none;
  notes = false;
  since = none;
}

abbrev listed : ℕ → Stamp → Listed
listed id t = record {
  episode = record episode { id = id; published_at = some t; first_seen_at = 90 };
  feed = feed;
  state = none;
}

-- The third one claims to be published later than it was first seen.
abbrev rows : List Listed
rows = listed 1 50 ∷ listed 2 50 ∷ listed 3 99 ∷ []

seam : (list_episodes query none 2 rows).next_cursor ≡ some (50, 2)
unfolding program
seam = refl

list_episodes-append_example :
    (list_episodes query none 2 rows).items ++ (list_episodes query (some (50, 2)) 5 rows).items
    ≡ (list_episodes query none 7 rows).items
list_episodes-append_example =
    list_episodes-append query none 1 5 rows ((refl, (refl, tt)), ((refl, tt), (tt, tt))) seam
