-- ===== src/Fetch.antt =====
-- Fetching a feed: `fetch_feed`, `_fetch_once`, `_bounded`, `parse_duration`,
-- `_chapters_url` and `_transcript_link` of src/podarium/clients/feedfetch.py. The network and the
-- feedparser library are parameters; logging and the pause before a retry are left out.
pub mod Retry
mod Tests
use podarium.Prelude.{
  ℕ, suc, ◌+◌, ◌-◌, ◌*◌, ◌^◌, String, Bool, true, false, ◌&&◌, ◌||◌, not, Option, none, some, List,
  [], ◌∷◌, ltb, leb, ◌==◌, if◌then◌else◌, or_else, is_some, is_none, length, str_eq,
}
use podarium.Timeline.{is_set}
use podarium.Refresh.{ParsedFeed}
use podarium.Schedule.{FetchResult}

abbrev pub int32_max : ℕ
int32_max = 2147483647

-- On numbers that are not negative.
unfoldable pub bounded : Option ℕ → ℕ → Option ℕ
bounded none maximum = none
bounded (some value) maximum = if ltb maximum value then none else some value

-- The hours, minutes and seconds that the pattern of a duration finds.
unfoldable pub duration_of : Option ℕ → ℕ → ℕ → Option ℕ
unfolding bounded
duration_of hours minutes secs =
    bounded (some (or_else hours 0 * 3600 + minutes * 60 + secs)) int32_max

-- An address or nothing, as `a or b` has it.
abbrev pub first_set : Option String → Option String → Option String
first_set a b = if is_set a then a else b

-- A link of an entry: its address and its type.
pub record Link : Type 0 where
  pub url : Option String
  pub href : Option String
  pub mime : Option String

abbrev pub address : Link → Option String
address l = first_set l.url l.href

-- `mime` is the type in lower case, or empty; `contains_text` is `in` on texts.
module _ (lower : String → String) (contains_text : String → String → Bool) where
  abbrev pub mime_of : Link → String
  mime_of l = elim l.mime [ none ↦ lower "" | some m ↦ lower m ]

  unfoldable pub chapters_url : List Link → Option String
  chapters_url [] = none
  chapters_url (l ∷ ls) =
      let rest = chapters_url ls in
      if is_set (address l) && (contains_text "json" (mime_of l) || str_eq (mime_of l) "")
      then address l
      else rest

  unfoldable pub rank_from : ℕ → List String → String → ℕ
  rank_from i [] mime = i
  rank_from i (known ∷ more) mime =
      let rest = rank_from (suc i) more mime in if contains_text known mime then i else rest

  unfoldable pub rank : Link → ℕ
  unfolding rank_from
  rank l =
      rank_from 0
        ("text/plain" ∷ "application/srt" ∷ "text/srt" ∷ "text/vtt" ∷ "application/x-subrip" ∷ [])
        (mime_of l)

  -- `min(usable, key=rank)`, the first of the least ones.
  unfoldable pub best_link : List Link → Option Link
  unfolding rank
  best_link [] = none
  best_link (l ∷ ls) =
      let rest = best_link ls in
      if is_set (address l)
      then elim rest [ none ↦ some l | some m ↦ if leb (rank l) (rank m) then some l else some m ]
      else rest

  unfoldable pub transcript_link : List Link → Option String × Option String
  unfolding best_link
  transcript_link ls = elim (best_link ls) [
    | none ↦ (none, none)
    | some l ↦ (address l, if is_set l.mime then l.mime else none)
  ]

abbrev pub max_feed_bytes : ℕ
max_feed_bytes = 31457280

-- The errors of an attempt: a body that does not decode, one that is cut short, and all others.
pub data FetchError : Type 0 where
  decoding truncation other : FetchError

pub data Fetched : Type 0 where
  fetched : FetchResult → Fetched
  broken : FetchError → Fetched

-- What a response brings, once its body has been read.
pub record Response : Type 0 where
  pub status_code : ℕ
  pub is_encoded : Bool
  -- The length that is declared, if it is a number.
  pub declared : Option ℕ
  pub chunks : List ℕ
  -- An error of reading, behind the chunks.
  pub reading : Option FetchError
  pub etag : Option String
  pub last_modified : Option String
  pub final_url : String

-- The lengths of the chunks up to the ceiling, and the sum; `none` is the refusal.
unfoldable pub read_body : ℕ → ℕ → List ℕ → Option ℕ
read_body ceiling size [] = some size
read_body ceiling size (c ∷ cs) =
    let rest = read_body ceiling (size + c) cs in if ltb ceiling (size + c) then none else rest

-- What is asked of the network gives a response, or an error before there is one.
pub data Asked : Type 0 where
  unanswered : FetchError → Asked
  replied : Response → Asked

abbrev pub is_success : ℕ → Bool
is_success status = leb 200 status && ltb status 300

-- `parse` is the parser, which may fail.
module _ (parse : Response → Option ParsedFeed) (etag last_modified : Option String) where
  -- By the error that ended the reading, if one did.
  unfoldable pub accept_read : Response → ℕ → Option FetchError → Fetched
  accept_read r size (some e) = broken e
  accept_read r size none =
      if not r.is_encoded && elim r.declared [ none ↦ false | some n ↦ not (n == size) ]
      then broken truncation
      else elim (parse r) [
        | none ↦ broken other
        | some p ↦ fetched (record {
          not_modified = false;
          etag = r.etag;
          last_modified = r.last_modified;
          parsed = some p;
          final_url = some r.final_url;
        })
      ]

  -- With the size of the body, or `none` if it is over the ceiling.
  unfoldable pub accept_body : Response → Option ℕ → Fetched
  unfolding accept_read
  accept_body r none = broken other
  accept_body r (some size) = accept_read r size r.reading

  unfoldable pub fetch_once : Asked → Fetched
  unfolding accept_body read_body
  fetch_once (unanswered e) = broken e
  fetch_once (replied r) =
      if r.status_code == 304
      then fetched (record {
        not_modified = true;
        etag = etag;
        last_modified = last_modified;
        parsed = none;
        final_url = some r.final_url;
      })
      else if is_success r.status_code
      then accept_body r (read_body max_feed_bytes 0 r.chunks)
      else broken other

  -- `again` asks a second time, uncompressed or as before.
  unfoldable pub retried : (Bool → Asked) → Fetched → Fetched
  unfolding fetch_once
  retried again (fetched r) = fetched r
  retried again (broken decoding) = fetch_once (again true)
  retried again (broken truncation) = fetch_once (again false)
  retried again (broken other) = broken other

  unfoldable pub fetch_feed : Asked → (Bool → Asked) → Fetched
  unfolding fetch_once retried
  fetch_feed first again = retried again (fetch_once first)
