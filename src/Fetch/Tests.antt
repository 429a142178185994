-- ===== src/Fetch/Tests.antt =====
-- A feed that is cut short at first.
use podarium.Prelude.{◌⊎◌, Bool, false, none, some, [], ◌∷◌}
use podarium.Refresh.{ParsedFeed}
use podarium.Schedule.{FetchResult}
use podarium.Fetch.{
  fetched, Response, read_body, replied, accept_read, accept_body, fetch_once, retried, fetch_feed,
}
use podarium.Fetch.Retry.{IsFrom}

program : Unit {0}
unfolding read_body accept_read accept_body fetch_once retried fetch_feed
program = tt

abbrev short : Response
short = record {
  status_code = 200;
  is_encoded = false;
  declared = some 30;
  chunks = 10 ∷ [];
  reading = none;
  etag = none;
  last_modified = none;
  final_url = "https://example.com/feed";
}

abbrev whole : Response
whole = record short { chunks = 10 ∷ 20 ∷ []; etag = some "v1" }

abbrev document : ParsedFeed
document = record {
  title = none;
  author = none;
  description = none;
  link = none;
  language = none;
  image_url = none;
  explicit = false;
  episodes = [];
}

abbrev result : FetchResult
result = record {
  not_modified = false;
  etag = some "v1";
  last_modified = none;
  parsed = some document;
  final_url = some "https://example.com/feed";
}

abbrev IsGiven : FetchResult → Type 0
IsGiven f =
    IsFrom (λ r. some document) none none (replied short) (fetched f)
    ⊎ ((i : Bool) × IsFrom (λ r. some document) none none (replied whole) (fetched f))
