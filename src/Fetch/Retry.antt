-- ===== src/Fetch/Retry.antt =====
-- Only a whole document is parsed.
use podarium.Prelude.{
  ◌≤◌, ◌≡◌, ◌⊎◌, String, true, false, ◌&&◌, not, Option, none, some, ◌==◌, sum_by,
}
use podarium.Refresh.{ParsedFeed}
use podarium.Fetch.{
  Fetched, fetched, broken, Response, max_feed_bytes, Asked, unanswered, replied, is_success,
}

-- All the chunks were read, they are within the ceiling, and as long as an unencoded body declares.
pub record IsWhole (r : Response) : Type 0 where
  pub success : is_success r.status_code ≡ true
  pub read : r.reading ≡ none
  pub within : sum_by (λ c. c) r.chunks ≤ max_feed_bytes
  pub as_declared :
      (not r.is_encoded
        && elim r.declared [ none ↦ false | some n ↦ not (n == sum_by (λ c. c) r.chunks) ])
      ≡ false

module _ (parse : Response → Option ParsedFeed) (etag last_modified : Option String) where
  -- Where a result may come from: an answer that nothing has changed, or a whole document.
  abbrev pub IsFrom : Asked → Fetched → Type 0
  IsFrom a (broken e) = Unit
  IsFrom (unanswered e) (fetched f) = ⊥
  IsFrom (replied r) (fetched f) =
      ((r.status_code ≡ 304) × (f.parsed ≡ none)) ⊎ ((parse r ≡ f.parsed) × IsWhole r)
