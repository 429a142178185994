-- ===== src/Schedule/Due.antt =====
-- When a feed is tried again.
use podarium.Prelude.{
  ℕ, suc, zero, ◌+◌, ◌-◌, ◌*◌, ◌%◌, ◌^◌, ◌≤◌, ◌<◌, ◌≡◌, refl, arith, min, max, String, Bool, true,
  false, Option, none, some, List, ◌∙◌, subst, if◌then◌else◌, Option-cases, inl, inr,
}
use podarium.Model.Enums.{Stamp, seconds}
use podarium.Model.Episode.{EpisodeState, QueueItem}
use podarium.Model.Feed.{Feed, AppSettings}
use podarium.Model.Job.{DownloadJob}
use podarium.Refresh.{ParsedFeed, store_episodes}
use podarium.AutoDownload.{apply_auto_download_window}
use podarium.Schedule.{
  feed_jitter_seconds, due_after, is_due_since, is_due, max_backoff_doublings, FetchResult, Store,
  Refreshed, Left, fetched_feed, described_feed, failed_feed, apply_window, apply_parsed,
  apply_result, refresh_failed, refresh_feed,
}

pow_bounds : (k : ℕ) → k ≤ 6 → (1 ≤ 2 ^ k) × (2 ^ k ≤ 64)
pow_bounds zero h = omega arith
pow_bounds (suc zero) h = omega arith
pow_bounds (suc (suc zero)) h = omega arith
pow_bounds (suc (suc (suc zero))) h = omega arith
pow_bounds (suc (suc (suc (suc zero)))) h = omega arith
pow_bounds (suc (suc (suc (suc (suc zero))))) h = omega arith
pow_bounds (suc (suc (suc (suc (suc (suc zero)))))) h = omega arith
pow_bounds (suc (suc (suc (suc (suc (suc (suc k))))))) h = absurd (omega arith)

times_mono : (n a b : ℕ) → a ≤ b → n * a ≤ n * b
times_mono n a b h = grind arith

mod_below : (a b : ℕ) → 0 < b → a % b < b
mod_below a b h = grind arith

jitter-lt : (id interval : ℕ) → feed_jitter_seconds id interval < max interval 1
unfolding feed_jitter_seconds
jitter-lt id interval = mod_below (id * 2654435761) (max interval 1) (omega arith)

-- An interval at least, and less than 65 of them.
due_after_bounds :
    (f : Feed) (interval : ℕ)
    → (interval ≤ due_after f interval) × (due_after f interval < 64 * interval + max interval 1)
unfolding due_after
due_after_bounds f interval =
    let k = min (f.fetch_error_count - 1) max_backoff_doublings in
    let b = pow_bounds k (omega arith) in
    let low : interval * 1 ≤ interval * 2 ^ k = times_mono interval _ _ b.0 in
    let high : interval * 2 ^ k ≤ interval * 64 = times_mono interval _ _ b.1 in
    let jitter = jitter-lt f.id interval in (omega arith, omega arith)

described_feed-attempt :
    (p : ParsedFeed) (f : Feed) → (described_feed p f).last_fetched_at ≡ f.last_fetched_at
unfolding described_feed
described_feed-attempt p f = refl

-- A feed that has been tried is not due again before the interval is over.
pub is_due_early :
    (f : Feed) (interval : ℕ) {last : Stamp} (now : Stamp)
    → f.last_fetched_at ≡ some last
    → now < last + seconds interval
    → is_due f interval now ≡ false
unfolding is_due is_due_since
is_due_early f interval now h early =
    let (low, high) = due_after_bounds f interval in rw h (ground arith)

-- However often a feed has failed, it is due when 65 intervals have passed.
pub is_due_late :
    (f : Feed) (interval : ℕ) {last : Stamp} (now : Stamp)
    → f.last_fetched_at ≡ some last
    → 0 < interval
    → last + seconds (65 * interval) ≤ now
    → is_due f interval now ≡ true
unfolding is_due is_due_since
is_due_late f interval now h pos late =
    let (low, high) = due_after_bounds f interval in rw h (ground arith)

-- The first failure costs nothing: the feed is due as one that has not failed.
pub is_due_first_failure :
    (f : Feed) (interval : ℕ) (now : Stamp)
    → is_due (record f { fetch_error_count = 1 }) interval now
      ≡ is_due (record f { fetch_error_count = 0 }) interval now
unfolding is_due due_after
is_due_first_failure f interval now = refl

module _ (raced later : List DownloadJob → List DownloadJob) (settings : AppSettings)
    (queue : List QueueItem) (states : List EpisodeState) (first_id fresh : ℕ) (now : Stamp) where
  -- An attempt at this moment.
  abbrev Attempted : Option Refreshed → Type 0
  Attempted none = Unit
  Attempted (some r) = r.store.feed.last_fetched_at ≡ some now

  apply_window-Attempted :
      (st : Store) (new updated : ℕ) (unchanged : Bool)
      → st.feed.last_fetched_at ≡ some now
      → Attempted (
          apply_window raced later settings queue states first_id fresh now st new updated
            unchanged)
  unfolding apply_window
  apply_window-Attempted st new updated unchanged h =
      elim (Option-cases (
        apply_auto_download_window raced later now st.feed settings queue states fresh st.disk
          st.rows st.jobs)) [
            | inl k ↦ rw (k, apply_window) tt
            | inr (w, k) ↦ rw (k, apply_window) h
          ]

  apply_parsed-Attempted :
      (st : Store) (o : Option ParsedFeed)
      → st.feed.last_fetched_at ≡ some now
      → Attempted (apply_parsed raced later settings queue states first_id fresh now st o)
  unfolding apply_parsed
  apply_parsed-Attempted st none h = h
  apply_parsed-Attempted st (some p) h =
      elim (Option-cases (store_episodes st.feed.id now p.episodes first_id st.rows)) [
        | inl k ↦ rw (k, apply_parsed) tt
        | inr (m, k) ↦
            rw (k, apply_parsed)
              (apply_window-Attempted (record st { feed = described_feed p st.feed; rows = m.rows })
                m.new_episodes m.updated_episodes false (described_feed-attempt p st.feed ∙ h))
      ]

  if-Attempted :
      (b : Bool) (x y : Option Refreshed)
      → Attempted x
      → Attempted y
      → Attempted (if b then x else y)
  if-Attempted true x y h k = h
  if-Attempted false x y h k = k

  apply_result-Attempted :
      (st : Store) (r : FetchResult)
      → Attempted (apply_result raced later settings queue states first_id fresh now st r)
  unfolding apply_result fetched_feed
  apply_result-Attempted st r =
      let st' = record st { feed = fetched_feed now r st.feed } in
      if-Attempted r.not_modified _ _ (apply_window-Attempted st' 0 0 true refl)
        (apply_parsed-Attempted st' r.parsed refl)

  refresh_feed-attempt :
      (st : Store) (fetched : Option FetchResult) (message : String) (left : Left)
      → (refresh_feed raced later settings queue states first_id fresh now st fetched message
          left).store.feed.last_fetched_at
        ≡ some now
  unfolding refresh_feed refresh_failed failed_feed
  refresh_feed-attempt st none message left = refl
  refresh_feed-attempt st (some r) message left =
      elim (Option-cases (apply_result raced later settings queue states first_id fresh now st r)) [
        | inl k ↦ rw (k, refresh_feed) refl
        | inr (out, k) ↦ rw (k, refresh_feed) (subst Attempted k (apply_result-Attempted st r))
      ]

  -- Whatever an attempt comes to, the feed is not tried again before the interval is over.
  pub refresh_feed-is_due :
      (st : Store) (fetched : Option FetchResult) (message : String) (left : Left) (interval : ℕ)
      (moment : Stamp)
      → moment < now + seconds interval
      → is_due
          (refresh_feed raced later settings queue states first_id fresh now st fetched message
            left).store.feed
          interval
          moment
        ≡ false
  refresh_feed-is_due st fetched message left interval moment early =
      is_due_early _ interval moment (refresh_feed-attempt st fetched message left) early
