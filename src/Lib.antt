-- ===== src/Lib.antt =====
-- The server side of podarium, a self-hosted podcast server, in src/podarium. Users share feeds,
-- episodes and files, and each has a queue and a state for every episode. Workers download
-- episodes, process their audio and sweep files that have expired; the routes read and write the
-- same rows. The models are functions on the rows of the tables: a table is a list, a handler is
-- a function from the state it finds to the state it commits, and what other transactions commit
-- in between is an argument.
--
-- The parts, each with the code that it models:
--
-- - Model: the rows of models.py. A moment is a number of microseconds since the epoch, and a
--   time in an audio file a number of milliseconds.
-- - Queue: api/queue_routes.py, and compact_queue_positions and drop_from_queue of services.py.
-- - Playback: update_state, _get_or_create_state and _is_stale of api/episode_routes.py; a
--   finished episode leaves the queue by Queue, and a position is stored by Timeline.
-- - Timeline: timeline.py, the clock of the original file and that of the trimmed copy.
-- - Audio: jobs/audio.py, which makes the trimmed copies and the cuts that Timeline reads.
-- - Reconcile: reconcile_processing of jobs/audio.py, which drops copies by Disk and makes them
--   by Audio.
-- - Listing: list_episodes of api/episode_routes.py. Keyset: the lemmas on paging by a key that
--   it shares with Sync.
-- - Streaming: streaming.py and stream_episode of api/media_routes.py, the choice of a copy for
--   a request.
-- - Media: parse_range, _iter_file and _serve_local of api/media_routes.py.
-- - Downloads: enqueue_download and _record_request of services.py, and _claim_job, _fail_job
--   and requeue_stuck_jobs of jobs/downloader.py.
-- - Transfer: run_job of jobs/downloader.py, which ends in the states that Downloads stores.
-- - Transcript: ensure_transcript of transcripts.py, with which a run of Transfer ends.
-- - Disk: drop_processed of jobs/audio.py and purge_episode of jobs/retention.py, on a disk that
--   may refuse to unlink a path.
-- - Retention: _is_expired, protected_episode_ids and sweep of jobs/retention.py, with the
--   settings of Settings (effective_auto_download_count and effective_retention of services.py).
-- - Refresh: _apply_parsed_episode, _note_replaced_audio and the storing half of _apply_result
--   of jobs/refresh.py.
-- - AutoDownload: _window_episode_ids, _protected_episode_ids and apply_auto_download_window of
--   jobs/refresh.py, which purges by Disk and fetches by Downloads.
-- - Schedule: _is_due, _apply_result, refresh_feed and the choices of refresh_due_feeds of
--   jobs/refresh.py; it stores by Refresh and downloads by AutoDownload.
-- - Fetch: fetch_feed, _fetch_once and some readers of clients/feedfetch.py; what it gives is
--   what Schedule stores.
-- - Sync: sync of api/sync_routes.py. Sync.Pages is how a client reads its pages, as the top of
--   that file tells it to.
-- - Badge: feed_counts, unseen_episode_count and the marks of services.py. What is marked comes
--   back by Sync.
-- - Notify: notify_apns_devices of jobs/refresh.py and send_to_all of push.py.
-- - SignIn: login, the routes of the second factor and those of the tokens of
--   api/auth_routes.py, and verify of totp.py. It asks Throttle for the wait and records in its
--   table.
-- - Throttle: throttle.py, the waits after failed logins.
-- - Prelude: Boolean tests, lists, sorting and integers that the parts share. Samples: rows for
--   the tests.
--
-- Code that is not in the repository is a parameter: the responses of a publisher and what
-- feedparser makes of them, the file response of Starlette, the network, SHA-256, ffmpeg,
-- ffprobe, the reader and writer of JSON, the hashing of passwords, the encryption of a secret,
-- the one-time passwords of a secret, the tables of Unicode, what PostgreSQL finds for a text
-- and what the push services answer. So are what a failed refresh leaves behind, the paths that
-- a download is stored at, the text of an error, and to_plain_text of transcripts.py, which only
-- fills the text of a transcript. What a run of Transfer calls after its commit is Audio and
-- Transcript.
--
-- Loops are recursions on their lists. The only fuel is in read_chunks of Media: iter_file gives
-- it one round more than there are bytes, and every round that goes on sends at least one byte.
-- A run of pages of Sync takes a list of moments, one for each page, and is none if they run
-- out; Sync.Whole shows how many are enough. Floats are exact here: the rounding of durations is
-- written out where the source rounds, and errors of floating point are not modelled. The clock
-- is read once in a handler. The moment at which the ORM dates the update of a row is modelled
-- for jobs, and for episodes in Refresh; elsewhere the stamp of an episode is left as it is. The
-- rows of a sweep that are of one episode share it, and so does the model.
--
-- Not modelled: the parsing of feeds, the text of a cursor, cookies and sessions, search and
-- OPML, chapters, the stripping of captions, statistics, artwork, the wiring of the server, the
-- migrations and the web client.
pub mod Audio
pub mod AutoDownload
pub mod Badge
pub mod Disk
pub mod Downloads
pub mod Fetch
pub mod Keyset
pub mod Listing
pub mod Media
pub mod Model
pub mod Notify
pub mod Playback
pub mod Prelude
pub mod Queue
pub mod Reconcile
pub mod Refresh
pub mod Retention
pub mod Samples
pub mod Schedule
pub mod Settings
pub mod SignIn
pub mod Streaming
pub mod Sync
pub mod Throttle
pub mod Timeline
pub mod Transcript
pub mod Transfer
