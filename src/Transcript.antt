-- ===== src/Transcript.antt =====
-- Fetching a transcript on first use: `ensure_transcript` of src/podarium/transcripts.py. The network
-- is a parameter, and so is `to_plain_text`, with the decoding of the bytes; logging is left out.
use podarium.Prelude.{
  ℕ, ◌+◌, ◌*◌, String, Bool, false, not, Option, none, some, List, [], ◌∷◌, ◌++◌, ltb,
  if◌then◌else◌, is_some, or_else, length, str_eq,
}
use podarium.Model.Enums.{Stamp, seconds}
use podarium.Model.Episode.{Episode}
use podarium.Timeline.{is_set}

-- `MAX_BYTES` and `RETRY_FAILED_AFTER`.
abbrev pub max_transcript_bytes : ℕ
max_transcript_bytes = 5 * 1024 * 1024

abbrev pub retry_failed_after : Stamp
retry_failed_after = seconds (6 * 60 * 60)

-- The chunks of a body, an error that the code catches, or one that it does not.
pub data Reply : Type 0 where
  sent : List (List ℕ) → Reply
  refused : Reply
  threw : String → Reply

-- The loop over the chunks; `none` is a body over the limit.
unfoldable pub gather : List ℕ → List (List ℕ) → Option (List ℕ)
gather buffer [] = some buffer
gather buffer (c ∷ cs) =
    let rest = gather (buffer ++ c) cs in
    if ltb max_transcript_bytes (length (buffer ++ c)) then none else rest

unfoldable pub tried_lately : Stamp → Option Stamp → Bool
tried_lately now none = false
tried_lately now (some last_try) = ltb now (last_try + retry_failed_after)

module _ (stream : String → Reply) (to_plain_text : List ℕ → String) (now : Stamp) where
  unfoldable pub keep_text : Option (List ℕ) → Episode → Option String × Episode × Option String
  keep_text none e = (none, e, none)
  keep_text (some raw) e =
      let text = to_plain_text raw in
      if str_eq text ""
      then (none, e, none)
      else (some text, record e { transcript_text = some text }, none)

  unfoldable pub read_reply : Reply → Episode → Option String × Episode × Option String
  unfolding gather keep_text
  read_reply (sent chunks) e = keep_text (gather [] chunks) e
  read_reply refused e = (none, e, none)
  read_reply (threw err) e = (none, e, some err)

  -- The text, the row, and the error that leaves the function if one does.
  unfoldable pub ensure_transcript : Episode → Option String × Episode × Option String
  unfolding read_reply tried_lately
  ensure_transcript e =
      if not (is_set e.transcript_url)
      then (none, e, none)
      else if is_some e.transcript_text
      then (e.transcript_text, e, none)
      else if tried_lately now e.transcript_fetched_at
      then (none, e, none)
      else read_reply (stream (or_else e.transcript_url ""))
          (record e { transcript_fetched_at = some now })
