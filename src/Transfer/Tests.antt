-- ===== src/Transfer/Tests.antt =====
-- Transfers of small bodies, and a run that is followed by another.
use podarium.Prelude.{
  str_eq_iff, ◌≤◌, ◌<◌, ◌≡◌, ◌⊎◌, inr, refl, arith, String, true, some, none, [], ◌∷◌,
}
use podarium.Model.Episode.{Episode}
use podarium.Samples.{episode, feed, settings, job, empty_disk}
use podarium.Transcript.{threw}
use podarium.Transfer.{
  Answer, broke, got, truncated, receive, declared_length, check_length, transfer_from, transfer,
  Tools, run_job,
}
use podarium.Transfer.Outcome.{joined, transfer-got, transfer-joined}
use podarium.Transfer.Rerun.{HasFile, AreDone, run_job_again}

program : Unit {0}
unfolding receive declared_length check_length transfer_from transfer
program = tt

abbrev answer : Answer
answer = record {
  content_length = some 3;
  identity = true;
  chunks = (1 ∷ 2 ∷ []) ∷ (3 ∷ []) ∷ [];
  broken = none;
}

arrived : transfer 3 answer ≡ got (1 ∷ 2 ∷ 3 ∷ [])
unfolding program
arrived = refl

short : transfer 3 (record answer { content_length = some 2 }) ≡ broke (truncated 3 2)
unfolding program
short = refl

transfer-got_example :
    (joined answer.chunks ≡ joined answer.chunks)
    × (answer.broken ≡ none)
    × (0 < 3)
    × (3 ≤ 3)
    × ((declared_length answer ≡ none) ⊎ (declared_length answer ≡ some 3))
transfer-got_example = transfer-got 3 answer arrived

declared : declared_length answer ≡ some 3
unfolding program
declared = refl

transfer-joined_example : transfer 3 answer ≡ got (joined answer.chunks)
transfer-joined_example = transfer-joined 3 answer refl (omega arith) (omega arith) (inr declared)

abbrev target : Episode → String
target e = "1/1.mp3"

abbrev partial : Episode → String
partial e = "1/1.mp3.part"

-- A copy is trimmed, and then the transcript's server fails in a way that nothing expects.
abbrev tools : Tools
tools = record {
  ffmpeg_available = true;
  trimming_available = true;
  processed_path_for = λ p. "1/1.processed.mp3";
  partial_for = λ p. "1/1.processed.mp3.part";
  encode = λ p w. some 2;
  probe = λ p. some 20000;
  file_size = λ p. 3;
  detect = λ p. some [];
  dumps = λ l. "[]";
  commits = λ e. true;
  feed = λ id. some (record feed { trim_silence = some true });
  settings = settings;
  stream = λ url. threw "ssl error";
  to_plain_text = λ b. "";
}

abbrev told : Episode
told = record episode { transcript_url = some "https://example.org/1.vtt" }

run_job_again_example :
    let r =
      run_job tools 7 3 target partial
        (λ e url. answer)
        (λ b. "digest")
        (λ f. "error")
        empty_disk
        job
        (some told) in
    HasFile "1/1.mp3" r
    × AreDone tools 7 3 target partial (λ e url. answer) (λ b. "digest") (λ f. "error") r
run_job_again_example =
    run_job_again tools 7 3 target partial (λ e url. answer) (λ b. "digest") (λ f. "error")
      empty_disk job told (1 ∷ 2 ∷ 3 ∷ []) refl refl arrived refl refl
      (λ h. absurd (ground (arith, (str_eq_iff "1/1.mp3.part" "1/1.mp3").1 h)))
