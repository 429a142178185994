-- ===== src/Retention/Expiry.antt =====
-- When a download expires.
use podarium.Prelude.{ℕ, ◌≤◌, ◌≡◌, arith, true, Option, none, some}
use podarium.Model.Enums.{Stamp, RetentionMode, after_played, after_download, never}
use podarium.Model.Episode.{Episode, EpisodeState}
use podarium.Retention.{is_before_cutoff, is_expired}

is_before_cutoff_mono :
    (t : Option Stamp) (days : ℕ) (now now' : Stamp)
    → now ≤ now'
    → is_before_cutoff t days now ≡ true
    → is_before_cutoff t days now' ≡ true
unfolding is_before_cutoff
is_before_cutoff_mono none days now now' le h = h
is_before_cutoff_mono (some t) days now now' le h = ground arith

-- What has expired stays expired, and a shorter term expires no later.
pub is_expired_mono :
    (e : Episode) (state : Option EpisodeState) (mode : RetentionMode) (days days' : ℕ)
    (now now' : Stamp)
    → now ≤ now'
    → days' ≤ days
    → is_expired e state mode days now ≡ true
    → is_expired e state mode days' now' ≡ true
unfolding is_expired
is_expired_mono e state never days days' now now' le le' h = h
is_expired_mono e none after_played days days' now now' le le' h = h
is_expired_mono e (some s) after_played days days' now now' le le' h = ground arith
is_expired_mono e state after_download days days' now now' le le' h = ground arith
