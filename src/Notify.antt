-- ===== src/Notify.antt =====
-- Notifications of new episodes: `_notify_new_episodes` and `notify_apns_devices` of
-- src/podarium/jobs/refresh.py and `send_to_all` of src/podarium/push.py. What the relay and the
-- push services answer is a parameter; the text of the message and logging are left out.
pub mod Forget
mod Tests
use podarium.Prelude.{
  ℕ, suc, ◌+◌, ◌*◌, String, Bool, true, false, ◌&&◌, ◌||◌, not, Option, none, some, List, [], ◌∷◌,
  ◌++◌, ◌==◌, leb, contains, if◌then◌else◌, filter, map, length, sum_by,
}
use podarium.Model.Enums.{Stamp, seconds}

pub record ApnsDevice : Type 0 where
  pub id : ℕ
  pub user_id : ℕ
  pub device_token : String
  pub bundle_id : String
  pub sandbox : Bool
  pub created_at : Stamp
  pub last_used_at : Option Stamp
  pub failing_since : Option Stamp

abbrev pub forget_device_after : Stamp
forget_device_after = seconds (3 * 24 * 60 * 60)

-- A refusal, by the moment of the first one of its series; `none` is a row that is deleted.
unfoldable pub refuse : Stamp → ApnsDevice → Option Stamp → Option ApnsDevice
refuse now d none = some (record d { failing_since = some now })
refuse now d (some since) = if leb (since + forget_device_after) now then none else some d

-- One round of the loop, by whether the relay accepts.
unfoldable pub notify_device : Stamp → Bool → ApnsDevice → Option ApnsDevice
unfolding refuse
notify_device now true d = some (record d { last_used_at = some now; failing_since = none })
notify_device now false d = refuse now d d.failing_since

-- Over the rows of every user.
unfoldable pub notify_user_devices :
    ℕ → Stamp → (ApnsDevice → Bool) → List ApnsDevice → List ApnsDevice
unfolding notify_device
notify_user_devices u now accepts [] = []
notify_user_devices u now accepts (d ∷ ds) =
    let rest = notify_user_devices u now accepts ds in
    if d.user_id == u
    then elim (notify_device now (accepts d) d) [ none ↦ rest | some d' ↦ d' ∷ rest ]
    else d ∷ rest

unfoldable pub notify_apns_devices :
    Bool → ℕ → Stamp → (ApnsDevice → Bool) → List ApnsDevice → List ApnsDevice
unfolding notify_user_devices
notify_apns_devices configured u now accepts ds =
    if configured then notify_user_devices u now accepts ds else ds

pub record PushSubscription : Type 0 where
  pub id : ℕ
  pub user_id : ℕ
  pub endpoint : String
  pub p256dh : String
  pub auth : String
  pub label : Option String
  pub created_at : Stamp
  pub last_used_at : Option Stamp

-- What a delivery comes to: an error before there is an answer, or the status of the answer.
pub data Delivery : Type 0 where
  undelivered : Delivery
  answered : ℕ → Delivery

abbrev pub is_gone : Delivery → Bool
is_gone undelivered = false
is_gone (answered status) = status == 404 || status == 410

abbrev pub is_sent : Delivery → Bool
is_sent undelivered = false
is_sent (answered status) = not (status == 404 || status == 410) && not (leb 400 status)

-- The number that were sent, and the rows afterwards.
unfoldable pub send_to_all :
    Bool → ℕ → (PushSubscription → Delivery) → List PushSubscription → ℕ × List PushSubscription
send_to_all has_key u deliver subs =
    if has_key
    then (
      length (filter (λ s. s.user_id == u && is_sent (deliver s)) subs),
      filter
          (λ s. not (
            contains s.id
              (map (λ x. x.id) (filter (λ x. x.user_id == u && is_gone (deliver x)) subs))))
          subs,
    )
    else (0, subs)

-- The number of the title, over the arrivals of a pass.
unfoldable pub arrived : List (String × ℕ) → ℕ
arrived arrivals = sum_by (λ a. a.1) arrivals
