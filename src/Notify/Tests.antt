-- ===== src/Notify/Tests.antt =====
-- A phone that is refused for four days.
use podarium.Prelude.{ℕ, ◌≡◌, ◌*◌, refl, true, false, Bool, none, some, List, [], ◌∷◌}
use podarium.Model.Enums.{Stamp, seconds}
use podarium.Notify.{ApnsDevice, refuse, notify_device, notify_user_devices, notify_apns_devices}
use podarium.Notify.Forget.{IsDead, passes-IsDead}

program : Unit {0}
unfolding refuse notify_device notify_user_devices notify_apns_devices
program = tt

abbrev phone : ApnsDevice
phone = record {
  id = 1;
  user_id = 1;
  device_token = "t";
  bundle_id = "b";
  sandbox = false;
  created_at = 0;
  last_used_at = none;
  failing_since = none;
}

abbrev day : ℕ → Stamp
day n = seconds (n * 86400)

abbrev week : List (Stamp × Bool)
week = (day 1, false) ∷ (day 2, true) ∷ (day 3, false) ∷ (day 5, false) ∷ (day 6, false) ∷ []

one_pass :
    notify_apns_devices true 1 5 (λ d. false) (phone ∷ record phone { id = 2; user_id = 2 } ∷ [])
    ≡ record phone { failing_since = some 5 } ∷ record phone { id = 2; user_id = 2 } ∷ []
unfolding program
one_pass = refl

passes-IsDead_example : IsDead week
unfolding program
passes-IsDead_example = passes-IsDead week phone refl refl
