-- ===== src/Model/User.antt =====
-- `User`, `ApiToken` and `LoginAttempt` of src/podarium/models.py.
use podarium.Prelude.{ℕ, String, Bool, Option}
use podarium.Model.Enums.{Stamp}

pub record User : Type 0 where
  pub id : ℕ
  pub username : String
  pub password_hash : String
  pub created_at : Stamp
  pub totp_secret : Option String
  pub totp_last_step : Option ℕ
  pub inbox_seen_at : Option Stamp

pub record ApiToken : Type 0 where
  pub id : ℕ
  pub user_id : ℕ
  pub name : String
  pub token_hash : String
  pub created_at : Stamp
  pub last_used_at : Option Stamp

pub record LoginAttempt : Type 0 where
  pub id : ℕ
  pub username : String
  pub source : Option String
  pub succeeded : Bool
  pub attempted_at : Stamp
