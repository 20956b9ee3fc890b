-- ===== src/Store/Rows.antt =====
-- The rows of the tables: of model/user.go, model/token.go, model/channel.go and
-- model/redemption.go, the fields that the modelled operations read or write. Row ids are only
-- compared, so they are natural numbers.
use veloera.Base.{ℕ, String, Bool, Option, ℤ}

pub record User : Type 0 where
  pub username : String
  pub role : ℤ
  pub status : ℤ
  pub group : String
  pub quota : ℤ
  pub used_quota : ℤ
  pub request_count : ℤ
  pub aff_count : ℤ
  pub aff_quota : ℤ
  pub aff_history_quota : ℤ
  pub inviter_id : ℕ
  -- The UTC day of `LastCheckInTime`, `none` for a nil pointer: only the day is read.
  pub last_check_in_day : Option ℕ

pub record Token : Type 0 where
  pub id : ℕ
  pub user_id : ℕ
  pub key : String
  pub status : ℤ
  pub name : String
  pub accessed_time : ℤ
  pub expired_time : ℤ
  pub remain_quota : ℤ
  pub unlimited_quota : Bool
  pub used_quota : ℤ
  pub model_limits_enabled : Bool
  pub model_limits : String
  pub group : String

pub record ChannelUsage : Type 0 where
  pub used_quota : ℤ

pub record Redemption : Type 0 where
  pub id : ℕ
  pub key : String
  pub status : ℤ
  pub quota : ℤ
  pub redeemed_time : ℤ
  pub valid_from : ℤ
  pub valid_until : ℤ
  pub used_user_id : ℕ
  pub is_gift : Bool
  pub max_uses : ℤ
  pub used_count : ℤ
