-- ===== src/Billing/Info.antt =====
-- relay/common/relay_info.go: the fields of `RelayInfo` that billing reads; and what the Redis cache
-- answers during the request. The cache is an external service: any answer is possible, `none` is
-- a miss or an error.
use veloera.Base.{ℕ, String, Bool, Option, ℤ}
use veloera.Store.Rows.{Token}

pub record RelayInfo : Type 0 where
  pub user_id : ℕ
  pub token_id : ℕ
  pub token_key : String
  pub token_unlimited : Bool
  pub is_playground : Bool
  pub channel_id : ℕ
  pub prompt_tokens : ℤ

pub record CacheAnswers : Type 0 where
  pub user_quota : Option ℤ
  pub token : Option Token
