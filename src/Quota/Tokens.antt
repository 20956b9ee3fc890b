-- ===== src/Quota/Tokens.antt =====
-- The quota operations of model/token.go.
use veloera.Base.{ℕ, String, if◌then◌else◌, ℤ, pos, ltb_ℤ}
use veloera.Store.Database.{Database}
use veloera.Quota.World.{
  Config, incr_token_quota_cache, type_token_quota, negative_quota, Action, ◌>>◌, pure, fail_if,
  launch, neg64,
}
use veloera.Quota.Batch.{add_new_record, db_increase_token_quota, db_decrease_token_quota}

module _ ⦃d : Database⦄ (c : Config) (now : ℤ) where
  -- `IncreaseTokenQuota`
  unfoldable pub increase_token_quota : ℕ → String → ℤ → Action d.State (Unit {0})
  unfolding add_new_record db_increase_token_quota
  increase_token_quota id key quota = do
    fail_if (ltb_ℤ quota (pos 0)) negative_quota
    (if c.redis_enabled then launch (incr_token_quota_cache key quota) else pure tt)
    if c.batch_update_enabled
        then add_new_record type_token_quota id quota
        else db_increase_token_quota now id quota

  -- `DecreaseTokenQuota`
  unfoldable pub decrease_token_quota : ℕ → String → ℤ → Action d.State (Unit {0})
  unfolding add_new_record db_decrease_token_quota
  decrease_token_quota id key quota = do
    fail_if (ltb_ℤ quota (pos 0)) negative_quota
    (if c.redis_enabled then launch (incr_token_quota_cache key (neg64 quota)) else pure tt)
    if c.batch_update_enabled
        then add_new_record type_token_quota id (neg64 quota)
        else db_decrease_token_quota now id quota
