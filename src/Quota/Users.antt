-- ===== src/Quota/Users.antt =====
-- The quota operations of model/user.go.
use veloera.Base.{ℕ, Bool, false, not, ◌&&◌, if◌then◌else◌, ℤ, pos, ltb_ℤ, eqb_ℤ}
use veloera.Store.Database.{Database}
use veloera.Quota.World.{
  Config, incr_user_quota_cache, type_user_quota, type_used_quota, type_request_count,
  type_channel_used_quota, negative_quota, Action, ◌>>◌, pure, fail_if, launch, neg64,
}
use veloera.Quota.Batch.{
  add_new_record, db_increase_user_quota, db_decrease_user_quota,
  db_update_user_used_quota_and_request_count, db_update_channel_used_quota,
}

module _ ⦃d : Database⦄ (c : Config) where
  -- `IncreaseUserQuota`
  unfoldable pub increase_user_quota : ℕ → ℤ → Bool → Action d.State (Unit {0})
  unfolding add_new_record db_increase_user_quota
  increase_user_quota id quota db = do
    fail_if (ltb_ℤ quota (pos 0)) negative_quota
    launch (incr_user_quota_cache id quota)
    if not db && c.batch_update_enabled
        then add_new_record type_user_quota id quota
        else db_increase_user_quota id quota

  -- `DecreaseUserQuota`
  unfoldable pub decrease_user_quota : ℕ → ℤ → Action d.State (Unit {0})
  unfolding add_new_record db_decrease_user_quota
  decrease_user_quota id quota = do
    fail_if (ltb_ℤ quota (pos 0)) negative_quota
    launch (incr_user_quota_cache id (neg64 quota))
    if c.batch_update_enabled
        then add_new_record type_user_quota id (neg64 quota)
        else db_decrease_user_quota id quota

  -- `DeltaUpdateUserQuota`
  unfoldable pub delta_update_user_quota : ℕ → ℤ → Action d.State (Unit {0})
  unfolding increase_user_quota decrease_user_quota
  delta_update_user_quota id delta =
      if eqb_ℤ delta (pos 0)
      then pure tt
      else if ltb_ℤ (pos 0) delta
      then increase_user_quota id delta false
      else decrease_user_quota id (neg64 delta)

  -- `UpdateUserUsedQuotaAndRequestCount`
  unfoldable pub update_user_used_quota_and_request_count : ℕ → ℤ → Action d.State (Unit {0})
  unfolding add_new_record db_update_user_used_quota_and_request_count
  update_user_used_quota_and_request_count id quota =
      if c.batch_update_enabled
      then (do
        add_new_record type_used_quota id quota
        add_new_record type_request_count id (pos 1))
      else db_update_user_used_quota_and_request_count id quota (pos 1)

  -- `UpdateChannelUsedQuota` of model/channel.go
  unfoldable pub update_channel_used_quota : ℕ → ℤ → Action d.State (Unit {0})
  unfolding add_new_record db_update_channel_used_quota
  update_channel_used_quota id quota =
      if c.batch_update_enabled
      then add_new_record type_channel_used_quota id quota
      else db_update_channel_used_quota id quota
