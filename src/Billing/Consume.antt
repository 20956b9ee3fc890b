-- ===== src/Billing/Consume.antt =====
-- service/quota.go: `PreConsumeTokenQuota` and `PostConsumeQuota`.
use veloera.Base.{Bool, false, not, ◌&&◌, if◌then◌else◌, ℤ, pos, ◌+ℤ◌, ltb_ℤ, eqb_ℤ, int64}
use veloera.Store.Database.{Database}
use veloera.Quota.World.{
  Config, check_quota_notify, negative_quota, token_quota_not_enough, Action, ◌>>=◌, ◌>>◌, pure,
  fail_if, launch, neg64,
}
use veloera.Quota.Users.{increase_user_quota, decrease_user_quota}
use veloera.Quota.Tokens.{increase_token_quota, decrease_token_quota}
use veloera.Billing.Info.{RelayInfo, CacheAnswers}
use veloera.Billing.Lookup.{get_token_by_key}

module _ ⦃d : Database⦄ (c : Config) (now : ℤ) (info : RelayInfo) where
  -- `PreConsumeTokenQuota`
  unfoldable pub pre_consume_token_quota : CacheAnswers → ℤ → Action d.State (Unit {0})
  pre_consume_token_quota cache quota = do
    fail_if (ltb_ℤ quota (pos 0)) negative_quota
    if info.is_playground then pure tt else do
      token ← get_token_by_key c cache info.token_key
      fail_if (not info.token_unlimited && ltb_ℤ token.remain_quota quota) token_quota_not_enough
      decrease_token_quota c now info.token_id info.token_key quota

  -- `PostConsumeQuota`
  unfoldable pub post_consume_quota : ℤ → ℤ → Bool → Action d.State (Unit {0})
  post_consume_quota quota pre_consumed_quota send_email = do
    (if ltb_ℤ (pos 0) quota
        then decrease_user_quota c info.user_id quota
        else increase_user_quota c info.user_id (neg64 quota) false)
    (if info.is_playground
        then pure tt
        else if ltb_ℤ (pos 0) quota
        then decrease_token_quota c now info.token_id info.token_key quota
        else increase_token_quota c now info.token_id info.token_key (neg64 quota))
    if send_email && not (eqb_ℤ (int64 (quota +ℤ pre_consumed_quota)) (pos 0))
        then launch (check_quota_notify info.user_id quota pre_consumed_quota)
        else pure tt
