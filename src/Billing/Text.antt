-- ===== src/Billing/Text.antt =====
-- relay/relay-text.go: the hold, the refund and the settlement of a text request, and the way
-- `TextHelper` composes them.
use veloera.Base.{
  true, false, not, if◌then◌else◌, ℤ, pos, ◌-ℤ◌, ltb_ℤ, leb_ℤ, eqb_ℤ, int64, hundred,
}
use veloera.Store.Database.{Database}
use veloera.Quota.World.{
  Config, get_user_quota_failed, insufficient_user_quota, pre_consume_token_quota_failed,
  decrease_user_quota_failed, upstream_failed, fail, Action, ◌>>=◌, ◌>>◌, pure, fail_if, or_wrap,
  or_log, neg64,
}
use veloera.Quota.Users.{
  decrease_user_quota, update_user_used_quota_and_request_count, update_channel_used_quota,
}
use veloera.Billing.Info.{RelayInfo, CacheAnswers}
use veloera.Billing.Lookup.{get_user_quota}
use veloera.Billing.Consume.{pre_consume_token_quota, post_consume_quota}

-- What is to be held: nothing for an account, and a token, that hold a hundred times as much.
unfoldable pub held_quota : RelayInfo → ℤ → ℤ → ℤ → ℤ
held_quota info token_quota user_quota quota =
    if ltb_ℤ (int64 (hundred quota)) user_quota
    then (if not info.token_unlimited
        then (if ltb_ℤ (int64 (hundred quota)) token_quota then pos 0 else quota)
        else pos 0)
    else quota

module _ ⦃d : Database⦄ (c : Config) (now : ℤ) (info : RelayInfo) where
  -- The hold itself.
  unfoldable pub hold : CacheAnswers → ℤ → Action d.State (Unit {0})
  hold cache held =
      if ltb_ℤ (pos 0) held
      then (do
        or_wrap (pre_consume_token_quota c now info cache held) pre_consume_token_quota_failed
        or_wrap (decrease_user_quota c info.user_id held) decrease_user_quota_failed)
      else pure tt

  -- `preConsumeQuota`, with the request's `token_quota`: what it holds, and the user's quota.
  unfoldable pub pre_consume_quota : CacheAnswers → ℤ → ℤ → Action d.State (ℤ × ℤ)
  unfolding hold
  pre_consume_quota cache token_quota quota = do
    user_quota ← or_wrap (get_user_quota c cache info.user_id) get_user_quota_failed
    fail_if (leb_ℤ user_quota (pos 0)) insufficient_user_quota
    fail_if (ltb_ℤ (int64 (user_quota -ℤ quota)) (pos 0)) insufficient_user_quota
    hold cache (held_quota info token_quota user_quota quota)
    pure (held_quota info token_quota user_quota quota, user_quota)

  -- `returnPreConsumedQuota`, with the goroutine that it launches run to its end.
  unfoldable pub return_pre_consumed_quota : ℤ → Action d.State (Unit {0})
  return_pre_consumed_quota held =
      if not (eqb_ℤ held (pos 0))
      then or_log (post_consume_quota c now info (neg64 held) (pos 0) false)
      else pure tt

  -- The writes of `postConsumeQuota`, for the computed quota. The row of the consume log, which
  -- goes to another database, is left out.
  unfoldable pub settle : ℤ → ℤ → ℤ → Action d.State (Unit {0})
  settle total_tokens computed held = do
    let quota = if eqb_ℤ total_tokens (pos 0) then pos 0 else computed
    (if eqb_ℤ total_tokens (pos 0) then pure tt else (do
      update_user_used_quota_and_request_count c info.user_id quota
      update_channel_used_quota c info.channel_id quota))
    if not (eqb_ℤ (int64 (quota -ℤ held)) (pos 0))
        then or_log (post_consume_quota c now info (int64 (quota -ℤ held)) held true)
        else pure tt

-- What the channel made of the request, between the hold and the settlement: an error, or an answer
-- with its tokens and the quota computed for them. That an adaptor answers with a usage, as the
-- assertion `usage.(*dto.Usage)` asks, is taken for granted.
pub data Upstream : Type 0 where
  failed : Upstream
  answered : ℤ → ℤ → Upstream

module _ ⦃d : Database⦄ (c : Config) (now : ℤ) (info : RelayInfo) where
  -- After the hold: on an error the deferred refund, and the error; or `postConsumeQuota`.
  unfoldable pub conclude : Upstream → ℤ → Action d.State (Unit {0})
  unfolding return_pre_consumed_quota settle
  conclude failed held = do return_pre_consumed_quota c now info held; fail upstream_failed
  conclude (answered total_tokens computed) held = settle c now info total_tokens computed held

  -- The part of `TextHelper` that touches accounts.
  unfoldable pub text_helper : CacheAnswers → ℤ → ℤ → Upstream → Action d.State (Unit {0})
  unfolding pre_consume_quota conclude
  text_helper cache token_quota quota upstream = do
    (held, user_quota) ← pre_consume_quota c now info cache token_quota quota
    conclude upstream held
