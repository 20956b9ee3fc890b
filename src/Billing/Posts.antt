-- ===== src/Billing/Posts.antt =====
-- The settlements of relay/relay-text.go and service/quota.go: `postConsumeQuota`,
-- `PostClaudeConsumeQuota`, `PostAudioConsumeQuota` and `PostWssConsumeQuota`, with the prices that
-- they compute, and `TextHelper` with them. Rows of the consume log are left out.
use veloera.Base.{Bool, Option, ℤ, pos, ◌+ℤ◌, eqb_ℤ, int64, if◌then◌else◌}
use veloera.Store.Database.{Database}
use veloera.Quota.World.{Config, Action, ◌>>◌, pure}
use veloera.Quota.Users.{update_user_used_quota_and_request_count, update_channel_used_quota}
use veloera.Billing.Info.{RelayInfo}
use veloera.Billing.Text.{settle, Upstream, answered}
use veloera.Billing.Price.{
  Numbers, PriceData, Usage, AudioUsage, AudioRatios, quota_info_of, usage_or_prompt, text_quota,
  claude_quota, calculate_audio_quota,
}

abbrev pub total_of : Usage → ℤ
total_of usage = int64 (usage.prompt_tokens +ℤ usage.completion_tokens)

module _ {F : Type 0} (n : Numbers) (new_from_float : F → n.Num) (quota_per_unit : F) where
  -- What `postConsumeQuota` is told of an answer, and the price that it computes.
  unfoldable pub text_answer : RelayInfo → Option Usage → PriceData F → Upstream
  unfolding text_quota
  text_answer info usage price =
      answered (total_of (usage_or_prompt info usage))
        (text_quota n new_from_float quota_per_unit (usage_or_prompt info usage) price)

module _ ⦃d : Database⦄ (c : Config) (now : ℤ) (info : RelayInfo) where
  -- `postConsumeQuota`
  unfoldable pub post_text_consume_quota :
      {F : Type 0} (n : Numbers)
      → (F → n.Num)
      → F
      → Option Usage
      → ℤ
      → PriceData F
      → Action d.State (Unit {0})
  unfolding settle text_quota
  post_text_consume_quota n new_from_float quota_per_unit usage pre_consumed_quota price =
      settle c now info (total_of (usage_or_prompt info usage))
        (text_quota n new_from_float quota_per_unit (usage_or_prompt info usage) price)
        pre_consumed_quota

  -- `PostClaudeConsumeQuota`
  unfoldable pub post_claude_consume_quota :
      (n : Numbers) → n.Num → Usage → ℤ → PriceData n.Num → Action d.State (Unit {0})
  unfolding settle claude_quota
  post_claude_consume_quota n quota_per_unit usage pre_consumed_quota price =
      settle c now info (total_of usage) (claude_quota n quota_per_unit usage price)
        pre_consumed_quota

  -- `PostAudioConsumeQuota`
  unfoldable pub post_audio_consume_quota :
      {F : Type 0} (n : Numbers)
      → (F → n.Num)
      → F
      → AudioRatios F
      → AudioUsage
      → ℤ
      → PriceData F
      → Action d.State (Unit {0})
  unfolding settle calculate_audio_quota quota_info_of
  post_audio_consume_quota n new_from_float quota_per_unit ratios usage pre_consumed_quota price =
      settle c now info usage.total_tokens
        (calculate_audio_quota n new_from_float quota_per_unit
          (quota_info_of ratios usage price.use_price price.model_ratio price.group_ratio))
        pre_consumed_quota

  -- `PostWssConsumeQuota`: the counts of what was used, and no charge.
  unfoldable pub post_wss_consume_quota :
      {F : Type 0} (n : Numbers)
      → (F → n.Num)
      → F
      → AudioRatios F
      → AudioUsage
      → Bool
      → F
      → F
      → Action d.State (Unit {0})
  unfolding calculate_audio_quota quota_info_of
  post_wss_consume_quota n new_from_float quota_per_unit ratios usage use_price model_ratio
        group_ratio =
      let quota =
        calculate_audio_quota n new_from_float quota_per_unit
          (quota_info_of ratios usage use_price model_ratio group_ratio) in
      if eqb_ℤ usage.total_tokens (pos 0) then pure tt else (do
        update_user_used_quota_and_request_count c info.user_id quota
        update_channel_used_quota c info.channel_id quota)
