-- ===== src/Billing/Posted.antt =====
-- The settlements of service/quota.go, of Claude's, audio and realtime requests: what they charge.
use veloera.Base.{
  ◌≡◌, true, refl, sym, subst, eqb_ℤ, Bool-cases, inl, inr, ℕ, ◌+◌, ◌<◌, ◌^◌, ℤ, pos, ◌-ℤ◌,
}
use veloera.Store.Database.{Database}
use veloera.Quota.World.{World, Config}
use veloera.Quota.Effective.Flush.{Works}
use veloera.Billing.Info.{RelayInfo}
use veloera.Billing.Text.{answered, settle}
use veloera.Billing.Charged.{IsCalm, size}
use veloera.Billing.Settle.{Charges, token_share}
use veloera.Billing.Conclude.{cost_of, settle-Charges, usage-Charges}
use veloera.Billing.Price.{
  Numbers, PriceData, Usage, AudioUsage, AudioRatios, quota_info_of, claude_quota,
  calculate_audio_quota,
}
use veloera.Billing.Posts.{
  total_of, post_claude_consume_quota, post_audio_consume_quota, post_wss_consume_quota,
}

module _ {F : Type 0} ⦃d : Database⦄ (n : Numbers) (new_from_float : F → n.Num) (quota_per_unit : F)
    (c : Config) (now : ℤ) (info : RelayInfo) (w : World d.State) (bound held : ℕ)
    (ratios : AudioRatios F) (spoken : AudioUsage) (audio : PriceData F) where
  -- What the settlement computes for the audio request.
  abbrev pub audio_cost : ℤ
  audio_cost = cost_of (
      answered spoken.total_tokens (
        calculate_audio_quota n new_from_float quota_per_unit
          (quota_info_of ratios spoken audio.use_price audio.model_ratio audio.group_ratio)))

  -- With `held` taken before: `PostClaudeConsumeQuota` and `PostAudioConsumeQuota` charge the user,
  -- and the token unless it is the playground's, what they compute less what is held, or give back
  -- all that is held for an answer of no tokens; but `PostWssConsumeQuota` charges nothing, whatever
  -- was held and whatever it computes, so that what is held at the start of a realtime session is
  -- kept. What the audio settlement computes is by the `QuotaInfo` that it builds, without the
  -- model's price. The statements that write are to succeed, and what is pending, with twice each
  -- difference, is less than 2^63.
  pub posts-Charges :
      (usage : Usage) (price : PriceData n.Num)
      → let claude = cost_of (
          answered (total_of usage) (claude_quota n (new_from_float quota_per_unit) usage price)) in
        Works
        → IsCalm info.user_id info.token_id w bound
        → bound + size (claude -ℤ pos held) + size (claude -ℤ pos held) < 2 ^ 63
        → bound + size (audio_cost -ℤ pos held) + size (audio_cost -ℤ pos held) < 2 ^ 63
        → ((k : ℕ) × Charges info.user_id info.token_id
              (post_claude_consume_quota c now info n
                (new_from_float quota_per_unit)
                usage
                (pos held)
                price)
              w
              (claude -ℤ pos held)
              (token_share info (claude -ℤ pos held))
              k)
          × ((k : ℕ) × Charges info.user_id info.token_id
                (post_audio_consume_quota c now info n new_from_float quota_per_unit ratios spoken
                  (pos held)
                  audio)
                w
                (audio_cost -ℤ pos held)
                (token_share info (audio_cost -ℤ pos held))
                k)
          × Charges info.user_id info.token_id
              (post_wss_consume_quota c now info n new_from_float quota_per_unit ratios spoken
                audio.use_price audio.model_ratio audio.group_ratio)
              w
              (pos 0)
              (pos 0)
              0
  unfolding post_claude_consume_quota post_audio_consume_quota post_wss_consume_quota
  posts-Charges usage price works calm small small' =
      let computed =
        calculate_audio_quota n new_from_float quota_per_unit
          (quota_info_of ratios spoken audio.use_price audio.model_ratio audio.group_ratio) in
      (
        settle-Charges works c now info w bound held (total_of usage)
            (claude_quota n (new_from_float quota_per_unit) usage price) calm small,
        settle-Charges works c now info w bound held spoken.total_tokens computed calm small',
        usage-Charges works c now info w spoken.total_tokens computed,
      )

  fixed_price-free :
      audio.use_price ≡ true
      → n.is_zero (new_from_float ratios.float_zero) ≡ true
      → n.is_finite (new_from_float quota_per_unit) ≡ true
      → n.is_finite (new_from_float audio.group_ratio) ≡ true
      → calculate_audio_quota n new_from_float quota_per_unit
          (quota_info_of ratios spoken audio.use_price audio.model_ratio audio.group_ratio)
        ≡ pos 0
  unfolding calculate_audio_quota quota_info_of
  fixed_price-free fixed zero finite finite' =
      let nothing =
        n.zero-mul (n.mul (new_from_float ratios.float_zero) (new_from_float quota_per_unit))
          (new_from_float audio.group_ratio)
          (n.zero-mul (new_from_float ratios.float_zero) (new_from_float quota_per_unit) zero
            finite)
          finite' in
      rw fixed (
        n.zero_int_part
          (n.mul (n.mul (new_from_float ratios.float_zero) (new_from_float quota_per_unit))
            (new_from_float audio.group_ratio))
          nothing)

  audio_cost-free :
      calculate_audio_quota n new_from_float quota_per_unit
          (quota_info_of ratios spoken audio.use_price audio.model_ratio audio.group_ratio)
        ≡ pos 0
      → audio_cost ≡ pos 0
  audio_cost-free e = elim (Bool-cases (eqb_ℤ spoken.total_tokens (pos 0))) [
    | inl empty ↦ rw empty refl
    | inr some_tokens ↦ rw (some_tokens, e) refl
  ]

  -- An audio request of a model with a fixed price is free: `PostAudioConsumeQuota` charges nothing
  -- for it and gives back all that was held, whatever the price and however many tokens it had, since
  -- the `QuotaInfo` that it builds has no price. The quota per unit and the group's ratio are
  -- finite, the statements that write are to succeed, and what is pending, with twice what is held, is
  -- less than 2^63.
  pub post_audio_consume_quota-refunds_fixed_price :
      audio.use_price ≡ true
      → n.is_zero (new_from_float ratios.float_zero) ≡ true
      → n.is_finite (new_from_float quota_per_unit) ≡ true
      → n.is_finite (new_from_float audio.group_ratio) ≡ true
      → Works
      → IsCalm info.user_id info.token_id w bound
      → bound + size (pos 0 -ℤ pos held) + size (pos 0 -ℤ pos held) < 2 ^ 63
      → (k : ℕ) × Charges info.user_id info.token_id
          (post_audio_consume_quota c now info n new_from_float quota_per_unit ratios spoken
            (pos held)
            audio)
          w
          (pos 0 -ℤ pos held)
          (token_share info (pos 0 -ℤ pos held))
          k
  unfolding post_audio_consume_quota
  post_audio_consume_quota-refunds_fixed_price fixed zero finite finite' works calm small =
      let computed =
        calculate_audio_quota n new_from_float quota_per_unit
          (quota_info_of ratios spoken audio.use_price audio.model_ratio audio.group_ratio) in
      let free : audio_cost ≡ pos 0 =
        audio_cost-free (fixed_price-free fixed zero finite finite') in
      subst
        (λ (cost : ℤ).
          (k : ℕ) × Charges info.user_id info.token_id
            (settle c now info spoken.total_tokens computed (pos held)) w (cost -ℤ pos held)
            (token_share info (cost -ℤ pos held)) k)
        free
        (settle-Charges works c now info w bound held spoken.total_tokens computed calm (
          subst (λ (cost : ℤ). bound + size (cost -ℤ pos held) + size (cost -ℤ pos held) < 2 ^ 63)
            (sym free) small))
