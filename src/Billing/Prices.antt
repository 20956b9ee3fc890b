-- ===== src/Billing/Prices.antt =====
-- The prices of relay/relay-text.go and service/quota.go: their bounds, and a free group's.
use veloera.Base.{◌≡◌, refl, true, false, not, pos, leb_ℤ, Bool-cases, inl, inr}
use veloera.Billing.Price.{
  Numbers, PriceData, Usage, QuotaInfo, at_least_one, text_quota, text_price, text_ratio,
  weighted_tokens, calculate_audio_quota, weighted_audio, audio_ratio_of, claude_quota,
  claude_tokens,
}

module _ (n : Numbers) where
  zero_fine :
      (x : n.Num)
      → n.is_zero x ≡ true
      → (leb_ℤ (pos 0) (n.int_part x) ≡ true) × (leb_ℤ (pos 0) (n.int_part (n.round x)) ≡ true)
  zero_fine x z =
      rw (n.zero_int_part x z, n.zero_int_part (n.round x) (n.zero_round x z)) (refl, refl)

  one_fine :
      (leb_ℤ (pos 0) (n.int_part (n.new_from_int (pos 1))) ≡ true)
      × (leb_ℤ (pos 0) (n.int_part (n.round (n.new_from_int (pos 1)))) ≡ true)
  one_fine = rw (n.one_int_part.0, n.one_int_part.1) (refl, refl)

  -- The least charge keeps a price from falling below zero.
  at_least_one-fine :
      (x ratio : n.Num)
      → (n.is_zero ratio ≡ true → n.is_zero x ≡ true)
      → n.fits x ≡ true
      → (leb_ℤ (pos 0) (n.int_part (at_least_one n (not (n.is_zero ratio)) x)) ≡ true)
        × (leb_ℤ (pos 0) (n.int_part (n.round (at_least_one n (not (n.is_zero ratio)) x))) ≡ true)
  at_least_one-fine x ratio free fits = elim (Bool-cases (n.is_zero ratio)) [
    | inl z ↦ rw z (zero_fine x (free z))
    | inr some_ratio ↦ elim (Bool-cases (n.le_zero x)) [
      | inl le ↦ rw (some_ratio, le) one_fine
      | inr more ↦ rw (some_ratio, more) (n.positive_int_part x more fits)
    ]
  ]

  -- Of a zero ratio nothing is left, and of a zero price 1 is.
  at_least_one-free :
      (x ratio : n.Num)
      → n.is_zero ratio ≡ true
      → n.is_zero x ≡ true
      → n.int_part (n.round (at_least_one n (not (n.is_zero ratio)) x)) ≡ pos 0
  at_least_one-free x ratio free z = rw free (n.zero_int_part (n.round x) (n.zero_round x z))

  at_least_one-one :
      (x ratio : n.Num)
      → n.is_zero ratio ≡ false
      → n.is_zero x ≡ true
      → n.int_part (at_least_one n (not (n.is_zero ratio)) x) ≡ pos 1
  at_least_one-one x ratio some_ratio z = rw (some_ratio, n.zero_le_zero x z) n.one_int_part.0

module _ {F : Type 0} (n : Numbers) (new_from_float : F → n.Num) where
  pub text_quota-nonneg :
      (quota_per_unit : F) (usage : Usage) (price : PriceData F)
      → price.use_price ≡ false
      → n.is_finite (weighted_tokens n new_from_float usage price) ≡ true
      → n.fits
          (n.mul (weighted_tokens n new_from_float usage price) (text_ratio n new_from_float price))
        ≡ true
      → leb_ℤ (pos 0) (text_quota n new_from_float quota_per_unit usage price) ≡ true
  unfolding text_quota text_price
  text_quota-nonneg quota_per_unit usage price ratio finite fits =
      let tokens = weighted_tokens n new_from_float usage price in
      let r = text_ratio n new_from_float price in
      rw ratio (at_least_one-fine n (n.mul tokens r) r (n.mul-zero tokens r finite) fits).1

  calculate_audio_quota-nonneg :
      (quota_per_unit : F) (info : QuotaInfo F)
      → info.use_price ≡ false
      → n.is_finite (weighted_audio n new_from_float info) ≡ true
      → n.fits (n.mul (weighted_audio n new_from_float info) (audio_ratio_of n new_from_float info))
        ≡ true
      → leb_ℤ (pos 0) (calculate_audio_quota n new_from_float quota_per_unit info) ≡ true
  unfolding calculate_audio_quota
  calculate_audio_quota-nonneg quota_per_unit info ratio finite fits =
      let tokens = weighted_audio n new_from_float info in
      let r = audio_ratio_of n new_from_float info in
      rw ratio (at_least_one-fine n (n.mul tokens r) r (n.mul-zero tokens r finite) fits).1

-- Priced by ratios, a request never costs less than nothing, whatever usage the upstream reports,
-- even more cached tokens than there were in the prompt: neither by `postConsumeQuota` nor by
-- `calculateAudioQuota`. The sums of weighted tokens are to be finite, and their products with the
-- ratio to be in the range in which `IntPart` is exact.
pub quota-IsNonNegative :
    {F : Type 0} (n : Numbers) (new_from_float : F → n.Num) (quota_per_unit : F) (usage : Usage)
    (price : PriceData F) (info : QuotaInfo F)
    → price.use_price ≡ false
    → info.use_price ≡ false
    → n.is_finite (weighted_tokens n new_from_float usage price) ≡ true
    → n.is_finite (weighted_audio n new_from_float info) ≡ true
    → n.fits
        (n.mul (weighted_tokens n new_from_float usage price) (text_ratio n new_from_float price))
      ≡ true
    → n.fits (n.mul (weighted_audio n new_from_float info) (audio_ratio_of n new_from_float info))
      ≡ true
    → (leb_ℤ (pos 0) (text_quota n new_from_float quota_per_unit usage price) ≡ true)
      × (leb_ℤ (pos 0) (calculate_audio_quota n new_from_float quota_per_unit info) ≡ true)
quota-IsNonNegative n new_from_float quota_per_unit usage price info text audio finite finite' fits
      fits' =
    (
      text_quota-nonneg n new_from_float quota_per_unit usage price text finite fits,
      calculate_audio_quota-nonneg n new_from_float quota_per_unit info audio finite' fits',
    )

-- A group whose ratio is zero: a text request priced by the ratios costs nothing, but a Claude
-- request of the same prices, if the model's ratio is another than zero, costs 1, since
-- `PostClaudeConsumeQuota` asks for the model's ratio only. The sums of weighted tokens, and the
-- factors, are to be finite.
pub claude_quota-charges_free_group :
    {F : Type 0} (n : Numbers) (new_from_float : F → n.Num) (quota_per_unit : F) (usage : Usage)
    (price : PriceData F) (claude_usage : Usage) (claude_price : PriceData n.Num)
    → price.use_price ≡ false
    → claude_price.use_price ≡ false
    → n.is_zero (new_from_float price.group_ratio) ≡ true
    → n.is_zero claude_price.group_ratio ≡ true
    → n.is_zero claude_price.model_ratio ≡ false
    → n.is_finite (new_from_float price.model_ratio) ≡ true
    → n.is_finite claude_price.model_ratio ≡ true
    → n.is_finite (weighted_tokens n new_from_float usage price) ≡ true
    → n.is_finite (claude_tokens n claude_usage claude_price) ≡ true
    → (text_quota n new_from_float quota_per_unit usage price ≡ pos 0)
      × (claude_quota n (new_from_float quota_per_unit) claude_usage claude_price ≡ pos 1)
unfolding text_quota text_price claude_quota
claude_quota-charges_free_group n new_from_float quota_per_unit usage price claude_usage
      claude_price text claude free free' some_model model model' finite finite' =
    let ratio =
      n.mul-zero (new_from_float price.model_ratio) (new_from_float price.group_ratio) model free in
    let x =
      n.mul (weighted_tokens n new_from_float usage price) (text_ratio n new_from_float price) in
    let zero =
      n.mul-zero (weighted_tokens n new_from_float usage price) (text_ratio n new_from_float price)
        finite ratio in
    let none_left =
      n.zero-mul (n.mul (claude_tokens n claude_usage claude_price) claude_price.group_ratio)
        claude_price.model_ratio
        (n.mul-zero (claude_tokens n claude_usage claude_price) claude_price.group_ratio finite'
          free')
        model' in
    (
      rw text (at_least_one-free n x (text_ratio n new_from_float price) ratio zero),
      rw claude (
          at_least_one-one n
            (n.mul (n.mul (claude_tokens n claude_usage claude_price) claude_price.group_ratio)
              claude_price.model_ratio)
            claude_price.model_ratio some_model none_left),
    )
