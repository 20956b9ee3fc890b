-- ===== src/Billing/Price.antt =====
-- relay/helper/price.go, relay/relay-text.go and service/quota.go: what a request costs. The
-- package `decimal`, and the floats of Go, are a parameter: `Numbers`.
use veloera.Base.{
  ◌≡◌, Bool, true, false, eqb_ℤ, not, ◌&&◌, Option, none, some, if◌then◌else◌, ℤ, pos, ◌+ℤ◌, leb_ℤ,
  int64,
}
use veloera.Billing.Info.{RelayInfo}

pub record Numbers : Type 1 where
  pub Num : Type 0
  pub new_from_int : ℤ → Num
  pub add : Num → Num → Num
  pub sub : Num → Num → Num
  pub mul : Num → Num → Num
  pub is_zero : Num → Bool
  -- `x <= 0`
  pub le_zero : Num → Bool
  -- `Round(0)`
  pub round : Num → Num
  -- `IntPart()`, or the conversion to `int`.
  pub int_part : Num → ℤ
  -- Whether it is a number, and no infinity: of decimals each.
  pub is_finite : Num → Bool
  -- Whether `int_part` is exact for it, and for what it rounds to.
  pub fits : Num → Bool
  pub zero-mul : (x y : Num) → is_zero x ≡ true → is_finite y ≡ true → is_zero (mul x y) ≡ true
  pub mul-zero : (x y : Num) → is_finite x ≡ true → is_zero y ≡ true → is_zero (mul x y) ≡ true
  pub zero_le_zero : (x : Num) → is_zero x ≡ true → le_zero x ≡ true
  pub zero_int_part : (x : Num) → is_zero x ≡ true → int_part x ≡ pos 0
  pub zero_round : (x : Num) → is_zero x ≡ true → is_zero (round x) ≡ true
  pub positive_int_part :
      (x : Num)
      → le_zero x ≡ false
      → fits x ≡ true
      → (leb_ℤ (pos 0) (int_part x) ≡ true) × (leb_ℤ (pos 0) (int_part (round x)) ≡ true)
  pub one_int_part :
      (int_part (new_from_int (pos 1)) ≡ pos 1) × (int_part (round (new_from_int (pos 1))) ≡ pos 1)

-- `PriceData`, over a type of floats.
pub record PriceData (F : Type 0) : Type 0 where
  pub model_price : F
  pub model_ratio : F
  pub completion_ratio : F
  pub cache_ratio : F
  pub group_ratio : F
  pub use_price : Bool
  pub cache_creation_ratio : F

-- `dto.Usage`, as far as billing reads it.
pub record Usage : Type 0 where
  pub prompt_tokens : ℤ
  pub completion_tokens : ℤ
  pub total_tokens : ℤ
  pub cached_tokens : ℤ
  pub cached_creation_tokens : ℤ

-- `TokenDetails` and `QuotaInfo`, with the ratios that the tables of model-ratio.go have for the
-- model.
pub record TokenDetails : Type 0 where
  pub text_tokens : ℤ
  pub audio_tokens : ℤ

pub record QuotaInfo (F : Type 0) : Type 0 where
  pub input_details : TokenDetails
  pub output_details : TokenDetails
  pub use_price : Bool
  pub model_price : F
  pub model_ratio : F
  pub group_ratio : F
  pub completion_ratio : F
  pub audio_ratio : F
  pub audio_completion_ratio : F

-- What the settlements of audio and realtime requests read of `dto.Usage` and `dto.RealtimeUsage`.
pub record AudioUsage : Type 0 where
  pub total_tokens : ℤ
  pub input_details : TokenDetails
  pub output_details : TokenDetails

-- The ratios that the tables of model-ratio.go have for the model, and the zero of the floats.
pub record AudioRatios (F : Type 0) : Type 0 where
  pub float_zero : F
  pub completion_ratio : F
  pub audio_ratio : F
  pub audio_completion_ratio : F

-- The `QuotaInfo` that the settlements build: they leave `ModelPrice` at zero.
unfoldable pub quota_info_of :
    {F : Type 0} → AudioRatios F → AudioUsage → Bool → F → F → QuotaInfo F
quota_info_of ratios usage use_price model_ratio group_ratio = record {
  input_details = usage.input_details;
  output_details = usage.output_details;
  use_price = use_price;
  model_price = ratios.float_zero;
  model_ratio = model_ratio;
  group_ratio = group_ratio;
  completion_ratio = ratios.completion_ratio;
  audio_ratio = ratios.audio_ratio;
  audio_completion_ratio = ratios.audio_completion_ratio;
}

-- Without a usage, that of a request whose answer has no tokens.
abbrev pub usage_or_prompt : RelayInfo → Option Usage → Usage
usage_or_prompt info none = record {
  prompt_tokens = info.prompt_tokens;
  completion_tokens = pos 0;
  total_tokens = info.prompt_tokens;
  cached_tokens = pos 0;
  cached_creation_tokens = pos 0;
}
usage_or_prompt info (some usage) = usage

module _ (n : Numbers) where
  -- `if applies && x <= 0 { x = 1 }`
  abbrev pub at_least_one : Bool → n.Num → n.Num
  at_least_one applies x = if applies && n.le_zero x then n.new_from_int (pos 1) else x

  -- The tokens' part of `PostClaudeConsumeQuota`, before the ratios.
  abbrev pub claude_tokens : Usage → PriceData n.Num → n.Num
  claude_tokens usage price =
      n.add
        (n.add
          (n.add (n.new_from_int usage.prompt_tokens)
            (n.mul (n.new_from_int usage.cached_tokens) price.cache_ratio))
          (n.mul (n.new_from_int usage.cached_creation_tokens) price.cache_creation_ratio))
        (n.mul (n.new_from_int usage.completion_tokens) price.completion_ratio)

  -- `PostClaudeConsumeQuota`: the floats, which `int` cuts.
  unfoldable pub claude_quota : n.Num → Usage → PriceData n.Num → ℤ
  claude_quota quota_per_unit usage price = n.int_part (
      at_least_one (not (n.is_zero price.model_ratio)) (
        if price.use_price
        then n.mul (n.mul price.model_price quota_per_unit) price.group_ratio
        else n.mul (n.mul (claude_tokens usage price) price.group_ratio) price.model_ratio))

  -- `ModelPriceHelper`: what a request is to hold, of floats.
  unfoldable pub should_pre_consumed_quota : n.Num → ℤ → ℤ → ℤ → PriceData n.Num → ℤ
  should_pre_consumed_quota quota_per_unit default_tokens prompt completion price =
      if price.use_price
      then n.int_part (n.mul (n.mul price.model_price quota_per_unit) price.group_ratio)
      else n.int_part (
          n.mul
            (n.new_from_int
              (if eqb_ℤ completion (pos 0) then default_tokens else int64 (prompt +ℤ completion)))
            (n.mul price.model_ratio price.group_ratio))

module _ {F : Type 0} (n : Numbers) (new_from_float : F → n.Num) where
  -- The tokens' part of `postConsumeQuota`, before the ratio.
  abbrev pub weighted_tokens : Usage → PriceData F → n.Num
  weighted_tokens usage price =
      n.add
        (n.add (n.sub (n.new_from_int usage.prompt_tokens) (n.new_from_int usage.cached_tokens))
          (n.mul (n.new_from_int usage.cached_tokens) (new_from_float price.cache_ratio)))
        (n.mul (n.new_from_int usage.completion_tokens) (new_from_float price.completion_ratio))

  abbrev pub text_ratio : PriceData F → n.Num
  text_ratio price = n.mul (new_from_float price.model_ratio) (new_from_float price.group_ratio)

  -- `quotaCalculateDecimal` of `postConsumeQuota`.
  unfoldable pub text_price : F → Usage → PriceData F → n.Num
  text_price quota_per_unit usage price =
      if not price.use_price
      then at_least_one n (not (n.is_zero (text_ratio price)))
          (n.mul (weighted_tokens usage price) (text_ratio price))
      else n.mul (n.mul (new_from_float price.model_price) (new_from_float quota_per_unit))
          (new_from_float price.group_ratio)

  unfoldable pub text_quota : F → Usage → PriceData F → ℤ
  unfolding text_price
  text_quota quota_per_unit usage price =
      n.int_part (n.round (text_price quota_per_unit usage price))

  -- `calculateAudioQuota`, before the ratio.
  abbrev pub weighted_audio : QuotaInfo F → n.Num
  weighted_audio info =
      n.add
        (n.add
          (n.add (n.add (n.new_from_int (pos 0)) (n.new_from_int info.input_details.text_tokens)) (
            n.mul (n.new_from_int info.output_details.text_tokens)
              (new_from_float info.completion_ratio)))
          (n.mul (n.new_from_int info.input_details.audio_tokens)
            (new_from_float info.audio_ratio)))
        (n.mul
          (n.mul (n.new_from_int info.output_details.audio_tokens)
            (new_from_float info.audio_ratio))
          (new_from_float info.audio_completion_ratio))

  abbrev pub audio_ratio_of : QuotaInfo F → n.Num
  audio_ratio_of info = n.mul (new_from_float info.group_ratio) (new_from_float info.model_ratio)

  -- `calculateAudioQuota`
  unfoldable pub calculate_audio_quota : F → QuotaInfo F → ℤ
  calculate_audio_quota quota_per_unit info =
      if info.use_price
      then n.int_part (
          n.mul (n.mul (new_from_float info.model_price) (new_from_float quota_per_unit))
            (new_from_float info.group_ratio))
      else n.int_part (
          n.round (
            at_least_one n (not (n.is_zero (audio_ratio_of info)))
              (n.mul (weighted_audio info) (audio_ratio_of info))))
