-- ===== src/Billing/PriceTests.antt =====
-- Prices of whole numbers, and requests that they price.
use mathlib.Core.Logic.{◌≢◌}
use veloera.Billing.Whole.{whole}
use veloera.Base.{ℕ, ◌≡◌, refl, Bool, true, false, none, some, ℤ, pos, ◌+ℤ◌, ◌-ℤ◌, leb_ℤ, arith}
use veloera.Billing.Price.{
  PriceData, Usage, QuotaInfo, AudioUsage, AudioRatios, quota_info_of, text_quota, text_price,
  claude_quota, calculate_audio_quota, should_pre_consumed_quota,
}
use veloera.Base.{◌^◌, ◌==◌, if◌then◌else◌}
use veloera.Base.Dict.{lookup}
use veloera.Store.Database.{Tables}
use veloera.Store.Example.{in_memory, tables, alice_token}
use veloera.Quota.World.{World, err, db_error}
use veloera.Billing.Info.{RelayInfo}
use veloera.Billing.Charged.{IsCalm, size}
use veloera.Billing.Settle.{Charges}
use veloera.Billing.Text.{text_helper, answered}
use veloera.Billing.Conclude.{cost_of}
use veloera.Base.{int64}
use veloera.Billing.Posted.{audio_cost, posts-Charges, post_audio_consume_quota-refunds_fixed_price}
use veloera.Billing.Posts.{
  text_answer, total_of, post_claude_consume_quota, post_audio_consume_quota,
  post_wss_consume_quota,
}
use veloera.Billing.Prices.{quota-IsNonNegative, claude_quota-charges_free_group}
use veloera.Billing.Paid.{Settled, text_helper-IsPaid}
use veloera.Billing.Realtime.{trim_left, pre_wss_consume_quota}
use veloera.Billing.Turns.{pre_wss_consume_quota-Charges, pre_wss_consume_quota-misses}
use veloera.Billing.Tests.{batching, misses, info, world, works}

abbrev prices : Bool → ℤ → ℤ → PriceData ℤ
prices use_price model group = record {
  model_price = pos 2;
  model_ratio = model;
  completion_ratio = pos 3;
  cache_ratio = pos 0;
  group_ratio = group;
  use_price = use_price;
  cache_creation_ratio = pos 1;
}

-- More tokens from the cache than there were in the prompt.
abbrev cached : Usage
cached = record {
  prompt_tokens = pos 5;
  completion_tokens = pos 1;
  total_tokens = pos 6;
  cached_tokens = pos 9;
  cached_creation_tokens = pos 0;
}

abbrev pub audio_ratios : AudioRatios ℤ
audio_ratios = record {
  float_zero = pos 0;
  completion_ratio = pos 3;
  audio_ratio = pos 4;
  audio_completion_ratio = pos 2;
}

abbrev pub audio_usage : AudioUsage
audio_usage = record {
  total_tokens = pos 9;
  input_details = record { text_tokens = pos 5; audio_tokens = pos 2 };
  output_details = record { text_tokens = pos 1; audio_tokens = pos 1 };
}

abbrev spoken : QuotaInfo ℤ
spoken = record {
  input_details = record { text_tokens = pos 5; audio_tokens = pos 2 };
  output_details = record { text_tokens = pos 1; audio_tokens = pos 1 };
  use_price = false;
  model_price = pos 2;
  model_ratio = pos 2;
  group_ratio = pos 1;
  completion_ratio = pos 3;
  audio_ratio = pos 4;
  audio_completion_ratio = pos 2;
}

least_price : text_quota whole (λ x. x) (pos 7) cached (prices false (pos 2) (pos 1)) ≡ pos 1
unfolding text_quota text_price ◌+ℤ◌ ◌-ℤ◌
least_price = refl

spoken_price : calculate_audio_quota whole (λ x. x) (pos 7) spoken ≡ pos 48
unfolding calculate_audio_quota ◌+ℤ◌
spoken_price = refl

quota-IsNonNegative_example :
    (leb_ℤ (pos 0) (text_quota whole (λ x. x) (pos 7) cached (prices false (pos 2) (pos 1))) ≡ true)
    × (leb_ℤ (pos 0) (calculate_audio_quota whole (λ x. x) (pos 7) spoken) ≡ true)
quota-IsNonNegative_example =
    quota-IsNonNegative whole (λ x. x) (pos 7) cached (prices false (pos 2) (pos 1)) spoken refl
      refl refl refl refl refl

claude_quota-charges_free_group_example :
    (text_quota whole (λ x. x) (pos 7) cached (prices false (pos 2) (pos 0)) ≡ pos 0)
    × (claude_quota whole (pos 7) cached (prices false (pos 2) (pos 0)) ≡ pos 1)
claude_quota-charges_free_group_example =
    claude_quota-charges_free_group whole (λ x. x) (pos 7) cached (prices false (pos 2) (pos 0))
      cached (prices false (pos 2) (pos 0)) refl refl refl refl refl refl refl refl refl

text_is_one : size (text_quota whole (λ x. x) (pos 7) cached (prices false (pos 2) (pos 1))) ≡ 1
unfolding text_quota text_price ◌+ℤ◌ ◌-ℤ◌
text_is_one = refl

IsCalm-world : IsCalm 1 3 world (2 ^ 60)
unfolding lookup
IsCalm-world = ((omega arith, omega arith), (omega arith, omega arith))

text_helper-IsPaid_example :
    (k : ℕ) × Settled info world (pos k) (
      text_helper batching
        (pos 0)
        info
        misses
        (pos 50)
        (pos 20)
        (text_answer whole (λ x. x) (pos 7) info (some cached) (prices false (pos 2) (pos 1)))
        world)
text_helper-IsPaid_example =
    text_helper-IsPaid whole (λ x. x) (pos 7) (some cached) (prices false (pos 2) (pos 1)) batching
      (pos 0) info misses world (pos 50) 20 refl refl refl works IsCalm-world (omega arith)
      (omega (arith, text_is_one))

-- A key that the trimming leaves as it is.
abbrev kept_key : RelayInfo
kept_key = record info { token_key = "9k" }

abbrev kept_world : World Tables
kept_world = record world {
  db = record tables {
    tokens = λ i. if i == 3 then some (record alice_token { key = "9k" }) else none;
  };
}

kept :
    in_memory.first_token (trim_left "9k") kept_world.db ≡ some (record alice_token { key = "9k" })
unfolding trim_left
kept = refl

IsCalm-kept_world : IsCalm 1 3 kept_world 8
unfolding lookup
IsCalm-kept_world = ((omega arith, omega arith), (omega arith, omega arith))

pre_wss_consume_quota-Charges_example :
    Charges 1 3
      (pre_wss_consume_quota batching (pos 0) kept_key misses false (pos 20))
      kept_world
      (pos 20)
      (pos 20)
      40
pre_wss_consume_quota-Charges_example =
    pre_wss_consume_quota-Charges batching (pos 0) kept_key misses kept_world (pos 100) (pos 20)
      (record alice_token { key = "9k" }) 8 works refl refl kept refl refl IsCalm-kept_world
      (omega arith)

no_trimmed : in_memory.first_token (trim_left "sk") world.db ≡ none
unfolding trim_left
no_trimmed = refl

-- The token "sk" is there.
pre_wss_consume_quota-misses_example :
    (trim_left "sk" ≢ "sk")
    × (pre_wss_consume_quota batching (pos 0) info misses false (pos 20) world
        ≡ (err db_error, world))
pre_wss_consume_quota-misses_example =
    pre_wss_consume_quota-misses batching (pos 0) info misses world (pos 20) "s" "k" refl refl refl
      no_trimmed

abbrev claude_cost : ℤ
claude_cost =
    cost_of (
      answered (total_of cached) (claude_quota whole (pos 7) cached (prices false (pos 2) (pos 1))))

abbrev spoken_cost : ℤ
spoken_cost =
    audio_cost whole (λ x. x) (pos 7) batching (pos 0) info world (2 ^ 60) 20 audio_ratios
      audio_usage (prices false (pos 2) (pos 1))

claude_differs : size (claude_cost -ℤ pos 20) ≡ 4
unfolding claude_quota int64 ◌+ℤ◌ ◌-ℤ◌
claude_differs = refl

spoken_differs : size (spoken_cost -ℤ pos 20) ≡ 28
unfolding calculate_audio_quota quota_info_of ◌+ℤ◌ ◌-ℤ◌
spoken_differs = refl

posts-Charges_example :
    ((k : ℕ) × Charges 1 3
        (post_claude_consume_quota batching
          (pos 0)
          info
          whole
          (pos 7)
          cached
          (pos 20)
          (prices false (pos 2) (pos 1)))
        world
        (claude_cost -ℤ pos 20)
        (claude_cost -ℤ pos 20)
        k)
    × ((k : ℕ) × Charges 1 3
          (post_audio_consume_quota batching
            (pos 0)
            info
            whole
            (λ x. x)
            (pos 7)
            audio_ratios
            audio_usage
            (pos 20)
            (prices false (pos 2) (pos 1)))
          world
          (spoken_cost -ℤ pos 20)
          (spoken_cost -ℤ pos 20)
          k)
    × Charges 1 3
        (post_wss_consume_quota batching
          (pos 0)
          info
          whole
          (λ x. x)
          (pos 7)
          audio_ratios
          audio_usage
          false
          (pos 2)
          (pos 1))
        world
        (pos 0)
        (pos 0)
        0
posts-Charges_example =
    posts-Charges whole (λ x. x) (pos 7) batching (pos 0) info world (2 ^ 60) 20 audio_ratios
      audio_usage (prices false (pos 2) (pos 1)) cached (prices false (pos 2) (pos 1)) works
      IsCalm-world (omega (arith, claude_differs)) (omega (arith, spoken_differs))

hold_returned : size (pos 0 -ℤ pos 20) ≡ 20
unfolding ◌-ℤ◌
hold_returned = refl

post_audio_consume_quota-refunds_fixed_price_example :
    (k : ℕ) × Charges 1 3
      (post_audio_consume_quota batching
        (pos 0)
        info
        whole
        (λ x. x)
        (pos 7)
        audio_ratios
        audio_usage
        (pos 20)
        (prices true (pos 2) (pos 1)))
      world
      (pos 0 -ℤ pos 20)
      (pos 0 -ℤ pos 20)
      k
post_audio_consume_quota-refunds_fixed_price_example =
    post_audio_consume_quota-refunds_fixed_price whole (λ x. x) (pos 7) batching (pos 0) info world
      (2 ^ 60) 20 audio_ratios audio_usage (prices true (pos 2) (pos 1)) refl refl refl refl works
      IsCalm-world (omega (arith, hold_returned))

-- A default of 500 tokens is held where no bound of the answer is known.
held_by_default :
    should_pre_consumed_quota whole (pos 7) (pos 500) (pos 5) (pos 0) (prices false (pos 2) (pos 1))
    ≡ pos 1000
unfolding should_pre_consumed_quota
held_by_default = refl
