-- ===== src/Billing/Paid.antt =====
-- `TextHelper` of relay/relay-text.go with the price that `postConsumeQuota` computes.
use veloera.Base.{
  ℕ, ◌<◌, ◌≤◌, ◌^◌, ◌≡◌, refl, subst, true, false, Option, ℤ, pos, negsuc, ◌-ℤ◌, leb_ℤ, eqb_ℤ,
  arith, Bool-cases, inl, inr,
}
use veloera.Store.Database.{Database}
use veloera.Quota.World.{World, Config, Result, ok, err}
use veloera.Quota.Effective.Flush.{Works}
use veloera.Quota.Effective.{user_balance, token_remain, token_used, Moves}
use veloera.Billing.Settle.{token_share}
use veloera.Billing.Reads.{Unchanged}
use veloera.Billing.Info.{RelayInfo, CacheAnswers}
use veloera.Billing.Text.{text_helper, answered, pre_consume_quota}
use veloera.Billing.Charged.{IsCalm, size}
use veloera.Billing.Conclude.{cost_of}
use veloera.Billing.Request.{Ended, text_helper-settles}
use veloera.Billing.Price.{
  Numbers, PriceData, Usage, usage_or_prompt, text_quota, text_ratio, weighted_tokens,
}
use veloera.Billing.Posts.{total_of, text_answer}
use veloera.Billing.Prices.{text_quota-nonneg}

-- A request with an answer: it was refused, and the accounts are as they were; or the user has paid
-- the cost, and so has the token, unless it is the playground's, and nobody else's account has moved.
abbrev pub Settled :
    ⦃d : Database⦄ → RelayInfo → World d.State → ℤ → Result (Unit {0}) × World d.State → Type 0
Settled info w cost (ok _, w') =
    Moves (user_balance w.db w.stores) (user_balance w'.db w'.stores) info.user_id (pos 0 -ℤ cost)
    × Moves (token_remain w.db w.stores) (token_remain w'.db w'.stores) info.token_id
        (pos 0 -ℤ token_share info cost)
    × Moves (token_used w.db w.stores) (token_used w'.db w'.stores) info.token_id
        (token_share info cost)
Settled info w cost (err _, w') = Unchanged w w'

Ended-Settled :
    ⦃d : Database⦄ (info : RelayInfo) (w : World d.State) (total computed : ℤ)
    (held : Result (ℤ × ℤ)) (r : Result (Unit {0}) × World d.State)
    → Ended info w (answered total computed) held r
    → Settled info w (cost_of (answered total computed)) r
Ended-Settled info w total computed held (ok _, w') (inl (e, refused, bad, same)) = cc
Ended-Settled info w total computed held (ok _, w') (inr (h, e, fine, a, b, x)) = (a, b, x)
Ended-Settled info w total computed held (err _, w') (inl (e, refused, bad, same)) = same
Ended-Settled info w total computed held (err _, w') (inr (h, e, fine, a, b, x)) = cc

natural : (q : ℤ) → leb_ℤ (pos 0) q ≡ true → (k : ℕ) × (q ≡ pos k)
natural (pos k) h = (k, refl)
natural (negsuc k) h = ground arith

cost-natural :
    (total q : ℤ) → leb_ℤ (pos 0) q ≡ true → (k : ℕ) × (cost_of (answered total q) ≡ pos k)
cost-natural total q h = elim (Bool-cases (eqb_ℤ total (pos 0))) [
  | inl none_used ↦ (0, rw none_used refl)
  | inr used ↦ let (k, e) = natural q h in (k, rw used e)
]

size-cost : (total q : ℤ) → size (cost_of (answered total q)) ≤ size q
size-cost total q = elim (Bool-cases (eqb_ℤ total (pos 0))) [
  | inl none_used ↦ rw none_used (omega arith)
  | inr used ↦ rw used (omega arith)
]

-- A text request priced by ratios never pays its user: whatever usage the channel reports, or none,
-- the request was refused and the accounts are as they were, or the user has paid a natural number
-- of quota, the token has paid as much, or nothing in the playground, and no other account has
-- moved. The statements that write are to succeed, what is pending is at most 2^60, the hold is
-- below 2^56, and the price below 2^60; the weighted tokens are finite and the price is in the
-- range of `IntPart`.
pub text_helper-IsPaid :
    {F : Type 0} ⦃d : Database⦄ (n : Numbers) (new_from_float : F → n.Num) (quota_per_unit : F)
    (usage : Option Usage) (price : PriceData F) (c : Config) (now : ℤ) (info : RelayInfo)
    (cache : CacheAnswers) (w : World d.State) (token_quota : ℤ) (q : ℕ)
    → price.use_price ≡ false
    → n.is_finite (weighted_tokens n new_from_float (usage_or_prompt info usage) price) ≡ true
    → n.fits (
        n.mul
          (weighted_tokens n new_from_float (usage_or_prompt info usage) price)
          (text_ratio n new_from_float price))
      ≡ true
    → Works
    → IsCalm info.user_id info.token_id w (2 ^ 60)
    → q < 2 ^ 56
    → size (text_quota n new_from_float quota_per_unit (usage_or_prompt info usage) price) < 2 ^ 60
    → (k : ℕ) × Settled info w (pos k) (
        text_helper c now info cache token_quota
          (pos q)
          (text_answer n new_from_float quota_per_unit info usage price)
          w)
unfolding text_answer
text_helper-IsPaid n new_from_float quota_per_unit usage price c now info cache w token_quota q
      ratio finite fits works calm few small =
    let total = total_of (usage_or_prompt info usage) in
    let computed = text_quota n new_from_float quota_per_unit (usage_or_prompt info usage) price in
    let (k, e) = cost-natural total computed (
      text_quota-nonneg n new_from_float quota_per_unit (usage_or_prompt info usage) price ratio
        finite fits) in
    let settled : Settled info w (cost_of (answered total computed))
        (text_helper c now info cache token_quota (pos q) (answered total computed) w) =
      Ended-Settled info w total computed
        (pre_consume_quota c now info cache token_quota (pos q) w).0
        (text_helper c now info cache token_quota (pos q) (answered total computed) w)
        (text_helper-settles c now info cache w token_quota q (answered total computed) works calm
          few (omega (arith, size-cost total computed))) in
    (
      k,
      subst
          (λ (cost : ℤ).
            Settled info w cost
              (text_helper c now info cache token_quota (pos q) (answered total computed) w))
          e settled,
    )
