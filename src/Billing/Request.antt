-- ===== src/Billing/Request.antt =====
-- `TextHelper` of relay/relay-text.go: the accounts after a request.
use veloera.Base.{
  ℕ, ◌≡◌, ◌+◌, ◌≤◌, ◌<◌, ◌^◌, inl, inr, ◌⊎◌, refl, ℤ, pos, negsuc, ◌+ℤ◌, ◌-ℤ◌, int_laws, arith,
  Bool-cases,
}
use veloera.Store.Database.{Database}
use veloera.Quota.World.{Error, World, Config, Result, ok, err}
use veloera.Quota.Effective.{user_balance, token_remain, token_used, Moves}
use veloera.Quota.Effective.Flush.{Works}
use veloera.Billing.Info.{RelayInfo, CacheAnswers}
use veloera.Billing.Text.{pre_consume_quota, Upstream, conclude, text_helper}
use veloera.Billing.Charged.{IsCalm, Charged, Charged-trans, size}
use veloera.Billing.Settle.{token_share}
use veloera.Billing.Reads.{Unchanged}
use veloera.Billing.Conclude.{ending, cost_of, conclude-Concluded}
use veloera.Billing.Hold.{Held, pre_consume_quota-Held}

-- The request was refused before anything was held, with the error of `preConsumeQuota`, and the
-- accounts are as they were; or it ended as its upstream did, the user has paid the cost, and so has
-- the token, unless it is the playground's, and nobody else's account has moved.
abbrev pub Ended :
    ⦃d : Database⦄
    → RelayInfo
    → World d.State
    → Upstream
    → Result (ℤ × ℤ)
    → Result (Unit {0}) × World d.State
    → Type 0
Ended info w upstream held (r, w') =
    ((e : Error) × (held ≡ err e) × (r ≡ err e) × Unchanged w w')
    ⊎ ((h : ℤ × ℤ) × (held ≡ ok h)
        × (r ≡ ending upstream)
        × Moves (user_balance w.db w.stores) (user_balance w'.db w'.stores) info.user_id
            (pos 0 -ℤ cost_of upstream)
        × Moves (token_remain w.db w.stores) (token_remain w'.db w'.stores) info.token_id
            (pos 0 -ℤ token_share info (cost_of upstream))
        × Moves (token_used w.db w.stores) (token_used w'.db w'.stores) info.token_id
            (token_share info (cost_of upstream)))

net : (h : ℕ) (x : ℤ) → pos h +ℤ (x -ℤ pos h) ≡ x
net h x = omega int_laws

net_share :
    (info : RelayInfo) (h : ℕ) (x : ℤ)
    → token_share info (pos h) +ℤ token_share info (x -ℤ pos h) ≡ token_share info x
net_share info h x = elim (Bool-cases info.is_playground) [
  | inl playground ↦ rw playground (omega int_laws)
  | inr real ↦ rw real (net h x)
]

size_net : (h : ℕ) (x : ℤ) → size (x -ℤ pos h) ≤ size x + h
unfolding ◌-ℤ◌
size_net h (pos n) = ground arith
size_net h (negsuc n) = ground arith

module _ ⦃d : Database⦄ (works : Works) (c : Config) (now : ℤ) (info : RelayInfo) where
  Ended-conclude :
      (w : World d.State) (q : ℕ) (upstream : Upstream) (r : Result (ℤ × ℤ) × World d.State)
      → Held works c now info w q r
      → IsCalm info.user_id info.token_id w (2 ^ 60)
      → q < 2 ^ 56
      → size (cost_of upstream) < 2 ^ 60
      → Ended info w upstream r.0 (elim r.0 as (λ _. Result (Unit {0}) × World d.State) [
        | ok (held, user_quota) ↦ conclude c now info upstream held r.1
        | err e ↦ (err e, r.1)
      ])
  Ended-conclude w q upstream (err e, w') same calm few small = inl (e, refl, refl, same)
  Ended-conclude w q upstream (ok (held, user_quota), w') (h, le, e, charged) calm few small =
      let cost : ℤ = cost_of upstream in
      let (k, fine, more) =
        conclude-Concluded works c now info w' (2 ^ 60 + (h + h)) h upstream
          (charged.drift (2 ^ 60) calm (omega arith)) (omega arith)
          (omega (arith, size_net h (cost_of upstream))) in
      let all : Charged info.user_id info.token_id w (conclude c now info upstream (pos h) w').1
          cost (token_share info cost) (h + h + k) =
        Charged-trans info.user_id info.token_id (net h cost) (net_share info h cost) charged
          more in
      rw e (inr ((pos h, user_quota), refl, fine, all.user, all.remain, all.used))

-- `TextHelper`: if `preConsumeQuota` refuses the request, that is its error, and the database and the
-- updater's maps are as they were; otherwise, whatever was held before, it returns the upstream's
-- error or succeeds with its answer, the user's balance has fallen by exactly what the answer costs,
-- what remains to the token has fallen by the same and what it has used has risen by it, or by
-- nothing in the playground, and no other user's balance or token has moved. An error of the
-- upstream, or an answer of no tokens, costs nothing. The statements that write are to succeed, the
-- quota to be held is less than 2^56, the cost less than 2^60 on either side of zero, and what is
-- pending for the user and the token at most 2^60.
pub text_helper-settles :
    ⦃d : Database⦄ (c : Config) (now : ℤ) (info : RelayInfo) (cache : CacheAnswers)
    (w : World d.State) (token_quota : ℤ) (q : ℕ) (upstream : Upstream)
    → Works
    → IsCalm info.user_id info.token_id w (2 ^ 60)
    → q < 2 ^ 56
    → size (cost_of upstream) < 2 ^ 60
    → Ended info w upstream
        (pre_consume_quota c now info cache token_quota (pos q) w).0
        (text_helper c now info cache token_quota (pos q) upstream w)
unfolding text_helper
text_helper-settles c now info cache w token_quota q upstream works calm few small =
    Ended-conclude works c now info w q upstream
      (pre_consume_quota c now info cache token_quota (pos q) w)
      (pre_consume_quota-Held works c now info cache w (2 ^ 60) q token_quota calm (omega arith))
      calm few small
