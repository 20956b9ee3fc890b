-- ===== src/Billing/Hold.antt =====
-- `preConsumeQuota` of relay/relay-text.go: what it holds.
use veloera.Base.{
  ℕ, Bool, true, false, ◌≡◌, refl, ◌+◌, ◌≤◌, ◌<◌, ◌^◌, inl, inr, ◌⊎◌, ℤ, pos, ◌-ℤ◌, ltb_ℤ, leb_ℤ,
  int64, arith, Bool-cases, hundred,
}
use veloera.Store.Database.{Database}
use veloera.Quota.World.{
  World, Config, Result, ok, err, Error, Action, ◌>>◌, pure, fail_if, bind-induction, or_wrap,
  or_wrap-induction, insufficient_user_quota, get_user_quota_failed,
}
use veloera.Quota.Effective.Flush.{Works}
use veloera.Billing.Info.{RelayInfo, CacheAnswers}
use veloera.Billing.Lookup.{get_user_quota}
use veloera.Billing.Text.{held_quota, hold, pre_consume_quota}
use veloera.Billing.Charged.{IsCalm, Charged}
use veloera.Billing.Settle.{token_share}
use veloera.Billing.Reads.{Unchanged, Unchanged-trans, get_user_quota-IsRead}
use veloera.Billing.Outcome.{Outcome, Outcome-later, IsCalm-later, hold-Outcome}

-- All of the quota is held, or nothing.
held_quota-cases :
    (info : RelayInfo) (token_quota user_quota quota : ℤ)
    → (held_quota info token_quota user_quota quota ≡ pos 0)
      ⊎ (held_quota info token_quota user_quota quota ≡ quota)
unfolding held_quota
held_quota-cases info token_quota user_quota quota =
    elim (Bool-cases (ltb_ℤ (int64 (hundred quota)) user_quota)) [
      | inr poor ↦ rw poor (inr refl)
      | inl rich ↦ elim (Bool-cases info.token_unlimited) [
        | inl unlimited ↦ rw (rich, unlimited) (inl refl)
        | inr limited ↦ elim (Bool-cases (ltb_ℤ (int64 (hundred quota)) token_quota)) [
          | inl trusted ↦ rw (rich, limited, trusted) (inl refl)
          | inr small ↦ rw (rich, limited, small) (inr refl)
        ]
      ]
    ]

module _ ⦃d : Database⦄ (works : Works) (c : Config) (now : ℤ) (info : RelayInfo) where
  -- What the hold leaves, with what it held and the bound on what is pending.
  abbrev pub Held : World d.State → ℕ → Result (ℤ × ℤ) × World d.State → Type 0
  Held w q (ok (held, user_quota), w') =
      (h : ℕ) × (h ≤ q)
      × (held ≡ pos h)
      × Charged info.user_id info.token_id w w' (pos h) (token_share info (pos h)) (h + h)
  Held w q (err _, w') = Unchanged w w'

  fail_then :
      {A : Type 0} (P : Result A × World d.State → Type 0) (b : Bool) (e : Error)
      (m : Action d.State A) (w : World d.State)
      → P (err e, w)
      → P (m w)
      → P ((fail_if b e >> m) w)
  fail_then P true e m w x y = x
  fail_then P false e m w x y = y

  hold-Held :
      (cache : CacheAnswers) (w : World d.State) (n q : ℕ) (held user_quota : ℤ)
      → (held ≡ pos 0) ⊎ (held ≡ pos q)
      → IsCalm info.user_id info.token_id w n
      → n + q + q < 2 ^ 63
      → Held w q ((hold c now info cache held >> pure (held, user_quota)) w)
  hold-Held cache w n q held user_quota which calm small = elim which [
    | inl none ↦
        part 0 none (omega arith) (hold-Outcome works c now info cache w n 0 calm (omega arith))
    | inr all ↦ part q all (omega arith) (hold-Outcome works c now info cache w n q calm small)
  ]
    where
      finish :
          (h : ℕ) (r : Result (Unit {0}) × World d.State)
          → h ≤ q
          → Outcome info w (pos h) (token_share info (pos h)) (h + h) r
          → Held w q (elim r.0 as (λ _. Result (ℤ × ℤ) × World d.State) [
            | ok a ↦ (ok (pos h, user_quota), r.1)
            | err e ↦ (err e, r.1)
          ])
      finish h (ok a, w') le charged = (h, le, refl, charged)
      finish h (err e, w') le same = same

      part :
          (h : ℕ)
          → held ≡ pos h
          → h ≤ q
          → Outcome info w
              (pos h)
              (token_share info (pos h))
              (h + h)
              (hold c now info cache (pos h) w)
          → Held w q ((hold c now info cache held >> pure (held, user_quota)) w)
      part h e le o = rw e (finish h (hold c now info cache (pos h) w) le o)

  Held-later :
      (w w' : World d.State) (q : ℕ) (r : Result (ℤ × ℤ) × World d.State)
      → Unchanged w w'
      → Held w' q r
      → Held w q r
  Held-later w w' q (ok (held, user_quota), w'') same (h, le, e, charged) = (
    h,
    le,
    e,
    Outcome-later info w w' (pos h) (token_share info (pos h)) (h + h) (ok tt, w'') same charged,
  )
  Held-later w w' q (err e, w'') same kept = Unchanged-trans w w' w'' same kept

  pub pre_consume_quota-Held :
      (cache : CacheAnswers) (w : World d.State) (n q : ℕ) (token_quota : ℤ)
      → IsCalm info.user_id info.token_id w n
      → n + q + q < 2 ^ 63
      → Held w q (pre_consume_quota c now info cache token_quota (pos q) w)
  unfolding pre_consume_quota
  pre_consume_quota-Held cache w n q token_quota calm small =
      let read : Action d.State ℤ =
        or_wrap (get_user_quota c cache info.user_id) get_user_quota_failed in
      let w' : World d.State = (read w).1 in
      let same : Unchanged w w' =
        or_wrap-induction (λ r. Unchanged w r.1) get_user_quota_failed
          (get_user_quota c cache info.user_id) w
          (λ _ _. get_user_quota-IsRead c cache info.user_id w)
          (λ _ _. get_user_quota-IsRead c cache info.user_id w) in
      let held : ℤ → ℤ = λ user_quota. held_quota info token_quota user_quota (pos q) in
      let rest : ℤ → Action d.State (ℤ × ℤ) = λ user_quota.
        hold c now info cache (held user_quota) >> pure (held user_quota, user_quota) in
      bind-induction (Held w q)
        (λ user_quota.
          fail_if (leb_ℤ user_quota (pos 0)) insufficient_user_quota
          >> (fail_if (ltb_ℤ (int64 (user_quota -ℤ pos q)) (pos 0)) insufficient_user_quota
              >> rest user_quota))
        read w (λ _ _. same)
        (λ user_quota _.
          fail_then (Held w q) (leb_ℤ user_quota (pos 0)) insufficient_user_quota
            (fail_if (ltb_ℤ (int64 (user_quota -ℤ pos q)) (pos 0)) insufficient_user_quota
              >> rest user_quota)
            w' same
            (fail_then (Held w q) (ltb_ℤ (int64 (user_quota -ℤ pos q)) (pos 0))
              insufficient_user_quota (rest user_quota) w' same
              (Held-later w w' q (rest user_quota w') same (
                hold-Held cache w' n q (held user_quota) user_quota
                  (held_quota-cases info token_quota user_quota (pos q))
                  (IsCalm-later info w w' n same calm) small))))
