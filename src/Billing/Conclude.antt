-- ===== src/Billing/Conclude.antt =====
-- The end of a request in relay/relay-text.go: the refund, or the settlement.
use veloera.Base.{
  ℕ, Bool, true, false, not, ◌≡◌, refl, subst, ◌+◌, ◌<◌, ◌^◌, inl, inr, ℤ, pos, ◌-ℤ◌, eqb_ℤ, int64,
  int64_id, arith, IsInt64, if◌then◌else◌, Bool-cases, fits_of_parts,
}
use veloera.Store.Database.{Database}
use veloera.Quota.World.{
  World, Config, Result, ok, err, Action, ◌>>◌, pure, fail, or_log, upstream_failed, bind-induction,
}
use veloera.Quota.Users.{update_user_used_quota_and_request_count, update_channel_used_quota}
use veloera.Quota.Effective.Flush.{Works}
use veloera.Billing.Info.{RelayInfo}
use veloera.Billing.Consume.{post_consume_quota}
use veloera.Billing.Text.{return_pre_consumed_quota, settle, Upstream, failed, answered, conclude}
use veloera.Billing.Charged.{IsCalm, Charged, size}
use veloera.Billing.Settle.{
  Charges, Charges-nothing, Charges-then, token_share, post_consume_quota-Charges, add_zero,
  zero_add,
}
use veloera.Billing.Usage.{
  update_user_used_quota_and_request_count-Charges, update_channel_used_quota-Charges,
}
use veloera.Billing.Outcome.{share_zero}

-- What the client gets.
abbrev pub ending : Upstream → Result (Unit {0})
ending failed = err upstream_failed
ending (answered total_tokens computed) = ok tt

-- What the upstream's answer costs: nothing for an error, and for an answer of no tokens.
abbrev pub cost_of : Upstream → ℤ
cost_of failed = pos 0
cost_of (answered total_tokens computed) = if eqb_ℤ total_tokens (pos 0) then pos 0 else computed

no_size : (q : ℤ) → eqb_ℤ q (pos 0) ≡ true → q ≡ pos 0
no_size q e = ground arith

size_fits : (q : ℤ) → size q < 2 ^ 63 → IsInt64 q
size_fits q h = fits_of_parts q (omega arith) (omega arith)

eqb_neg : (h : ℕ) → eqb_ℤ (pos h) (pos 0) ≡ eqb_ℤ (pos 0 -ℤ pos h) (pos 0)
unfolding ◌-ℤ◌
eqb_neg h = ground arith

size_neg : (h : ℕ) → size (pos 0 -ℤ pos h) ≡ h
unfolding ◌-ℤ◌
size_neg h = ground arith

module _ ⦃d : Database⦄ (works : Works) (c : Config) (now : ℤ) (info : RelayInfo) where
  -- `if v != 0 { err := PostConsumeQuota(v); log }`
  adjust-Charges :
      (w : World d.State) (n : ℕ) (v pre : ℤ) (send : Bool)
      → IsCalm info.user_id info.token_id w n
      → n + size v + size v < 2 ^ 63
      → Charges info.user_id info.token_id
          (if not (eqb_ℤ v (pos 0))
            then or_log (post_consume_quota c now info v pre send)
            else pure tt)
          w
          v
          (token_share info v)
          (size v + (size v + 0))
  adjust-Charges w n v pre send calm small = elim (Bool-cases (eqb_ℤ v (pos 0))) [
    | inl zero ↦
        let none : v ≡ pos 0 = no_size v zero in
        rw none (rw (share_zero info) (Charges-nothing info.user_id info.token_id w 0))
    | inr some ↦
        rw some (refl, (post_consume_quota-Charges works c now info w n v pre send calm small).1)
  ]

  return_pre_consumed_quota-Charges :
      (w : World d.State) (n h : ℕ)
      → IsCalm info.user_id info.token_id w n
      → n + h + h < 2 ^ 63
      → Charges info.user_id info.token_id
          (return_pre_consumed_quota c now info (pos h))
          w
          (pos 0 -ℤ pos h)
          (token_share info (pos 0 -ℤ pos h))
          (size (pos 0 -ℤ pos h) + (size (pos 0 -ℤ pos h) + 0))
  unfolding return_pre_consumed_quota
  return_pre_consumed_quota-Charges w n h calm small =
      let v : ℤ = pos 0 -ℤ pos h in
      let exact : int64 v ≡ v = int64_id v (size_fits v (omega (arith, size_neg h))) in
      rw (exact, eqb_neg h) (adjust-Charges w n v (pos 0) false calm (omega (arith, size_neg h)))

  -- The counts of what was used.
  abbrev usage : ℤ → ℤ → Action d.State (Unit {0})
  usage total quota = if eqb_ℤ total (pos 0) then pure tt else (do
    update_user_used_quota_and_request_count c info.user_id quota
    update_channel_used_quota c info.channel_id quota)

  pub usage-Charges :
      (w : World d.State) (total quota : ℤ)
      → Charges info.user_id info.token_id (usage total quota) w (pos 0) (pos 0) 0
  usage-Charges w total quota = elim (Bool-cases (eqb_ℤ total (pos 0))) [
    | inl empty ↦ rw empty (Charges-nothing info.user_id info.token_id w 0)
    | inr full ↦
        let first =
          update_user_used_quota_and_request_count-Charges info.user_id info.token_id c quota w in
        rw full (
          Charges-then info.user_id info.token_id
            (update_user_used_quota_and_request_count c info.user_id quota)
            (update_channel_used_quota c info.channel_id quota) w first
            (update_channel_used_quota-Charges info.user_id info.token_id c info.channel_id quota
              (update_user_used_quota_and_request_count c info.user_id quota w).1)
            (add_zero (pos 0)) (add_zero (pos 0)))
  ]

  pub settle-Charges :
      (w : World d.State) (n h : ℕ) (total computed : ℤ)
      → IsCalm info.user_id info.token_id w n
      → n
          + size (cost_of (answered total computed) -ℤ pos h)
          + size (cost_of (answered total computed) -ℤ pos h)
        < 2 ^ 63
      → (k : ℕ) × Charges info.user_id info.token_id
          (settle c now info total computed (pos h))
          w
          (cost_of (answered total computed) -ℤ pos h)
          (token_share info (cost_of (answered total computed) -ℤ pos h))
          k
  unfolding settle
  settle-Charges w n h total computed calm small =
      let v : ℤ = cost_of (answered total computed) -ℤ pos h in
      let exact : int64 v ≡ v = int64_id v (size_fits v (omega arith)) in
      let used = usage-Charges w total (cost_of (answered total computed)) in
      let w' : World d.State = (usage total (cost_of (answered total computed)) w).1 in
      (
        0 + (size v + (size v + 0)),
        rw exact (
            Charges-then info.user_id info.token_id
              (usage total (cost_of (answered total computed)))
              (if not (eqb_ℤ v (pos 0))
                then or_log (post_consume_quota c now info v (pos h) true)
                else pure tt)
              w used
              (adjust-Charges w' n v (pos h) true
                (let same : n + 0 ≡ n = omega arith in
                  subst (λ (m : ℕ). IsCalm info.user_id info.token_id w' m) same
                    (used.1.drift n calm (omega arith)))
                small)
              (zero_add v) (zero_add (token_share info v))),
      )

  -- The end of the request: as the upstream ended, at its cost.
  pub conclude-Concluded :
      (w : World d.State) (n h : ℕ) (upstream : Upstream)
      → IsCalm info.user_id info.token_id w n
      → n + h + h < 2 ^ 63
      → n + size (cost_of upstream -ℤ pos h) + size (cost_of upstream -ℤ pos h) < 2 ^ 63
      → (k : ℕ) × ((conclude c now info upstream (pos h) w).0 ≡ ending upstream)
        × Charged info.user_id info.token_id w
            (conclude c now info upstream (pos h) w).1
            (cost_of upstream -ℤ pos h)
            (token_share info (cost_of upstream -ℤ pos h))
            k
  unfolding conclude
  conclude-Concluded w n h failed calm small small' =
      let (fine, charged) = return_pre_consumed_quota-Charges w n h calm small in
      let run : (return_pre_consumed_quota c now info (pos h) >> fail upstream_failed) w
          ≡ (err upstream_failed, (return_pre_consumed_quota c now info (pos h) w).1) =
        bind-induction
          (λ r. r ≡ (err upstream_failed, (return_pre_consumed_quota c now info (pos h) w).1))
          (λ (_ : Unit {0}). fail {A = Unit {0}} upstream_failed)
          (return_pre_consumed_quota c now info (pos h)) w (λ er bad. cc) (λ _ _. refl) in
      (size (pos 0 -ℤ pos h) + (size (pos 0 -ℤ pos h) + 0), rw run refl, rw run charged)
  conclude-Concluded w n h (answered total computed) calm small small' =
      let (k, (fine, charged)) = settle-Charges w n h total computed calm small' in
      (k, fine, charged)
