-- ===== src/Billing/Settle.antt =====
-- `PostConsumeQuota` of service/quota.go, and the refund and the settlement of relay/relay-text.go
-- over it: what they charge.
use veloera.Base.{
  ℕ, Bool, true, false, not, ◌&&◌, ◌≡◌, refl, sym, subst, ◌+◌, ◌<◌, ◌^◌, inl, inr, ℤ, pos, negsuc,
  ◌+ℤ◌, ◌-ℤ◌, ltb_ℤ, eqb_ℤ, int64, int64_id, int_laws, arith, if◌then◌else◌, Bool-cases,
}
use veloera.Store.Database.{Database}
use veloera.Quota.World.{
  World, Config, Result, ok, Action, ◌>>◌, pure, launch, neg64, Job, check_quota_notify,
  bind-induction,
}
use veloera.Quota.Users.{increase_user_quota, decrease_user_quota}
use veloera.Quota.Tokens.{increase_token_quota, decrease_token_quota}
use veloera.Quota.Effective.Flush.{Works}
use veloera.Billing.Info.{RelayInfo}
use veloera.Billing.Consume.{post_consume_quota}
use veloera.Billing.Charged.{
  IsCalm, Charged, Charged-same, Charged-trans, size, neg_fits, decrease_user_quota-Charged,
  increase_user_quota-Charged, decrease_token_quota-Charged, increase_token_quota-Charged,
}

module _ ⦃d : Database⦄ (uid tid : ℕ) where
  -- The call succeeds and charges the user and the token.
  abbrev pub Charges : Action d.State (Unit {0}) → World d.State → ℤ → ℤ → ℕ → Type 0
  Charges m w u t k = ((m w).0 ≡ ok tt) × Charged uid tid w (m w).1 u t k

  pub Charges-nothing : (w : World d.State) (k : ℕ) → Charges (pure tt) w (pos 0) (pos 0) k
  Charges-nothing w k = (refl, Charged-same uid tid k refl refl refl)

  pub Charges-launch :
      (j : Job) (w : World d.State) (k : ℕ) → Charges (launch j) w (pos 0) (pos 0) k
  Charges-launch j w k = (refl, Charged-same uid tid k refl refl refl)

  pub Charges-then :
      (m m' : Action d.State (Unit {0})) (w : World d.State) {u t u' t' x y : ℤ} {k l : ℕ}
      → Charges m w u t k
      → Charges m' (m w).1 u' t' l
      → u +ℤ u' ≡ x
      → t +ℤ t' ≡ y
      → Charges (m >> m') w x y (k + l)
  Charges-then m m' w {x} {y} {k} {l} (fine, a) (fine', b) e e' =
      let run : (m >> m') w ≡ m' (m w).1 =
        bind-induction (λ r. r ≡ m' (m w).1) (λ _. m') m w (λ er bad. cc) (λ _ _. refl) in
      subst
        (λ (r : Result (Unit {0}) × World d.State).
          (r.0 ≡ ok tt) × Charged uid tid w r.1 x y (k + l))
        (sym run) (fine', Charged-trans uid tid e e' a b)

pub add_zero : (a : ℤ) → a +ℤ pos 0 ≡ a
add_zero a = omega int_laws

pub zero_add : (a : ℤ) → pos 0 +ℤ a ≡ a
zero_add a = omega int_laws

positive_natural : (q : ℤ) → ltb_ℤ (pos 0) q ≡ true → ltb_ℤ q (pos 0) ≡ false
positive_natural q h = ground arith

negative_natural : (q : ℤ) → ltb_ℤ (pos 0) q ≡ false → ltb_ℤ (pos 0 -ℤ q) (pos 0) ≡ false
unfolding ◌-ℤ◌
negative_natural (pos n) h = ground arith
negative_natural (negsuc n) h = ground arith

-- What the token pays of a charge: nothing in the playground.
abbrev pub token_share : RelayInfo → ℤ → ℤ
token_share info q = if info.is_playground then pos 0 else q

module _ ⦃d : Database⦄ (works : Works) (c : Config) (now : ℤ) (info : RelayInfo) where
  -- The three parts of `PostConsumeQuota`.
  abbrev charge_user : ℤ → Action d.State (Unit {0})
  charge_user q =
      if ltb_ℤ (pos 0) q
      then decrease_user_quota c info.user_id q
      else increase_user_quota c info.user_id (neg64 q) false

  abbrev charge_token : ℤ → Action d.State (Unit {0})
  charge_token q =
      if info.is_playground
      then pure tt
      else if ltb_ℤ (pos 0) q
      then decrease_token_quota c now info.token_id info.token_key q
      else increase_token_quota c now info.token_id info.token_key (neg64 q)

  abbrev notify : Bool → ℤ → ℤ → Action d.State (Unit {0})
  notify send q pre =
      if send && not (eqb_ℤ (int64 (q +ℤ pre)) (pos 0))
      then launch (check_quota_notify info.user_id q pre)
      else pure tt

  module _ (w : World d.State) (n : ℕ) (calm : IsCalm info.user_id info.token_id w n) (q : ℤ)
      (small : n + size q < 2 ^ 63) where
    charge_user-Charges : Charges info.user_id info.token_id (charge_user q) w q (pos 0) (size q)
    charge_user-Charges = elim (Bool-cases (ltb_ℤ (pos 0) q)) [
      | inl more ↦ rw more (
          decrease_user_quota-Charged works c now info.user_id info.token_id info.token_key w n calm
            q small (positive_natural q more))
      | inr less ↦
          rw (less, int64_id (pos 0 -ℤ q) (neg_fits q (omega arith)))
            (increase_user_quota-Charged works c now info.user_id info.token_id info.token_key w n
              calm q small (negative_natural q less))
    ]

    charge_token-Charges :
        Charges info.user_id info.token_id (charge_token q) w (pos 0) (token_share info q) (size q)
    charge_token-Charges = elim (Bool-cases info.is_playground) [
      | inl playground ↦ rw playground (Charges-nothing info.user_id info.token_id w (size q))
      | inr real ↦ elim (Bool-cases (ltb_ℤ (pos 0) q)) [
        | inl more ↦
            rw (real, more)
              (decrease_token_quota-Charged works c now info.user_id info.token_id info.token_key w
                n calm q small (positive_natural q more))
        | inr less ↦
            rw (real, less, int64_id (pos 0 -ℤ q) (neg_fits q (omega arith)))
              (increase_token_quota-Charged works c now info.user_id info.token_id info.token_key w
                n calm q small (negative_natural q less))
      ]
    ]

  -- What is computed when the charge is done.
  notify-Charges :
      (w : World d.State) (send : Bool) (q pre : ℤ)
      → Charges info.user_id info.token_id (notify send q pre) w (pos 0) (pos 0) 0
  notify-Charges w send q pre = elim (Bool-cases (send && not (eqb_ℤ (int64 (q +ℤ pre)) (pos 0)))) [
    | inl due ↦
        rw due
          (Charges-launch info.user_id info.token_id (check_quota_notify info.user_id q pre) w 0)
    | inr quiet ↦ rw quiet (Charges-nothing info.user_id info.token_id w 0)
  ]

  pub post_consume_quota-Charges :
      (w : World d.State) (n : ℕ) (q pre : ℤ) (send : Bool)
      → IsCalm info.user_id info.token_id w n
      → n + size q + size q < 2 ^ 63
      → Charges info.user_id info.token_id
          (post_consume_quota c now info q pre send)
          w
          q
          (token_share info q)
          (size q + (size q + 0))
  unfolding post_consume_quota
  post_consume_quota-Charges w n q pre send calm small =
      let w' : World d.State = (charge_user q w).1 in
      let user = charge_user-Charges w n calm q (omega arith) in
      let token =
        charge_token-Charges w' (n + size q) (user.1.drift n calm (omega arith)) q small in
      let last = notify-Charges (charge_token q w').1 send q pre in
      Charges-then info.user_id info.token_id (charge_user q) (charge_token q >> notify send q pre)
        w user
        (Charges-then info.user_id info.token_id (charge_token q) (notify send q pre) w' token last
          (add_zero (pos 0)) (add_zero (token_share info q)))
        (add_zero q) (zero_add (token_share info q))
