-- ===== src/Billing/Outcome.antt =====
-- relay/relay-text.go: what a request charges, from the hold to the refund or the settlement.
use veloera.Base.{
  ℕ, Bool, true, false, not, ◌&&◌, ◌≡◌, refl, sym, ap, subst, ◌+◌, ◌<◌, ◌^◌, inl, inr, ℤ, pos, ◌+ℤ◌,
  ltb_ℤ, arith, Bool-cases,
}
use veloera.Store.Rows.{Token}
use veloera.Store.Database.{Database}
use veloera.Quota.World.{
  World, Config, Result, ok, err, Error, Action, ◌>>◌, ◌>>=◌, fail_if, bind-induction, or_wrap,
  token_quota_not_enough, decrease_user_quota_failed, pre_consume_token_quota_failed,
}
use veloera.Quota.Users.{decrease_user_quota}
use veloera.Quota.Tokens.{decrease_token_quota}
use veloera.Quota.Effective.Flush.{Works}
use veloera.Billing.Info.{RelayInfo, CacheAnswers}
use veloera.Billing.Lookup.{get_token_by_key}
use veloera.Billing.Consume.{pre_consume_token_quota}
use veloera.Billing.Text.{hold}
use veloera.Billing.Charged.{
  IsCalm, Charged, Charged-same, Charged-trans, size, decrease_user_quota-Charged,
  decrease_token_quota-Charged,
}
use veloera.Billing.Settle.{Charges, token_share, add_zero, zero_add}
use veloera.Billing.Reads.{Unchanged, Unchanged-trans, get_token_by_key-IsRead}

-- A part of the request has charged the user and the token, or was refused and has charged nobody.
abbrev pub Outcome :
    ⦃d : Database⦄ {A : Type 0}
    → RelayInfo
    → World d.State
    → ℤ
    → ℤ
    → ℕ
    → Result A × World d.State
    → Type 0
Outcome info w u t k (ok _, w') = Charged info.user_id info.token_id w w' u t k
Outcome info w u t k (err _, w') = Unchanged w w'

module _ ⦃d : Database⦄ (info : RelayInfo) where
  pub Outcome-Charges :
      (w : World d.State) (u t : ℤ) (k : ℕ) (m : Action d.State (Unit {0}))
      → Charges info.user_id info.token_id m w u t k
      → Outcome info w u t k (m w)
  Outcome-Charges w u t k m (fine, charged) = at (m w) fine charged
    where
      at :
          (r : Result (Unit {0}) × World d.State)
          → r.0 ≡ ok tt
          → Charged info.user_id info.token_id w r.1 u t k
          → Outcome info w u t k r
      at (ok _, w') e x = x
      at (err _, w') e x = cc

  -- A read comes before it.
  pub Outcome-later :
      {A : Type 0} (w w' : World d.State) (u t : ℤ) (k : ℕ) (r : Result A × World d.State)
      → Unchanged w w'
      → Outcome info w' u t k r
      → Outcome info w u t k r
  Outcome-later w w' u t k (ok a, w'') (e, f) charged =
      let grown : k ≡ 0 + k = omega arith in
      rw grown (
        Charged-trans info.user_id info.token_id (zero_add u) (zero_add t)
          (Charged-same info.user_id info.token_id 0 e (ap (λ st. st.user_quota) f)
            (ap (λ st. st.token_quota) f))
          charged)
  Outcome-later w w' u t k (err a, w'') same kept = Unchanged-trans w w' w'' same kept

  pub IsCalm-later :
      (w w' : World d.State) (n : ℕ)
      → Unchanged w w'
      → IsCalm info.user_id info.token_id w n
      → IsCalm info.user_id info.token_id w' n
  IsCalm-later w w' n (e, f) calm = rw f calm

  pub Outcome-then :
      {A B : Type 0} (m : Action d.State A) (m' : A → Action d.State B) (w : World d.State)
      {u t u' t' x y : ℤ} {k l : ℕ}
      → Outcome info w u t k (m w)
      → ((a : A) (w' : World d.State)
          → m w ≡ (ok a, w')
          → Charged info.user_id info.token_id w w' u t k
          → Charged info.user_id info.token_id w' (m' a w').1 u' t' l
            × ((b : B) × ((m' a w').0 ≡ ok b)))
      → u +ℤ u' ≡ x
      → t +ℤ t' ≡ y
      → Outcome info w x y (k + l) ((m >>= m') w)
  Outcome-then {A} {B} m m' w {u} {t} {u'} {t'} {x} {y} {k} {l} first next e e' =
      at (m w) refl first
    where
      done :
          (w' : World d.State) (r : Result B × World d.State) (b : B)
          → Charged info.user_id info.token_id w w' u t k
          → Charged info.user_id info.token_id w' r.1 u' t' l
          → r.0 ≡ ok b
          → Outcome info w x y (k + l) r
      done w' (ok b', w'') b p q eq = Charged-trans info.user_id info.token_id e e' p q
      done w' (err er, w'') b p q eq = cc

      at :
          (r : Result A × World d.State)
          → m w ≡ r
          → Outcome info w u t k r
          → Outcome info w x y (k + l) (elim r.0 as (λ _. Result B × World d.State) [
            | ok a ↦ m' a r.1
            | err er ↦ (err er, r.1)
          ])
      at (err er, w') eq same = same
      at (ok a, w') eq p = let (q, (b, fine)) = next a w' eq p in done w' (m' a w') b p q fine

  or_wrap-Outcome :
      {A : Type 0} (w : World d.State) (u t : ℤ) (k : ℕ) (m : Action d.State A) (e : Error)
      → Outcome info w u t k (m w)
      → Outcome info w u t k (or_wrap m e w)
  or_wrap-Outcome {A} w u t k m e h = at (m w) h
    where
      at :
          (r : Result A × World d.State)
          → Outcome info w u t k r
          → Outcome info w u t k (elim r.0 as (λ _. Result A × World d.State) [
            | ok a ↦ (ok a, r.1)
            | err _ ↦ (err e, r.1)
          ])
      at (ok a, w') x = x
      at (err er, w') x = x

  or_wrap-Charges :
      (w : World d.State) (u t : ℤ) (k : ℕ) (m : Action d.State (Unit {0})) (e : Error)
      → Charges info.user_id info.token_id m w u t k
      → Charges info.user_id info.token_id (or_wrap m e) w u t k
  or_wrap-Charges w u t k m e (fine, charged) = at (m w) fine charged
    where
      at :
          (r : Result (Unit {0}) × World d.State)
          → r.0 ≡ ok tt
          → Charged info.user_id info.token_id w r.1 u t k
          → let s = (elim r.0 as (λ _. Result (Unit {0}) × World d.State) [
            | ok a ↦ (ok a, r.1)
            | err _ ↦ (err e, r.1)
          ]) in
            (s.0 ≡ ok tt) × Charged info.user_id info.token_id w s.1 u t k
      at (ok o, w') eq x = (refl, x)
      at (err er, w') eq x = cc

natural : (h : ℕ) → ltb_ℤ (pos h) (pos 0) ≡ false
natural h = ground arith

module _ ⦃d : Database⦄ (works : Works) (c : Config) (now : ℤ) (info : RelayInfo) where
  module _ (w : World d.State) (n h : ℕ) (calm : IsCalm info.user_id info.token_id w n)
      (small : n + h < 2 ^ 63) where
    charge_token-Outcome :
        (refused : Bool) (e : Error)
        → Outcome info w (pos 0) (pos h) h (
            (fail_if refused e >> decrease_token_quota c now info.token_id info.token_key (pos h))
              w)
    charge_token-Outcome true e = (refl, refl)
    charge_token-Outcome false e =
        let small' : n + size (pos h) < 2 ^ 63 = omega arith in
        let k : size (pos h) ≡ h = omega arith in
        subst
          (λ (m : ℕ).
            Outcome info w (pos 0) (pos h) m
              (decrease_token_quota c now info.token_id info.token_key (pos h) w))
          k
          (Outcome-Charges info w (pos 0) (pos h) (size (pos h))
            (decrease_token_quota c now info.token_id info.token_key (pos h))
            (decrease_token_quota-Charged works c now info.user_id info.token_id info.token_key w n
              calm (pos h) small' (natural h)))

    charge_user-Charges :
        Charges info.user_id info.token_id
          (decrease_user_quota c info.user_id (pos h))
          w
          (pos h)
          (pos 0)
          h
    charge_user-Charges =
        let small' : n + size (pos h) < 2 ^ 63 = omega arith in
        let k : size (pos h) ≡ h = omega arith in
        subst
          (λ (m : ℕ).
            Charges info.user_id info.token_id (decrease_user_quota c info.user_id (pos h)) w
              (pos h) (pos 0) m)
          k
          (decrease_user_quota-Charged works c now info.user_id info.token_id info.token_key w n
            calm (pos h) small' (natural h))

  module _ (cache : CacheAnswers) (w : World d.State) (n h : ℕ)
      (calm : IsCalm info.user_id info.token_id w n) (small : n + h < 2 ^ 63) where
    charge_real-Outcome : Outcome info w (pos 0) (pos h) h (
        (get_token_by_key c cache info.token_key >>= λ token.
        fail_if
          (not info.token_unlimited && ltb_ℤ token.remain_quota (pos h))
          token_quota_not_enough
        >> decrease_token_quota c now info.token_id info.token_key (pos h))
          w)
    charge_real-Outcome =
        let same = get_token_by_key-IsRead c cache info.token_key w in
        let w' : World d.State = (get_token_by_key c cache info.token_key w).1 in
        let rest : Token → Action d.State (Unit {0}) = λ token.
          fail_if (not info.token_unlimited && ltb_ℤ token.remain_quota (pos h))
            token_quota_not_enough
          >> decrease_token_quota c now info.token_id info.token_key (pos h) in
        bind-induction (λ r. Outcome info w (pos 0) (pos h) h r) rest
          (get_token_by_key c cache info.token_key) w (λ _ _. same)
          λ token _. Outcome-later info w w' (pos 0) (pos h) h (rest token w') same (
            charge_token-Outcome w' n h (IsCalm-later info w w' n same calm) small
              (not info.token_unlimited && ltb_ℤ token.remain_quota (pos h)) token_quota_not_enough)

    pre_consume_token_quota-Outcome :
        Outcome info w
          (pos 0)
          (token_share info (pos h))
          h
          (pre_consume_token_quota c now info cache (pos h) w)
    unfolding pre_consume_token_quota
    pre_consume_token_quota-Outcome = elim (Bool-cases info.is_playground) [
      | inl playground ↦
          rw (natural h, playground) (Charged-same info.user_id info.token_id h refl refl refl)
      | inr real ↦ rw (natural h, real) charge_real-Outcome
    ]

pub share_zero : (info : RelayInfo) → token_share info (pos 0) ≡ pos 0
share_zero info = elim (Bool-cases info.is_playground) [
  | inl playground ↦ rw playground
  | inr real ↦ rw real
]

zero_of : (h : ℕ) → ltb_ℤ (pos 0) (pos h) ≡ false → h ≡ 0
zero_of h e = ground arith

module _ ⦃d : Database⦄ (works : Works) (c : Config) (now : ℤ) (info : RelayInfo) where
  pub hold-Outcome :
      (cache : CacheAnswers) (w : World d.State) (n h : ℕ)
      → IsCalm info.user_id info.token_id w n
      → n + h + h < 2 ^ 63
      → Outcome info w (pos h) (token_share info (pos h)) (h + h) (hold c now info cache (pos h) w)
  unfolding hold
  hold-Outcome cache w n h calm small = elim (Bool-cases (ltb_ℤ (pos 0) (pos h))) [
    | inr nothing ↦ rw nothing (
        subst
          (λ (x : ℕ).
            Charged info.user_id info.token_id w w (pos x) (token_share info (pos x)) (x + x))
          (sym (zero_of h nothing))
          (rw (share_zero info) (Charged-same info.user_id info.token_id 0 refl refl refl)))
    | inl held ↦ rw held (
        Outcome-then info
          (or_wrap (pre_consume_token_quota c now info cache (pos h))
            pre_consume_token_quota_failed)
          (λ _. or_wrap (decrease_user_quota c info.user_id (pos h)) decrease_user_quota_failed) w
          (or_wrap-Outcome info w (pos 0) (token_share info (pos h)) h
            (pre_consume_token_quota c now info cache (pos h)) pre_consume_token_quota_failed
            (pre_consume_token_quota-Outcome works c now info cache w n h calm (omega arith)))
          (λ a w' _ charged.
            let (fine, more) =
              or_wrap-Charges info w' (pos h) (pos 0) h (decrease_user_quota c info.user_id (pos h))
                decrease_user_quota_failed
                (charge_user-Charges works c now info w' (n + h) h
                  (charged.drift n calm (omega arith)) (omega arith)) in
            (more, (tt, fine)))
          (zero_add (pos h)) (add_zero (token_share info (pos h))))
  ]
