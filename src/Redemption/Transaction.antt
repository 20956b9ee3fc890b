-- ===== src/Redemption/Transaction.antt =====
-- The transaction of `Redeem` in model/redemption.go, branch by branch.
use veloera.Base.{
  ℕ, String, Bool, true, false, not, ◌&&◌, ◌≡◌, refl, sym, ap, ◌∙◌, subst, if◌then◌else◌, Option,
  none, some, ℤ, pos, ◌+ℤ◌, int64, ltb_ℤ, leb_ℤ, eqb_ℤ, ltb, Bool-cases, inl, inr, arith,
}
use veloera.Store.Rows.{Redemption}
use veloera.Store.Database.{Database, Tables, adjust, save_key, count_one}
use veloera.Quota.World.{
  World, Result, ok, err, Action, ◌>>=◌, ◌>>◌, pure, fail_if, exec, query, db_error, invalid_code,
  code_used, not_yet_valid, code_expired, gift_exhausted, gift_used_by_user,
}
use veloera.Redemption.Redeem.{
  transaction, add_redeemed, redeem_code, redeem_gift, redeem_row, use_code, use_gift, is_unlimited,
  status_enabled,
}
use veloera.Redemption.Steps.{exec_then, query_then, wrapped_query_then, fail_then}
use veloera.Redemption.Spec.{
  in_period, is_redeemable, redeemed_row, code_row, gift_row, redeemed_tables, Redeemed,
}

if_ordinary {ℓ} : {A : Type ℓ} (b : Bool) (x y : A) → b ≡ false → (if not b then x else y) ≡ x
if_ordinary b x y e = rw e

pub if_gift {ℓ} : {A : Type ℓ} (b : Bool) (x y : A) → b ≡ true → (if not b then x else y) ≡ y
if_gift b x y e = rw e

true_of_not : (b : Bool) → not b ≡ false → b ≡ true
true_of_not b e = ground arith

both_not : (a b : Bool) → a ≡ false → b ≡ false → (not a && not b) ≡ true
both_not a b e f = ground arith

-- The rows that the code saves.
use_code_lem :
    (user_id : ℕ) (now : ℤ) (r : Redemption) → use_code user_id now r ≡ code_row user_id now r
unfolding use_code
use_code_lem user_id now r = refl

use_gift_lem : (r : Redemption) → use_gift r ≡ gift_row r
unfolding use_gift
use_gift_lem r =
    elim (Bool-cases (not (is_unlimited r) && leb_ℤ r.max_uses (int64 (r.used_count +ℤ pos 1)))) [
      | inl full ↦ rw full refl
      | inr open_ ↦ rw open_ refl
    ]

module _ ⦃d : Database⦄ (key : String) (user_id : ℕ) (now : ℤ) (w : World d.State) where
  -- What the transaction's body leaves.
  abbrev pub RowOutcome : Result Redemption × World d.State → Type 0
  RowOutcome (ok saved, w') = Redeemed key user_id now w.db w'.db saved × (w'.stores ≡ w.stores)
  RowOutcome (err _, w') = w'.stores ≡ w.stores

  module _ (r : Redemption) where
    -- The tables before the row is saved.
    abbrev paid_tables : Tables
    paid_tables = record (redeemed_tables (d.view w.db) user_id now r) {
      redemptions = (d.view w.db).redemptions;
    }

    abbrev PaidOutcome : Result Redemption × World d.State → Type 0
    PaidOutcome (ok saved, w') =
        (saved ≡ redeemed_row user_id now r)
        × (is_redeemable (d.view w.db) user_id r ≡ true)
        × (d.view w'.db ≡ paid_tables)
        × (w'.stores ≡ w.stores)
    PaidOutcome (err _, w') = w'.stores ≡ w.stores

    abbrev paid_with : (ℕ → ℕ → ℕ) → Tables
    paid_with logs = record (d.view w.db) {
      users = adjust user_id (add_redeemed r) (d.view w.db).users;
      redemption_logs = logs;
    }

    redeem_code-PaidOutcome : r.is_gift ≡ false → PaidOutcome (redeem_code user_id now r w)
    unfolding redeem_code
    redeem_code-PaidOutcome ordinary =
        fail_then PaidOutcome (not (eqb_ℤ r.status status_enabled)) code_used
          (exec (d.update_user user_id (add_redeemed r)) >> pure (use_code user_id now r)) w
          (λ _. refl)
          (λ enabled.
            exec_then PaidOutcome (d.update_user user_id (add_redeemed r))
              (pure (use_code user_id now r)) w (λ _. refl)
              λ t e. (
                use_code_lem user_id now r
                    ∙ sym (if_ordinary r.is_gift (code_row user_id now r) (gift_row r) ordinary),
                if_ordinary r.is_gift _ _ ordinary
                    ∙ true_of_not (eqb_ℤ r.status status_enabled) enabled,
                d.update_user-view user_id (add_redeemed r) w.db e
                    ∙ ap paid_with
                        (sym (if_ordinary r.is_gift (d.view w.db).redemption_logs _ ordinary)),
                refl,
              ))

    redeem_gift-PaidOutcome : r.is_gift ≡ true → PaidOutcome (redeem_gift user_id r w)
    unfolding redeem_gift
    redeem_gift-PaidOutcome gift =
        let spent : Bool = not (is_unlimited r) && leb_ℤ r.max_uses r.used_count in
        let pay : Action d.State (Unit {0}) = exec (d.update_user user_id (add_redeemed r)) in
        let log : Action d.State (Unit {0}) = exec (d.create_redemption_log r.id user_id) in
        let done : Action d.State Redemption = pure (use_gift r) in
        fail_then PaidOutcome spent gift_exhausted
          (query (d.count_redemption_logs r.id user_id) >>= λ n.
            fail_if (ltb 0 n) gift_used_by_user >> (pay >> (log >> done)))
          w (λ _. refl)
          (λ left.
            query_then PaidOutcome (d.count_redemption_logs r.id user_id)
              (λ n. fail_if (ltb 0 n) gift_used_by_user >> (pay >> (log >> done))) w (λ _. refl)
              λ n counted.
                fail_then PaidOutcome (ltb 0 n) gift_used_by_user (pay >> (log >> done)) w
                  (λ _. refl)
                  λ unused.
                    exec_then PaidOutcome (d.update_user user_id (add_redeemed r)) (log >> done) w
                      (λ _. refl)
                      λ t e.
                        exec_then PaidOutcome (d.create_redemption_log r.id user_id) done
                          (record w { db = t }) (λ _. refl)
                          λ t' e'. (
                            use_gift_lem r
                                ∙ sym
                                    (if_gift r.is_gift (code_row user_id now r) (gift_row r) gift),
                            if_gift r.is_gift _ _ gift
                                ∙ both_not spent _ left (
                                    ap (λ (k : ℕ). ltb 0 k)
                                      (d.count_redemption_logs-view r.id user_id w.db counted)
                                    ∙ unused),
                            d.create_redemption_log-view r.id user_id t e'
                                ∙ ap
                                    (λ (v : Tables). record v {
                                      redemption_logs = count_one r.id user_id v.redemption_logs;
                                    })
                                    (d.update_user-view user_id (add_redeemed r) w.db e)
                                ∙ ap paid_with (
                                    sym (
                                      if_gift r.is_gift (d.view w.db).redemption_logs
                                        (count_one r.id user_id (d.view w.db).redemption_logs)
                                        gift)),
                            refl,
                          ))

    -- Whichever branch the row takes.
    abbrev pay_out : Action d.State Redemption
    pay_out = if not r.is_gift then redeem_code user_id now r else redeem_gift user_id r

    pay_out-PaidOutcome : PaidOutcome (pay_out w)
    pay_out-PaidOutcome = elim (Bool-cases r.is_gift) [
      | inl gift ↦
          subst (λ (m : Action d.State Redemption). PaidOutcome (m w))
            (sym (if_gift r.is_gift (redeem_code user_id now r) (redeem_gift user_id r) gift))
            (redeem_gift-PaidOutcome gift)
      | inr ordinary ↦
          subst (λ (m : Action d.State Redemption). PaidOutcome (m w))
            (sym
              (if_ordinary r.is_gift (redeem_code user_id now r) (redeem_gift user_id r) ordinary))
            (redeem_code-PaidOutcome ordinary)
    ]

    saved-RowOutcome :
        (x : Result Redemption × World d.State)
        → (d.view w.db).redemptions key ≡ some r
        → r.key ≡ key
        → in_period now r ≡ true
        → PaidOutcome x
        → RowOutcome (elim x.0 as (λ _. Result Redemption × World d.State) [
          | ok a ↦ (exec (d.save_redemption a) >> pure a) x.1
          | err e ↦ (err e, x.1)
        ])
    saved-RowOutcome (err e, w') found keyed timely same = same
    saved-RowOutcome (ok saved, w') found keyed timely (is, allowed, paid, same) =
        exec_then RowOutcome (d.save_redemption saved) (pure saved) w' (λ _. same)
          λ t e. (
            record {
              row = r;
              found = found;
              keyed = keyed;
              timely = timely;
              allowed = allowed;
              is_saved = is;
              written =
                  d.save_redemption-view saved w'.db e
                  ∙ ap
                      (λ (v : Tables). record v {
                        redemptions = save_key saved.key saved v.redemptions;
                      })
                      paid
                  ∙ ap
                      (λ (x : Redemption). record paid_tables {
                        redemptions = save_key x.key x (d.view w.db).redemptions;
                      })
                      is;
            },
            same,
          )

  redeem_row-RowOutcome : RowOutcome (redeem_row key user_id now w)
  unfolding redeem_row
  redeem_row-RowOutcome =
      let finish : Redemption → Action d.State Redemption =
        λ saved. exec (d.save_redemption saved) >> pure saved in
      let early : Redemption → Bool = λ r. ltb_ℤ (pos 0) r.valid_from && ltb_ℤ now r.valid_from in
      let late : Redemption → Bool = λ r. ltb_ℤ (pos 0) r.valid_until && ltb_ℤ r.valid_until now in
      wrapped_query_then RowOutcome (d.first_redemption key) invalid_code
        (λ r.
          fail_if (early r) not_yet_valid
          >> (fail_if (late r) code_expired >> (pay_out r >>= finish)))
        w refl
        λ r found.
          let (filed, keyed) = d.first_redemption-view key w.db found in
          fail_then RowOutcome (early r) not_yet_valid
            (fail_if (late r) code_expired >> (pay_out r >>= finish)) w (λ _. refl)
            λ begun.
              fail_then RowOutcome (late r) code_expired (pay_out r >>= finish) w (λ _. refl)
                λ current.
                  saved-RowOutcome r (pay_out r w) filed keyed
                    (both_not (early r) (late r) begun current) (pay_out-PaidOutcome r)

  -- What `redeem` does with the transaction.
  abbrev pub TransactionOutcome : Result Redemption × World d.State → Type 0
  TransactionOutcome (ok saved, w') =
      Redeemed key user_id now w.db w'.db saved × (w'.stores ≡ w.stores)
  TransactionOutcome (err _, w') = (w'.db ≡ w.db) × (w'.stores ≡ w.stores)

  pub redeem_transaction-TransactionOutcome :
      TransactionOutcome (transaction (redeem_row key user_id now) w)
  unfolding transaction
  redeem_transaction-TransactionOutcome = ends (redeem_row key user_id now w) redeem_row-RowOutcome
    where
      ends_ok :
          (saved : Redemption) (w' : World d.State) (o : Option d.State)
          → d.commit w'.db ≡ o
          → RowOutcome (ok saved, w')
          → TransactionOutcome (elim o as (λ _. Result Redemption × World d.State) [
            | none ↦ (err db_error, record w' { db = w.db })
            | some s ↦ (ok saved, record w' { db = s })
          ])
      ends_ok saved w' none e (done, same) = (refl, same)
      ends_ok saved w' (some s) e (done, same) = (
        record {
          row = done.row;
          found = done.found;
          keyed = done.keyed;
          timely = done.timely;
          allowed = done.allowed;
          is_saved = done.is_saved;
          written = d.commit-view w'.db e ∙ done.written;
        },
        same,
      )

      ends :
          (x : Result Redemption × World d.State)
          → RowOutcome x
          → TransactionOutcome (elim x.0 as (λ _. Result Redemption × World d.State) [
            | err e ↦ (err e, record x.1 { db = w.db })
            | ok a ↦ elim (d.commit x.1.db) [
              | none ↦ (err db_error, record x.1 { db = w.db })
              | some s ↦ (ok a, record x.1 { db = s })
            ]
          ])
      ends (err e, w') same = (refl, same)
      ends (ok saved, w') h = ends_ok saved w' (d.commit w'.db) refl h
