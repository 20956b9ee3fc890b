-- ===== src/Account/Rewarded.antt =====
-- What a check-in does: it pays once a day, and writes the row as it was read.
use veloera.Base.{ℕ, ◌≡◌, refl, sym, ◌∙◌, false, some, ℤ, ◌+ℤ◌, int64, Bool-cases, inl, inr}
use veloera.Store.Rows.{User}
use veloera.Store.Database.{Database, Tables, adjust}
use veloera.Quota.World.{
  World, Result, ok, err, Error, ◌>>◌, pure, launch, update_user_quota_cache, bind-induction,
}
use veloera.Redemption.Redeem.{transaction}
use veloera.Redemption.Steps.{query_then, exec_then}
use veloera.Account.CheckIn.{
  same_day, reward_between, calculate_check_in_reward, checked_in, save_user, apply_check_in,
  check_in_body, check_in,
}
use veloera.Account.Committed.{transaction-induction}

module _ ⦃d : Database⦄ (random_int : ℤ → ℤ) (id : ℕ) (user : User) (today : ℕ) (min max : ℤ) where
  -- The user's row is the copy with the reward added to its quota, and the day.
  abbrev written_tables : Tables → Tables
  written_tables t = record t {
    users =
        adjust id
          (λ _. record user {
            quota = int64 (user.quota +ℤ reward_between random_int min max);
            last_check_in_day = some today;
          })
          t.users;
  }

  -- What the transaction's body leaves in the database.
  abbrev BodyOutcome : World d.State → Result ℤ × World d.State → Type 0
  BodyOutcome w (ok reward, w') =
      (same_day user.last_check_in_day today ≡ false)
      × (reward ≡ reward_between random_int min max)
      × (d.view w'.db ≡ written_tables (d.view w.db))
      × (w'.stores ≡ w.stores)
  BodyOutcome w (err e, w') = w'.stores ≡ w.stores

  apply-BodyOutcome :
      (w : World d.State)
      → BodyOutcome w
          (apply_check_in id user today (calculate_check_in_reward random_int user today min max) w)
  unfolding apply_check_in calculate_check_in_reward
  apply-BodyOutcome w = elim (Bool-cases (same_day user.last_check_in_day today)) [
    | inl today_already ↦ rw today_already refl
    | inr can ↦ rw can (
        exec_then (BodyOutcome w)
          (save_user id (checked_in user today (reward_between random_int min max)))
          (pure (reward_between random_int min max)) w (λ _. refl)
          λ t e. (
            can,
            refl,
            d.update_user-view id (λ _. checked_in user today (reward_between random_int min max))
                w.db e,
            refl,
          ))
  ]

  body-BodyOutcome :
      (w : World d.State) → BodyOutcome w (check_in_body random_int id user today min max w)
  unfolding check_in_body
  body-BodyOutcome w =
      query_then (BodyOutcome w) (d.first_user id)
        (λ (_ : User).
          apply_check_in id user today (calculate_check_in_reward random_int user today min max))
        w (λ _. refl) (λ _ _. apply-BodyOutcome w)

  -- The user's copy had no check-in on this day; the reward is drawn, the user's row is the copy with
  -- the reward and the day, and nothing else has changed. Or the database is as it was.
  abbrev pub CheckInOutcome : World d.State → Result ℤ × World d.State → Type 0
  CheckInOutcome w (ok reward, w') =
      (same_day user.last_check_in_day today ≡ false)
      × (reward ≡ reward_between random_int min max)
      × (d.view w'.db ≡ written_tables (d.view w.db))
      × (w'.stores ≡ w.stores)
  CheckInOutcome w (err e, w') = (w'.db ≡ w.db) × (w'.stores ≡ w.stores)

  transaction-CheckInOutcome :
      (w : World d.State)
      → CheckInOutcome w (transaction (check_in_body random_int id user today min max) w)
  transaction-CheckInOutcome w =
      let m = check_in_body random_int id user today min max in
      transaction-induction (CheckInOutcome w) m w (λ e. (refl, stores (m w) (body-BodyOutcome w)))
        (λ a s e c. committed (m w) a s e c (body-BodyOutcome w))
    where
      stores : (r : Result ℤ × World d.State) → BodyOutcome w r → r.1.stores ≡ w.stores
      stores (ok reward, w') (can, is, v, st) = st
      stores (err e, w') st = st

      committed :
          (r : Result ℤ × World d.State) (a : ℤ) (s : d.State)
          → r.0 ≡ ok a
          → d.commit r.1.db ≡ some s
          → BodyOutcome w r
          → CheckInOutcome w (ok a, record r.1 { db = s })
      committed (ok b, w') a s e c (can, is, v, st) =
          let same : b ≡ a = cc in (can, sym same ∙ is, d.commit-view w'.db c ∙ v, st)
      committed (err _, w') a s e c st = cc

  -- `CheckIn` writes the row as it was read before the transaction, with the reward and the day: the
  -- lock that the transaction takes does not make it read the row again, so whatever was written
  -- to the user in between, a charge or another check-in, is lost. If it fails the database is as it
  -- was, and it fails if that copy has a check-in on this day.
  pub check_in-overwrites :
      (w : World d.State) → CheckInOutcome w (check_in random_int id user today min max w)
  unfolding check_in
  check_in-overwrites w =
      bind-induction (CheckInOutcome w)
        (λ reward.
          launch (update_user_quota_cache id (int64 (user.quota +ℤ reward))) >> pure reward)
        (transaction (check_in_body random_int id user today min max)) w
        (λ e h.
          failed (transaction (check_in_body random_int id user today min max) w) e h
            (transaction-CheckInOutcome w))
        (λ a h.
          launched (transaction (check_in_body random_int id user today min max) w) a h
            (transaction-CheckInOutcome w))
    where
      failed :
          (r : Result ℤ × World d.State) (e : Error)
          → r.0 ≡ err e
          → CheckInOutcome w r
          → CheckInOutcome w (err e, r.1)
      failed (ok a, w') e h o = cc
      failed (err _, w') e h o = o

      launched :
          (r : Result ℤ × World d.State) (a : ℤ)
          → r.0 ≡ ok a
          → CheckInOutcome w r
          → CheckInOutcome w
              ((launch (update_user_quota_cache id (int64 (user.quota +ℤ a))) >> pure a) r.1)
      launched (ok b, w') a h (can, is, v, st) =
          let same : b ≡ a = cc in (can, sym same ∙ is, v, st)
      launched (err _, w') a h o = cc
