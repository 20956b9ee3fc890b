-- ===== src/Account/Transfer.antt =====
-- What `TransferAffQuotaToQuota` and `inviteUser` of model/user.go move.
use veloera.Base.{
  ℕ, ◌≡◌, refl, ap, ◌∙◌, Bool, false, Option, none, some, ℤ, pos, ◌+ℤ◌, ◌-ℤ◌, ◌≤ℤ◌, ltb_ℤ, int64,
  int64_id, IsInt64, int_laws, arith, ◌==◌,
}
use veloera.Store.Rows.{User}
use veloera.Store.Database.{Database, Tables, adjust}
use veloera.Quota.World.{
  World, Result, ok, err, ◌>>◌, exec, fail_if, aff_quota_not_enough, transfer_too_small, db_error,
}
use veloera.Redemption.Redeem.{transaction}
use veloera.Redemption.Steps.{query_then, fail_then}
use veloera.Account.CheckIn.{save_user, transfer_body, transfer_aff_quota_to_quota}
use veloera.Account.Committed.{transaction-induction}

-- The row after a transfer.
abbrev pub transferred : User → ℤ → User
transferred u quota = record u {
  aff_quota = int64 (u.aff_quota -ℤ quota);
  quota = int64 (u.quota +ℤ quota);
}

module _ ⦃d : Database⦄ (is_below_unit : ℤ → Bool) (id : ℕ) (quota : ℤ) where
  abbrev BodyMoved : World d.State → Result (Unit {0}) × World d.State → Type 0
  BodyMoved w (ok _, w') =
      (u : User) × ((d.view w.db).users id ≡ some u)
      × (quota ≤ℤ u.aff_quota)
      × (d.view w'.db ≡ record (d.view w.db) {
        users = adjust id (λ _. transferred u quota) (d.view w.db).users;
      })
      × (w'.stores ≡ w.stores)
  BodyMoved w (err e, w') = w'.stores ≡ w.stores

  body-BodyMoved : (w : World d.State) → BodyMoved w (transfer_body id quota w)
  unfolding transfer_body
  body-BodyMoved w =
      query_then (BodyMoved w) (d.first_user id)
        (λ (u : User).
          fail_if (ltb_ℤ u.aff_quota quota) aff_quota_not_enough
          >> exec (save_user id (transferred u quota)))
        w (λ _. refl)
        λ u e.
          fail_then (BodyMoved w) (ltb_ℤ u.aff_quota quota) aff_quota_not_enough
            (exec (save_user id (transferred u quota))) w (λ _. refl)
            λ enough. saved u e (ground arith) (save_user id (transferred u quota) w.db) refl
    where
      saved :
          (u : User)
          → d.first_user id w.db ≡ some u
          → quota ≤ℤ u.aff_quota
          → (o : Option d.State) → save_user id (transferred u quota) w.db ≡ o
          → BodyMoved w (elim o as (λ _. Result (Unit {0}) × World d.State) [
            | none ↦ (err db_error, w)
            | some s ↦ (ok tt, record w { db = s })
          ])
      saved u e enough none x = refl
      saved u e enough (some t) x = (
        u,
        d.first_user-view id w.db e,
        enough,
        d.update_user-view id (λ _. transferred u quota) w.db x,
        refl,
      )

  -- The user's row had the quota to move; it is moved, and nothing else has changed. Or the
  -- database is as it was.
  abbrev pub Moved : World d.State → Result (Unit {0}) × World d.State → Type 0
  Moved w (ok _, w') =
      (u : User) × ((d.view w.db).users id ≡ some u)
      × (quota ≤ℤ u.aff_quota)
      × (is_below_unit quota ≡ false)
      × (d.view w'.db ≡ record (d.view w.db) {
        users = adjust id (λ _. transferred u quota) (d.view w.db).users;
      })
      × (w'.stores ≡ w.stores)
  Moved w (err e, w') = (w'.db ≡ w.db) × (w'.stores ≡ w.stores)

  transfer-Moved :
      (w : World d.State) → Moved w (transfer_aff_quota_to_quota is_below_unit id quota w)
  unfolding transfer_aff_quota_to_quota
  transfer-Moved w =
      fail_then (Moved w) (is_below_unit quota) transfer_too_small
        (transaction (transfer_body id quota)) w (λ _. (refl, refl))
        λ large.
          transaction-induction (Moved w) (transfer_body id quota) w
            (λ e. (refl, stores (transfer_body id quota w) (body-BodyMoved w)))
            (λ a s e c. committed (transfer_body id quota w) a s large e c (body-BodyMoved w))
    where
      stores : (r : Result (Unit {0}) × World d.State) → BodyMoved w r → r.1.stores ≡ w.stores
      stores (ok _, w') (u, there, enough, v, st) = st
      stores (err e, w') st = st

      committed :
          (r : Result (Unit {0}) × World d.State) (a : Unit {0}) (s : d.State)
          → is_below_unit quota ≡ false
          → r.0 ≡ ok a
          → d.commit r.1.db ≡ some s
          → BodyMoved w r
          → Moved w (ok a, record r.1 { db = s })
      committed (ok _, w') a s large e c (u, there, enough, v, st) =
          (u, there, enough, large, d.commit-view w'.db c ∙ v, st)
      committed (err _, w') a s large e c st = cc

  -- Neither amount leaves the 64 bits.
  abbrev pub Fits : World d.State → Type 0
  Fits w =
      (u : User)
      → (d.view w.db).users id ≡ some u
      → IsInt64 (u.quota +ℤ quota) × IsInt64 (u.aff_quota -ℤ quota)

  -- The row afterwards has the same sum of quota and invitation quota, and the latter is not below
  -- zero.
  abbrev pub Conserved : World d.State → Result (Unit {0}) × World d.State → Type 0
  Conserved w (ok _, w') =
      (u : User) × (u' : User) × ((d.view w.db).users id ≡ some u)
      × ((d.view w'.db).users id ≡ some u')
      × (u'.quota ≡ u.quota +ℤ quota)
      × (u'.quota +ℤ u'.aff_quota ≡ u.quota +ℤ u.aff_quota)
      × (pos 0 ≤ℤ u'.aff_quota)
      × ((j : ℕ) → (id == j) ≡ false → (d.view w'.db).users j ≡ (d.view w.db).users j)
  Conserved w (err e, w') = (w'.db ≡ w.db) × (w'.stores ≡ w.stores)

  -- `TransferAffQuotaToQuota` moves the amount from the invitation quota of the one user to the
  -- quota and keeps their sum; the invitation quota does not fall below zero, and no other user has
  -- changed; or it fails, and leaves the database as it was. The user's two new amounts are to be
  -- 64-bit integers.
  pub transfer-Conserved :
      (w : World d.State)
      → Fits w
      → Conserved w (transfer_aff_quota_to_quota is_below_unit id quota w)
  transfer-Conserved w fits =
      sums (transfer_aff_quota_to_quota is_below_unit id quota w) (transfer-Moved w)
    where
      sums : (r : Result (Unit {0}) × World d.State) → Moved w r → Conserved w r
      sums (ok _, w') (u, there, enough, large, v, st) =
          let (f, g) = fits u there in
          let users : (j : ℕ)
              → (d.view w'.db).users j
                ≡ adjust id (λ _. transferred u quota) (d.view w.db).users j =
            λ j. ap (λ (t : Tables). t.users j) v in
          (
            u,
            transferred u quota,
            there,
            users id ∙ ground (arith, there),
            int64_id (u.quota +ℤ quota) f,
            rw (int64_id (u.quota +ℤ quota) f, int64_id (u.aff_quota -ℤ quota) g) (omega int_laws),
            rw (int64_id (u.aff_quota -ℤ quota) g) (omega int_laws),
            λ j other. users j ∙ rw other,
          )
      sums (err e, w') o = o
