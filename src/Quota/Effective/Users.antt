-- ===== src/Quota/Effective/Users.antt =====
-- The quota operations of model/user.go on the abstract view: batching does not show.
use mathlib.Core.Option
use veloera.Base.{
  ℕ, ◌≡◌, refl, ◌==◌, if◌then◌else◌, Bool, true, false, Option, none, some, arith, ℤ, pos, negsuc,
  ◌+ℤ◌, ◌-ℤ◌, IsInt64, int64_id, int_laws, ltb_ℤ, eqb_ℤ, subst, not, ◌&&◌, ◌++◌, ◌∷◌, [],
  Bool-cases, inl, inr,
}
use veloera.Base.Dict.{nat_key}
use veloera.Store.Rows.{User}
use veloera.Store.Database.{Database}
use veloera.Quota.World.{
  World, Stores, Config, Result, ok, err, exec, exec-induction, type_user_quota,
  incr_user_quota_cache,
}
use veloera.Quota.Batch.{add_new_record, db_increase_user_quota, db_decrease_user_quota}
use veloera.Quota.Users.{increase_user_quota, decrease_user_quota, delta_update_user_quota}
use veloera.Quota.Effective.{
  SameTokens, Moves, user_balance, pending, pending-merge, counter-pending, counter-row,
}

-- How a call of the accounts ends: it has moved the balance of one user and no token, or failed and
-- left the database and the updater's maps as they were.
abbrev pub UserMoves :
    ⦃d : Database⦄ → d.State → Stores → ℕ → ℤ → Result (Unit {0}) × World d.State → Type 0
UserMoves s st id delta (ok _, w') =
    Moves (user_balance s st) (user_balance w'.db w'.stores) id delta
    × SameTokens s st w'.db w'.stores
UserMoves s st id delta (err _, w') = (w'.db ≡ s) × (w'.stores ≡ st)

module _ ⦃d : Database⦄ (w : World d.State) (id : ℕ) where
  batched-UserMoves :
      (delta : ℤ)
      → IsInt64 (pending w.stores.user_quota id +ℤ delta)
      → UserMoves w.db w.stores id delta (add_new_record type_user_quota id delta w)
  unfolding add_new_record
  batched-UserMoves delta fits = (
    λ j.
        counter-pending (λ q (u : User). u.quota +ℤ q) id j delta ((d.view w.db).users j) delta
          (pending w.stores.user_quota j) _ (λ r. omega int_laws)
          (pending-merge w.stores.user_quota id delta j fits),
    λ j. (refl, refl),
  )

  pub db_update-UserMoves :
      (f : User → User) (delta : ℤ)
      → ((u : User) → (f u).quota ≡ u.quota +ℤ delta)
      → UserMoves w.db w.stores id delta (exec (d.update_user id f) w)
  db_update-UserMoves f delta step =
      exec-induction (UserMoves w.db w.stores id delta) (d.update_user id f) w (λ _. (refl, refl))
        λ t e. (
          λ j. rw (d.update_user-view id f w.db e) (
              counter-row (λ q (u : User). u.quota +ℤ q) id j delta (d.view w.db).users f
                (pending w.stores.user_quota j) (λ r. rw (step r) (omega int_laws))),
          λ j. rw (d.update_user-view id f w.db e) (refl, refl),
        )

  db_increase-UserMoves : (q : ℤ) → UserMoves w.db w.stores id q (db_increase_user_quota id q w)
  unfolding db_increase_user_quota
  db_increase-UserMoves q = db_update-UserMoves _ q (λ u. refl)

  db_decrease-UserMoves :
      (q : ℤ) → UserMoves w.db w.stores id (pos 0 -ℤ q) (db_decrease_user_quota id q w)
  unfolding db_decrease_user_quota
  db_decrease-UserMoves q = db_update-UserMoves _ (pos 0 -ℤ q) (λ u. omega int_laws)

module _ ⦃d : Database⦄ (c : Config) (w : World d.State) (id : ℕ) where
  abbrev with_job : ℤ → World d.State
  with_job q = record w { jobs = w.jobs ++ incr_user_quota_cache id q ∷ [] }

  pub increase-UserMoves :
      (q : ℤ) (db : Bool)
      → IsInt64 (pending w.stores.user_quota id +ℤ q)
      → UserMoves w.db w.stores id q (increase_user_quota c id q db w)
  unfolding increase_user_quota
  increase-UserMoves q db fits = elim (Bool-cases (ltb_ℤ q (pos 0))) [
    | inl negative ↦ rw (negative, UserMoves) (refl, refl)
    | inr natural ↦ elim (Bool-cases (not db && c.batch_update_enabled)) [
      | inl batched ↦ rw (natural, batched) (batched-UserMoves (with_job q) id q fits)
      | inr direct ↦ rw (natural, direct) (db_increase-UserMoves (with_job q) id q)
    ]
  ]

  pub decrease-UserMoves :
      (q : ℤ)
      → IsInt64 (pos 0 -ℤ q)
      → IsInt64 (pending w.stores.user_quota id +ℤ (pos 0 -ℤ q))
      → UserMoves w.db w.stores id (pos 0 -ℤ q) (decrease_user_quota c id q w)
  unfolding decrease_user_quota
  decrease-UserMoves q neg fits = elim (Bool-cases (ltb_ℤ q (pos 0))) [
    | inl negative ↦ rw (negative, UserMoves) (refl, refl)
    | inr natural ↦ elim (Bool-cases c.batch_update_enabled) [
      | inl batched ↦
          rw (natural, batched, int64_id (pos 0 -ℤ q) neg)
            (batched-UserMoves (with_job (pos 0 -ℤ q)) id (pos 0 -ℤ q) fits)
      | inr direct ↦
          rw (natural, direct, int64_id (pos 0 -ℤ q) neg)
            (db_decrease-UserMoves (with_job (pos 0 -ℤ q)) id q)
    ]
  ]

pub double : (a : ℤ) → pos 0 -ℤ (pos 0 -ℤ a) ≡ a
double a = omega int_laws

zero_of : (a : ℤ) → eqb_ℤ a (pos 0) ≡ true → a ≡ pos 0
zero_of a h = ground arith

neg_fits : (a : ℤ) → IsInt64 (pos 0 -ℤ a) → ltb_ℤ (pos 0) a ≡ false → IsInt64 a
unfolding ◌-ℤ◌
neg_fits (pos n) h less = ground arith
neg_fits (negsuc n) h less = ground arith

pub Moves-zero :
    (b : Option ℤ) (id j : ℕ) → b ≡ (if id == j then Option.map (λ x. x +ℤ pos 0) b else b)
Moves-zero none id j = ground arith
Moves-zero (some x) id j = let e : x +ℤ pos 0 ≡ x = omega int_laws in rw e (ground arith)

-- `DeltaUpdateUserQuota`, through `IncreaseUserQuota` or `DecreaseUserQuota`, either moves the
-- balance of the one user by exactly `delta`, whether the updater batches or not, and leaves the
-- balances of the other users and the counters of all tokens; or it fails and leaves the database
-- and the updater's maps alone. The negative of `delta` and what is then pending for the user are
-- to be 64-bit integers.
pub delta_update_user_quota-moves :
    ⦃d : Database⦄ (c : Config) (w : World d.State) (id : ℕ) (delta : ℤ)
    → IsInt64 (pos 0 -ℤ delta)
    → IsInt64 (pending w.stores.user_quota id +ℤ delta)
    → UserMoves w.db w.stores id delta (delta_update_user_quota c id delta w)
unfolding delta_update_user_quota
delta_update_user_quota-moves c w id delta neg fits = elim (Bool-cases (eqb_ℤ delta (pos 0))) [
  | inl nothing ↦
      rw (nothing, UserMoves)
        (
          λ j. rw (zero_of delta nothing) (Moves-zero (user_balance w.db w.stores j) id j),
          λ j. (refl, refl),
        )
  | inr some_ ↦ elim (Bool-cases (ltb_ℤ (pos 0) delta)) [
    | inl more ↦ rw (some_, more) (increase-UserMoves c w id delta false fits)
    | inr less ↦
        rw (some_, less, int64_id (pos 0 -ℤ delta) neg)
          (subst
            (λ (x : ℤ). UserMoves w.db w.stores id x (decrease_user_quota c id (pos 0 -ℤ delta) w))
            (double delta)
            (decrease-UserMoves c w id (pos 0 -ℤ delta) (rw double (neg_fits delta neg less))
              (rw double fits)))
  ]
]
