-- ===== src/Account/Committed.antt =====
-- What a transaction leaves, and a row that is saved.
use veloera.Base.{◌≡◌, refl, Option, none, some}
use veloera.Store.Database.{Database}
use veloera.Quota.World.{World, Result, ok, err, Error, Action, db_error}
use veloera.Redemption.Redeem.{transaction}

module _ ⦃d : Database⦄ {A : Type 0} (P : Result A × World d.State → Type 0) where
  closed :
      (w w' : World d.State) (r : Result A)
      → ((e : Error) → P (err e, record w' { db = w.db }))
      → ((a : A) (s : d.State)
          → r ≡ ok a
          → d.commit w'.db ≡ some s
          → P (ok a, record w' { db = s }))
      → P (elim r as (λ _. Result A × World d.State) [
        | err e ↦ (err e, record w' { db = w.db })
        | ok a ↦ elim (d.commit w'.db) as (λ _. Result A × World d.State) [
          | none ↦ (err db_error, record w' { db = w.db })
          | some s ↦ (ok a, record w' { db = s })
        ]
      ])
  closed w w' (err e) failed done = failed e
  closed w w' (ok a) failed done = commits (d.commit w'.db) refl
    where
      commits :
          (o : Option d.State)
          → d.commit w'.db ≡ o
          → P (elim o as (λ _. Result A × World d.State) [
            | none ↦ (err db_error, record w' { db = w.db })
            | some s ↦ (ok a, record w' { db = s })
          ])
      commits none e = failed db_error
      commits (some s) e = done a s refl e

  -- A transaction has failed and taken everything back, or its body has gone through, and what it
  -- wrote is committed.
  pub transaction-induction :
      (m : Action d.State A) (w : World d.State)
      → ((e : Error) → P (err e, record (m w).1 { db = w.db }))
      → ((a : A) (s : d.State)
          → (m w).0 ≡ ok a
          → d.commit (m w).1.db ≡ some s
          → P (ok a, record (m w).1 { db = s }))
      → P (transaction m w)
  unfolding transaction
  transaction-induction m w = closed w (m w).1 (m w).0
