-- ===== src/Redemption/Steps.antt =====
-- What holds after a statement and the rest of a call holds of the whole, case by case.
use veloera.Base.{Bool, true, false, ◌≡◌, refl, Option, none, some}
use veloera.Quota.World.{
  World, Result, ok, err, Error, Action, ◌>>=◌, ◌>>◌, fail_if, exec, query, or_wrap, db_error,
}

-- A statement that writes, then the rest.
module _ {ℓ} {S A : Type 0} (P : Result A × World S → Type ℓ) (f : S → Option S) where
  pub exec_then :
      (m : Action S A) (w : World S)
      → (f w.db ≡ none → P (err db_error, w))
      → ((t : S) → f w.db ≡ some t → P (m (record w { db = t })))
      → P ((exec f >> m) w)
  exec_then m w failed done = at (f w.db) refl
    where
      at :
          (o : Option S)
          → f w.db ≡ o
          → let (r, w') = (elim o as (λ _. Result (Unit {0}) × World S) [
            | none ↦ (err db_error, w)
            | some s ↦ (ok tt, record w { db = s })
          ]) in
            P (elim r as (λ _. Result A × World S) [ ok _ ↦ m w' | err e ↦ (err e, w') ])
      at none e = failed e
      at (some t) e = done t e

-- A statement that reads, then the rest.
module _ {ℓ} {S A B : Type 0} (P : Result B × World S → Type ℓ) (f : S → Option A) where
  pub query_then :
      (m : A → Action S B) (w : World S)
      → (f w.db ≡ none → P (err db_error, w))
      → ((a : A) → f w.db ≡ some a → P (m a w))
      → P ((query f >>= m) w)
  query_then m w failed done = at (f w.db) refl
    where
      at :
          (o : Option A)
          → f w.db ≡ o
          → let (r, w') = (elim o as (λ _. Result A × World S) [
            | none ↦ (err db_error, w)
            | some a ↦ (ok a, w)
          ]) in
            P (elim r as (λ _. Result B × World S) [ ok a ↦ m a w' | err e ↦ (err e, w') ])
      at none e = failed e
      at (some a) e = done a e

  pub wrapped_query_then :
      (e : Error) (m : A → Action S B) (w : World S)
      → P (err e, w)
      → ((a : A) → f w.db ≡ some a → P (m a w))
      → P ((or_wrap (query f) e >>= m) w)
  wrapped_query_then e m w failed done = at (f w.db) refl
    where
      at :
          (o : Option A)
          → f w.db ≡ o
          → let (r, w') = (elim o as (λ _. Result A × World S) [
            | none ↦ (err db_error, w)
            | some a ↦ (ok a, w)
          ]) in
            let (r', w'') = (elim r as (λ _. Result A × World S) [
              | ok a ↦ (ok a, w')
              | err _ ↦ (err e, w')
            ]) in
            P (elim r' as (λ _. Result B × World S) [ ok a ↦ m a w'' | err e ↦ (err e, w'') ])
      at none eq = failed
      at (some a) eq = done a eq

pub fail_then :
    {S A : Type 0} (P : Result A × World S → Type 0) (b : Bool) (e : Error) (m : Action S A)
    (w : World S)
    → (b ≡ true → P (err e, w))
    → (b ≡ false → P (m w))
    → P ((fail_if b e >> m) w)
fail_then P true e m w x y = x refl
fail_then P false e m w x y = y refl
