-- ===== src/Quota/Effective/Tokens.antt =====
-- The quota operations of model/token.go on the abstract view.
use veloera.Base.{
  ℕ, String, ◌≡◌, refl, ℤ, pos, ◌+ℤ◌, ◌-ℤ◌, ltb_ℤ, IsInt64, int64_id, int_laws, if◌then◌else◌,
  Bool-cases, inl, inr, ◌++◌, ◌∷◌, [],
}
use veloera.Store.Rows.{Token}
use veloera.Store.Database.{Database}
use veloera.Quota.World.{
  World, Stores, Config, Result, ok, err, exec, exec-induction, type_token_quota,
  incr_token_quota_cache,
}
use veloera.Quota.Batch.{add_new_record, db_increase_token_quota, db_decrease_token_quota}
use veloera.Quota.Tokens.{increase_token_quota, decrease_token_quota}
use veloera.Quota.Effective.{
  SameBalances, Moves, token_remain, token_used, pending, pending-merge, counter-pending,
  counter-row,
}

-- How a call on a token ends: what remains has moved by `delta` and what is used the other way, for
-- this token alone, with no user's balance, or it has failed and left the database and the updater's maps as they were.
abbrev pub TokenMoves :
    ⦃d : Database⦄ → d.State → Stores → ℕ → ℤ → Result (Unit {0}) × World d.State → Type 0
TokenMoves s st id delta (ok _, w') =
    Moves (token_remain s st) (token_remain w'.db w'.stores) id delta
    × Moves (token_used s st) (token_used w'.db w'.stores) id (pos 0 -ℤ delta)
    × SameBalances s st w'.db w'.stores
TokenMoves s st id delta (err _, w') = (w'.db ≡ s) × (w'.stores ≡ st)

module _ ⦃d : Database⦄ (w : World d.State) (id : ℕ) where
  batched-TokenMoves :
      (delta : ℤ)
      → IsInt64 (pending w.stores.token_quota id +ℤ delta)
      → TokenMoves w.db w.stores id delta (add_new_record type_token_quota id delta w)
  unfolding add_new_record
  batched-TokenMoves delta fits = (
    λ j.
        counter-pending (λ q (t : Token). t.remain_quota +ℤ q) id j delta ((d.view w.db).tokens j)
          delta (pending w.stores.token_quota j) _ (λ r. omega int_laws)
          (pending-merge w.stores.token_quota id delta j fits),
    λ j.
        counter-pending (λ q (t : Token). t.used_quota -ℤ q) id j (pos 0 -ℤ delta)
          ((d.view w.db).tokens j) delta (pending w.stores.token_quota j) _ (λ r. omega int_laws)
          (pending-merge w.stores.token_quota id delta j fits),
    λ j. refl,
  )

  db_update-TokenMoves :
      (f : Token → Token) (delta : ℤ)
      → ((t : Token) → (f t).remain_quota ≡ t.remain_quota +ℤ delta)
      → ((t : Token) → (f t).used_quota ≡ t.used_quota -ℤ delta)
      → TokenMoves w.db w.stores id delta (exec (d.update_token id f) w)
  db_update-TokenMoves f delta remain used =
      exec-induction (TokenMoves w.db w.stores id delta) (d.update_token id f) w (λ _. (refl, refl))
        λ t e. (
          λ j. rw (d.update_token-view id f w.db e) (
              counter-row (λ q (t : Token). t.remain_quota +ℤ q) id j delta (d.view w.db).tokens f
                (pending w.stores.token_quota j) (λ r. rw (remain r) (omega int_laws))),
          λ j. rw (d.update_token-view id f w.db e) (
              counter-row (λ q (t : Token). t.used_quota -ℤ q) id j (pos 0 -ℤ delta)
                (d.view w.db).tokens f (pending w.stores.token_quota j)
                (λ r. rw (used r) (omega int_laws))),
          λ j. rw (d.update_token-view id f w.db e),
        )

  db_increase-TokenMoves :
      (now q : ℤ) → TokenMoves w.db w.stores id q (db_increase_token_quota now id q w)
  unfolding db_increase_token_quota
  db_increase-TokenMoves now q = db_update-TokenMoves _ q (λ t. refl) (λ t. refl)

  db_decrease-TokenMoves :
      (now q : ℤ) → TokenMoves w.db w.stores id (pos 0 -ℤ q) (db_decrease_token_quota now id q w)
  unfolding db_decrease_token_quota
  db_decrease-TokenMoves now q =
      db_update-TokenMoves _ (pos 0 -ℤ q) (λ t. omega int_laws) (λ t. omega int_laws)

-- The last statement of the two operations, either into the updater's map or into the database.
module _ ⦃d : Database⦄ (c : Config) (now : ℤ) (w : World d.State) (id : ℕ) (q : ℤ) where
  booked_increase-TokenMoves :
      IsInt64 (pending w.stores.token_quota id +ℤ q)
      → TokenMoves w.db w.stores id q (
          (if c.batch_update_enabled
              then add_new_record type_token_quota id q
              else db_increase_token_quota now id q)
            w)
  booked_increase-TokenMoves fits = elim (Bool-cases c.batch_update_enabled) [
    | inl batched ↦ rw batched (batched-TokenMoves w id q fits)
    | inr direct ↦ rw direct (db_increase-TokenMoves w id now q)
  ]

  booked_decrease-TokenMoves :
      IsInt64 (pending w.stores.token_quota id +ℤ (pos 0 -ℤ q))
      → TokenMoves w.db w.stores id (pos 0 -ℤ q) (
          (if c.batch_update_enabled
              then add_new_record type_token_quota id (pos 0 -ℤ q)
              else db_decrease_token_quota now id q)
            w)
  booked_decrease-TokenMoves fits = elim (Bool-cases c.batch_update_enabled) [
    | inl batched ↦ rw batched (batched-TokenMoves w id (pos 0 -ℤ q) fits)
    | inr direct ↦ rw direct (db_decrease-TokenMoves w id now q)
  ]

module _ ⦃d : Database⦄ (c : Config) (now : ℤ) (w : World d.State) (id : ℕ) (key : String) where
  abbrev with_job : ℤ → World d.State
  with_job q = record w { jobs = w.jobs ++ incr_token_quota_cache key q ∷ [] }

  -- `IncreaseTokenQuota` moves what remains to the token by `q` and what it has used by `-q`,
  -- whether the updater batches or not, and changes no other token and no user's balance; or it fails, and leaves the
  -- database and the updater's maps alone. What is then pending for the token is to be a 64-bit
  -- integer.
  pub increase_token_quota-moves :
      (q : ℤ)
      → IsInt64 (pending w.stores.token_quota id +ℤ q)
      → TokenMoves w.db w.stores id q (increase_token_quota c now id key q w)
  unfolding increase_token_quota
  increase_token_quota-moves q fits = elim (Bool-cases (ltb_ℤ q (pos 0))) [
    | inl negative ↦ rw (negative, TokenMoves) (refl, refl)
    | inr natural ↦ elim (Bool-cases c.redis_enabled) [
      | inl cached ↦ rw (natural, cached) (booked_increase-TokenMoves c now (with_job q) id q fits)
      | inr plain ↦ rw (natural, plain) (booked_increase-TokenMoves c now w id q fits)
    ]
  ]

  -- `DecreaseTokenQuota` moves what remains to the token by `-q` and what it has used by `q`,
  -- whether the updater batches or not, and changes no other token and no user's balance; or it
  -- fails, and leaves the database and the updater's maps alone. The negative of `q` and what is
  -- then pending for the token are to be 64-bit integers.
  pub decrease_token_quota-moves :
      (q : ℤ)
      → IsInt64 (pos 0 -ℤ q)
      → IsInt64 (pending w.stores.token_quota id +ℤ (pos 0 -ℤ q))
      → TokenMoves w.db w.stores id (pos 0 -ℤ q) (decrease_token_quota c now id key q w)
  unfolding decrease_token_quota
  decrease_token_quota-moves q neg fits = elim (Bool-cases (ltb_ℤ q (pos 0))) [
    | inl negative ↦ rw (negative, TokenMoves) (refl, refl)
    | inr natural ↦ elim (Bool-cases c.redis_enabled) [
      | inl cached ↦
          rw (natural, cached, int64_id (pos 0 -ℤ q) neg)
            (booked_decrease-TokenMoves c now (with_job (pos 0 -ℤ q)) id q fits)
      | inr plain ↦
          rw (natural, plain, int64_id (pos 0 -ℤ q) neg)
            (booked_decrease-TokenMoves c now w id q fits)
    ]
  ]
