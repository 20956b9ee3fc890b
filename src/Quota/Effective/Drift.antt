-- ===== src/Quota/Effective/Drift.antt =====
-- What a quota operation of model/user.go or model/token.go does to the updater's maps, and when it
-- succeeds.
use veloera.Base.{
  ℕ, String, false, ◌≡◌, refl, ◌∙◌, ◌+◌, ◌≤◌, ◌<◌, ◌^◌, ◌⊎◌, inl, inr, ◌++◌, ◌∷◌, [], some, ℤ, pos,
  negsuc, ◌+ℤ◌, ◌-ℤ◌, ltb_ℤ, pos_part, neg_part, IsInt64, int64_id, fits_of_parts, arith,
  if◌then◌else◌, Bool-cases, ==_iff, Option,
}
use veloera.Base.Dict.{Dict, lookup, insert, nat_key}
use veloera.Store.Rows.{User, Token}
use veloera.Store.Database.{Database}
use veloera.Quota.World.{
  World, Stores, Config, Result, ok, exec, exec-some, BatchUpdateType, type_user_quota,
  type_token_quota, incr_user_quota_cache, incr_token_quota_cache,
}
use veloera.Quota.Batch.{
  store_of, with_store, merge, add_new_record, db_increase_user_quota, db_decrease_user_quota,
  db_increase_token_quota, db_decrease_token_quota,
}
use veloera.Quota.Users.{increase_user_quota, decrease_user_quota}
use veloera.Quota.Tokens.{increase_token_quota, decrease_token_quota}
use veloera.Quota.Effective.{pending, pending-merge}
use veloera.Quota.Effective.Flush.{Works}

-- The maps are as they were, or one of them has the value booked.
abbrev pub Booked : BatchUpdateType → Stores → Stores → ℕ → ℤ → Type 0
Booked type st st' id v =
    (st' ≡ st)
    ⊎ (st'
        ≡ with_store type (insert id (merge (lookup id (store_of type st)) v) (store_of type st))
            st)

-- At most `n` is pending for an id, on either side of zero.
abbrev pub Near : Dict ℕ ℤ → ℕ → ℕ → Type 0
Near m id n = (pos_part (pending m id) ≤ n) × (neg_part (pending m id) ≤ n)

near_sum :
    (p v : ℤ) (n k : ℕ)
    → pos_part p ≤ n
    → neg_part p ≤ n
    → pos_part v ≤ k
    → neg_part v ≤ k
    → (pos_part (p +ℤ v) ≤ n + k) × (neg_part (p +ℤ v) ≤ n + k)
unfolding ◌+ℤ◌
near_sum (pos a) (pos b) n k = ground arith
near_sum (pos a) (negsuc b) n k = ground arith
near_sum (negsuc a) (pos b) n k = ground arith
near_sum (negsuc a) (negsuc b) n k = ground arith

pub sum_fits :
    (m : Dict ℕ ℤ) (id : ℕ) (v : ℤ) (n k : ℕ)
    → Near m id n
    → pos_part v ≤ k
    → neg_part v ≤ k
    → n + k < 2 ^ 63
    → IsInt64 (pending m id +ℤ v)
sum_fits m id v n k (a, b) c d small =
    let (x, y) = near_sum (pending m id) v n k a b c d in
    fits_of_parts (pending m id +ℤ v) (omega arith) (omega arith)

pub Near-insert :
    (m : Dict ℕ ℤ) (id : ℕ) (v : ℤ) (n k : ℕ)
    → Near m id n
    → pos_part v ≤ k
    → neg_part v ≤ k
    → n + k < 2 ^ 63
    → Near (insert id (merge (lookup id m) v) m) id (n + k)
Near-insert m id v n k near c d small =
    let e : pending (insert id (merge (lookup id m) v) m) id ≡ pending m id +ℤ v =
      pending-merge m id v id (sum_fits m id v n k near c d small) ∙ rw ((==_iff id id).1 refl) in
    rw e (near_sum (pending m id) v n k near.0 near.1 c d)

module _ ⦃d : Database⦄ (works : Works) (w : World d.State) (id : ℕ) where
  exec-Wrote :
      (f : d.State → Option d.State)
      → (t : d.State) × (f w.db ≡ some t)
      → ((exec f w).0 ≡ ok tt) × ((exec f w).1.stores ≡ w.stores)
  exec-Wrote f (t, e) = rw (exec-some f w e) (refl, refl)

  update_user-Wrote :
      (f : User → User)
      → ((exec (d.update_user id f) w).0 ≡ ok tt)
        × ((exec (d.update_user id f) w).1.stores ≡ w.stores)
  update_user-Wrote f = exec-Wrote (d.update_user id f) (works.users id f w.db)

  update_token-Wrote :
      (f : Token → Token)
      → ((exec (d.update_token id f) w).0 ≡ ok tt)
        × ((exec (d.update_token id f) w).1.stores ≡ w.stores)
  update_token-Wrote f = exec-Wrote (d.update_token id f) (works.tokens id f w.db)

-- A call that succeeded, and booked at most one value.
abbrev pub Succeeds :
    {S : Type 0} → BatchUpdateType → ℕ → ℤ → World S → Result (Unit {0}) × World S → Type 0
Succeeds type id v w (r, w') = (r ≡ ok tt) × Booked type w.stores w'.stores id v

module _ ⦃d : Database⦄ (works : Works) (c : Config) (w : World d.State) (id : ℕ) (q : ℤ) where
  direct : {A B C : Type 0} → A × B → A × (B ⊎ C)
  direct (a, b) = (a, inl b)

  pub increase_user_quota-Succeeds :
      ltb_ℤ q (pos 0) ≡ false → Succeeds type_user_quota id q w (increase_user_quota c id q false w)
  unfolding increase_user_quota add_new_record db_increase_user_quota
  increase_user_quota-Succeeds natural = elim (Bool-cases c.batch_update_enabled) [
    | inl batched ↦ rw (natural, batched) (refl, inr refl)
    | inr plain ↦
        rw (natural, plain)
          (direct (
            update_user-Wrote works (record w { jobs = w.jobs ++ incr_user_quota_cache id q ∷ [] })
              id _))
  ]

  pub decrease_user_quota-Succeeds :
      ltb_ℤ q (pos 0) ≡ false
      → IsInt64 (pos 0 -ℤ q)
      → Succeeds type_user_quota id (pos 0 -ℤ q) w (decrease_user_quota c id q w)
  unfolding decrease_user_quota add_new_record db_decrease_user_quota
  decrease_user_quota-Succeeds natural fits = elim (Bool-cases c.batch_update_enabled) [
    | inl batched ↦ rw (natural, batched, int64_id (pos 0 -ℤ q) fits) (refl, inr refl)
    | inr plain ↦
        rw (natural, plain, int64_id (pos 0 -ℤ q) fits)
          (direct (
            update_user-Wrote works
              (record w { jobs = w.jobs ++ incr_user_quota_cache id (pos 0 -ℤ q) ∷ [] }) id _))
  ]

-- The last statement of the two operations on a token.
module _ ⦃d : Database⦄ (works : Works) (c : Config) (now : ℤ) (w : World d.State) (id : ℕ)
    (v q : ℤ) where
  booked_increase-Succeeds : Succeeds type_token_quota id q w (
      (if c.batch_update_enabled
          then add_new_record type_token_quota id q
          else db_increase_token_quota now id q)
        w)
  unfolding add_new_record db_increase_token_quota
  booked_increase-Succeeds = elim (Bool-cases c.batch_update_enabled) [
    | inl batched ↦ rw batched (refl, inr refl)
    | inr plain ↦ rw plain (direct works c w id q (update_token-Wrote works w id _))
  ]

  booked_decrease-Succeeds : Succeeds type_token_quota id v w (
      (if c.batch_update_enabled
          then add_new_record type_token_quota id v
          else db_decrease_token_quota now id q)
        w)
  unfolding add_new_record db_decrease_token_quota
  booked_decrease-Succeeds = elim (Bool-cases c.batch_update_enabled) [
    | inl batched ↦ rw batched (refl, inr refl)
    | inr plain ↦ rw plain (direct works c w id q (update_token-Wrote works w id _))
  ]

module _ ⦃d : Database⦄ (works : Works) (c : Config) (now : ℤ) (w : World d.State) (id : ℕ)
    (key : String) (q : ℤ) where
  pub increase_token_quota-Succeeds :
      ltb_ℤ q (pos 0) ≡ false
      → Succeeds type_token_quota id q w (increase_token_quota c now id key q w)
  unfolding increase_token_quota
  increase_token_quota-Succeeds natural = elim (Bool-cases c.redis_enabled) [
    | inl cached ↦
        rw (natural, cached)
          (booked_increase-Succeeds works c now
            (record w { jobs = w.jobs ++ incr_token_quota_cache key q ∷ [] }) id q q)
    | inr plain ↦ rw (natural, plain) (booked_increase-Succeeds works c now w id q q)
  ]

  pub decrease_token_quota-Succeeds :
      ltb_ℤ q (pos 0) ≡ false
      → IsInt64 (pos 0 -ℤ q)
      → Succeeds type_token_quota id (pos 0 -ℤ q) w (decrease_token_quota c now id key q w)
  unfolding decrease_token_quota
  decrease_token_quota-Succeeds natural fits = elim (Bool-cases c.redis_enabled) [
    | inl cached ↦
        rw (natural, cached, int64_id (pos 0 -ℤ q) fits)
          (booked_decrease-Succeeds works c now
            (record w { jobs = w.jobs ++ incr_token_quota_cache key (pos 0 -ℤ q) ∷ [] }) id
            (pos 0 -ℤ q) q)
    | inr plain ↦
        rw (natural, plain, int64_id (pos 0 -ℤ q) fits)
          (booked_decrease-Succeeds works c now w id (pos 0 -ℤ q) q)
  ]
