-- ===== src/Billing/Reads.antt =====
-- The reads of model/user.go and model/token.go leave the accounts alone.
use veloera.Base.{
  ℕ, String, Bool, true, false, ◌≡◌, refl, ◌∙◌, Option, some, none, ℤ, if◌then◌else◌, ◌==◌,
}
use veloera.Store.Rows.{User}
use veloera.Store.Database.{Database}
use veloera.Quota.World.{
  World, Config, Result, ok, err, Action, ◌>>◌, ◌>>=◌, pure, launch, query, Job, bind-induction,
  set_token_cache, update_user_quota_cache, update_user_cache, db_error,
}
use veloera.Billing.Info.{CacheAnswers}
use veloera.Billing.Lookup.{
  get_user_by_id, get_user_quota_cache, get_user_quota, get_token_by_key, or_else,
}

-- The accounts are as they were.
abbrev pub Unchanged : {S : Type 0} → World S → World S → Type 0
Unchanged w w' = (w'.db ≡ w.db) × (w'.stores ≡ w.stores)

pub Unchanged-trans :
    {S : Type 0} (w w' w'' : World S) → Unchanged w w' → Unchanged w' w'' → Unchanged w w''
Unchanged-trans w w' w'' (a, b) (c, d) = (c ∙ a, d ∙ b)

abbrev pub IsRead : {S A : Type 0} → Action S A → Type 0
IsRead {S} m = (w : World S) → Unchanged w (m w).1

module _ {S : Type 0} where
  bind-IsRead :
      {A B : Type 0} (m : Action S A) (f : A → Action S B)
      → IsRead m
      → ((a : A) → IsRead (f a))
      → IsRead (m >>= f)
  bind-IsRead m f h k w =
      bind-induction (λ r. Unchanged w r.1) f m w (λ _ _. h w)
        λ a _. Unchanged-trans w (m w).1 (f a (m w).1).1 (h w) (k a (m w).1)

  query-IsRead : {A : Type 0} (f : S → Option A) → IsRead (query f)
  query-IsRead {A} f w = at (f w.db)
    where
      at :
          (o : Option A)
          → Unchanged w
              (elim o as (λ _. Result A × World S) [
                | none ↦ (err db_error, w)
                | some a ↦ (ok a, w)
              ]).1
      at none = (refl, refl)
      at (some a) = (refl, refl)

  launch-pure-IsRead : {A : Type 0} (j : Job) (a : A) → IsRead (launch {S = S} j >> pure a)
  launch-pure-IsRead j a w = (refl, refl)

module _ ⦃d : Database⦄ (c : Config) (cache : CacheAnswers) where
  or_else-IsRead :
      {A : Type 0} (m n : Action d.State A) → IsRead m → IsRead n → IsRead (or_else c cache m n)
  or_else-IsRead {A} m n h k w = at (m w) (h w)
    where
      at :
          (r : Result A × World d.State)
          → Unchanged w r.1
          → Unchanged w
              (elim r.0 as (λ _. Result A × World d.State) [ ok a ↦ (ok a, r.1) | err e ↦ n r.1 ]).1
      at (ok a, w') u = u
      at (err e, w') u = Unchanged-trans w w' (n w').1 u (k w')

  if-IsRead :
      {A : Type 0} (b : Bool) (m n : Action d.State A)
      → IsRead m
      → IsRead n
      → IsRead (if b then m else n)
  if-IsRead true m n h k = h
  if-IsRead false m n h k = k

  option-IsRead :
      {A B : Type 0} (o : Option A) (f : A → Action d.State B) (n : Action d.State B)
      → ((a : A) → IsRead (f a))
      → IsRead n
      → IsRead (elim o as (λ _. Action d.State B) [ some a ↦ f a | none ↦ n ])
  option-IsRead (some a) f n h k = h a
  option-IsRead none f n h k = k

  -- A row is read, a goroutine is launched, and a part of the row is returned.
  fetch-IsRead :
      {A B : Type 0} (m : Action d.State A) (j : A → Job) (f : A → B)
      → IsRead m
      → IsRead (m >>= λ a. launch (j a) >> pure (f a))
  fetch-IsRead m j f h =
      bind-IsRead m (λ a. launch (j a) >> pure (f a)) h (λ a. launch-pure-IsRead (j a) (f a))

  pub get_token_by_key-IsRead : (key : String) → IsRead (get_token_by_key c cache key)
  unfolding get_token_by_key
  get_token_by_key-IsRead key =
      if-IsRead c.redis_enabled _ _
        (option-IsRead cache.token _ _ (λ token w. (refl, refl))
          (fetch-IsRead (query (d.first_token key)) (λ _. set_token_cache key) (λ t. t)
            (query-IsRead _)))
        (query-IsRead _)

  get_user_by_id-IsRead : (id : ℕ) → IsRead (get_user_by_id id)
  unfolding get_user_by_id
  get_user_by_id-IsRead id = if-IsRead (id == 0) _ _ (λ w. (refl, refl)) (query-IsRead _)

  get_user_quota_cache-IsRead : (id : ℕ) → IsRead (get_user_quota_cache c cache id)
  unfolding get_user_quota_cache
  get_user_quota_cache-IsRead id =
      option-IsRead cache.user_quota _ _ (λ quota w. (refl, refl))
        (fetch-IsRead (get_user_by_id id) (λ _. update_user_cache id) (λ (u : User). u.quota)
          (get_user_by_id-IsRead id))

  pub get_user_quota-IsRead : (id : ℕ) → IsRead (get_user_quota c cache id)
  unfolding get_user_quota
  get_user_quota-IsRead id =
      let row : Action d.State ℤ = query (d.select_user_quota id) in
      let read : Action d.State ℤ = row >>= λ q. launch (update_user_quota_cache id q) >> pure q in
      if-IsRead c.redis_enabled (or_else c cache (get_user_quota_cache c cache id) read) row
        (or_else-IsRead (get_user_quota_cache c cache id) read (get_user_quota_cache-IsRead id) (
          fetch-IsRead row (λ q. update_user_quota_cache id q) (λ q. q)
            (query-IsRead (d.select_user_quota id))))
        (query-IsRead (d.select_user_quota id))
