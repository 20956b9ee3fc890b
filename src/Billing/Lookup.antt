-- ===== src/Billing/Lookup.antt =====
-- The reads that come before a charge: `GetUserQuota` of model/user.go with `getUserQuotaCache` of
-- model/user_cache.go, and `GetTokenByKey` of model/token.go, each with `fromDB` false.
use veloera.Base.{ℕ, String, none, some, ◌==◌, if◌then◌else◌, ℤ}
use veloera.Store.Rows.{Token, User}
use veloera.Store.Database.{Database}
use veloera.Quota.World.{
  Config, update_user_cache, update_user_quota_cache, empty_id, set_token_cache, Action, ok, err,
  ◌>>=◌, ◌>>◌, pure, fail, launch, query,
}
use veloera.Billing.Info.{CacheAnswers}

module _ ⦃d : Database⦄ where
  -- `GetUserById`
  unfoldable pub get_user_by_id : ℕ → Action d.State User
  get_user_by_id id = if id == 0 then fail empty_id else query (d.first_user id)

module _ ⦃d : Database⦄ (c : Config) (cache : CacheAnswers) where
  -- `getUserQuotaCache`: the cache, or the database and a goroutine that fills the cache.
  unfoldable pub get_user_quota_cache : ℕ → Action d.State ℤ
  unfolding get_user_by_id
  get_user_quota_cache id = elim cache.user_quota [
    | some quota ↦ pure quota
    | none ↦ do user ← get_user_by_id id; launch (update_user_cache id); pure user.quota
  ]

  -- `if err == nil { return … }`, else the next statement.
  abbrev pub or_else : {A : Type 0} → Action d.State A → Action d.State A → Action d.State A
  or_else m n w = let (r, w') = m w in elim r [ ok a ↦ (ok a, w') | err e ↦ n w' ]

  -- `GetUserQuota`
  unfoldable pub get_user_quota : ℕ → Action d.State ℤ
  unfolding get_user_quota_cache
  get_user_quota id =
      if c.redis_enabled
      then or_else (get_user_quota_cache id) (do
        quota ← query (d.select_user_quota id)
        launch (update_user_quota_cache id quota)
        pure quota)
      else query (d.select_user_quota id)

  -- `GetTokenByKey`
  unfoldable pub get_token_by_key : String → Action d.State Token
  get_token_by_key key =
      if c.redis_enabled
      then elim cache.token [
        | some token ↦ pure token
        | none ↦ do token ← query (d.first_token key); launch (set_token_cache key); pure token
      ]
      else query (d.first_token key)
