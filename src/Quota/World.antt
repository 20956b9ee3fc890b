-- ===== src/Quota/World.antt =====
-- What the quota operations of package model work on: the database, the maps of the batch updater
-- (model/utils.go), and the goroutines that they launch.
use veloera.Base.{
  ◌≡◌, refl, ℕ, String, Bool, true, false, Option, none, some, List, [], ◌∷◌, ◌++◌, ℤ, pos, ◌-ℤ◌,
  int64,
}
use veloera.Base.Dict.{Dict}

-- `common.BatchUpdateEnabled` and `common.RedisEnabled`.
pub record Config : Type 0 where
  pub batch_update_enabled : Bool
  pub redis_enabled : Bool

-- The goroutines, in the order of their launch. They write to the Redis cache or notify a user, and
-- touch neither the database nor the updater's maps.
pub data Job : Type 0 where
  incr_user_quota_cache : ℕ → ℤ → Job
  incr_token_quota_cache : String → ℤ → Job
  update_user_cache : ℕ → Job
  update_user_quota_cache : ℕ → ℤ → Job
  set_token_cache : String → Job
  -- `checkAndSendQuotaNotify`, with the amount and the pre-consumed amount.
  check_quota_notify : ℕ → ℤ → ℤ → Job

-- The constants `BatchUpdateType…`.
pub data BatchUpdateType : Type 0 where
  type_user_quota type_token_quota type_used_quota type_channel_used_quota type_request_count :
      BatchUpdateType

-- `batchUpdateStores`, one map for each type.
pub record Stores : Type 0 where
  pub user_quota : Dict ℕ ℤ
  pub token_quota : Dict ℕ ℤ
  pub used_quota : Dict ℕ ℤ
  pub channel_used_quota : Dict ℕ ℤ
  pub request_count : Dict ℕ ℤ

pub record World (S : Type 0) : Type 0 where
  pub db : S
  pub stores : Stores
  pub jobs : List Job

pub data Error : Type 0 where
  negative_quota empty_id db_error token_quota_not_enough : Error
  -- The codes of `OpenAIErrorWrapperLocal`.
  get_user_quota_failed insufficient_user_quota pre_consume_token_quota_failed : Error
  decrease_user_quota_failed : Error
  -- The error of the channel, whatever it is.
  upstream_failed : Error
  -- Those of `Redeem`.
  no_key no_user lock_failed too_frequent invalid_code not_yet_valid code_expired code_used : Error
  gift_exhausted gift_used_by_user : Error
  -- Those of check-in and of the transfer of invitation quota.
  check_in_disabled check_in_quota_invalid already_checked_in : Error
  transfer_too_small aff_quota_not_enough : Error

pub data Result (A : Type 0) : Type 0 where
  ok : A → Result A
  err : Error → Result A

-- A call: its result, and the world after it. What was written before an error stays written.
abbrev pub Action : Type 0 → Type 0 → Type 0
Action S A = World S → Result A × World S

infixl 5 ◌>>=◌ ◌>>◌
abbrev pub ◌>>=◌ : {S A B : Type 0} → Action S A → (A → Action S B) → Action S B
◌>>=◌ m f w = let (r, w') = m w in elim r [ ok a ↦ f a w' | err e ↦ (err e, w') ]

abbrev pub ◌>>◌ : {S A B : Type 0} → Action S A → Action S B → Action S B
m >> k = m >>= λ _. k

module _ {S : Type 0} where
  abbrev pub pure : {A : Type 0} → A → Action S A
  pure a w = (ok a, w)

  abbrev pub fail : {A : Type 0} → Error → Action S A
  fail e w = (err e, w)

  -- `if c { return e }`
  abbrev pub fail_if : Bool → Error → Action S (Unit {0})
  fail_if true e w = (err e, w)
  fail_if false e w = (ok tt, w)

  -- `gopool.Go`
  abbrev pub launch : Job → Action S (Unit {0})
  launch j w = (ok tt, record w { jobs = w.jobs ++ j ∷ [] })

  -- A statement that writes; when it fails the database is as it was.
  abbrev pub exec : (S → Option S) → Action S (Unit {0})
  exec f w = elim (f w.db) [ none ↦ (err db_error, w) | some s ↦ (ok tt, record w { db = s }) ]

  -- `if err != nil { return wrapper(err) }`
  abbrev pub or_wrap : {A : Type 0} → Action S A → Error → Action S A
  or_wrap m e w = let (r, w') = m w in elim r [ ok a ↦ (ok a, w') | err _ ↦ (err e, w') ]

  -- A statement that reads.
  abbrev pub query : {A : Type 0} → (S → Option A) → Action S A
  query f w = elim (f w.db) [ none ↦ (err db_error, w) | some a ↦ (ok a, w) ]

  -- An error that is only logged.
  abbrev pub or_log : Action S (Unit {0}) → Action S (Unit {0})
  or_log m w = (ok tt, (m w).1)

-- `-a` of a Go `int`.
abbrev pub neg64 : ℤ → ℤ
neg64 a = int64 (pos 0 -ℤ a)

-- What holds of a statement's two outcomes holds of the call.
module _ {ℓ} {S : Type 0} (P : Result (Unit {0}) × World S → Type ℓ) (f : S → Option S)
    (w : World S) where
  exec_cases :
      (o : Option S)
      → (o ≡ none → P (err db_error, w))
      → ((t : S) → o ≡ some t → P (ok tt, record w { db = t }))
      → P (elim o [ none ↦ (err db_error, w) | some s ↦ (ok tt, record w { db = s }) ])
  exec_cases none failed done = failed refl
  exec_cases (some t) failed done = done t refl

  pub exec-induction :
      (f w.db ≡ none → P (err db_error, w))
      → ((t : S) → f w.db ≡ some t → P (ok tt, record w { db = t }))
      → P (exec f w)
  exec-induction = exec_cases (f w.db)

-- A statement that succeeds.
pub exec-some :
    {S : Type 0} (f : S → Option S) (w : World S) {t : S}
    → f w.db ≡ some t
    → exec f w ≡ (ok tt, record w { db = t })
exec-some f w e = rw (e, exec)

-- What holds of a call in each of its two outcomes holds of what continues it.
module _ {ℓ} {S A B : Type 0} (P : Result B × World S → Type ℓ) (f : A → Action S B) where
  bind_cases :
      (r : Result A) (w : World S)
      → ((e : Error) → r ≡ err e → P (err e, w))
      → ((a : A) → r ≡ ok a → P (f a w))
      → P (elim r [ ok a ↦ f a w | err e ↦ (err e, w) ])
  bind_cases (ok a) w failed done = done a refl
  bind_cases (err e) w failed done = failed e refl

  pub bind-induction :
      (m : Action S A) (w : World S)
      → ((e : Error) → (m w).0 ≡ err e → P (err e, (m w).1))
      → ((a : A) → (m w).0 ≡ ok a → P (f a (m w).1))
      → P ((m >>= f) w)
  bind-induction m w = bind_cases (m w).0 (m w).1

-- The same of `or_wrap`.
module _ {ℓ} {S A : Type 0} (P : Result A × World S → Type ℓ) (e : Error) where
  wrap_cases :
      (r : Result A) (w : World S)
      → ((e' : Error) → r ≡ err e' → P (err e, w))
      → ((a : A) → r ≡ ok a → P (ok a, w))
      → P (elim r [ ok a ↦ (ok a, w) | err _ ↦ (err e, w) ])
  wrap_cases (ok a) w failed done = done a refl
  wrap_cases (err e') w failed done = failed e' refl

  pub or_wrap-induction :
      (m : Action S A) (w : World S)
      → ((e' : Error) → (m w).0 ≡ err e' → P (err e, (m w).1))
      → ((a : A) → (m w).0 ≡ ok a → P (ok a, (m w).1))
      → P (or_wrap m e w)
  or_wrap-induction m w = wrap_cases (m w).0 (m w).1
