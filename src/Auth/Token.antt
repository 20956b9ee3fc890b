-- ===== src/Auth/Token.antt =====
-- model/token.go: `ValidateUserToken`.
use veloera.Base.{
  String, Bool, true, false, not, ◌&&◌, if◌then◌else◌, ℤ, pos, negsuc, ltb_ℤ, leb_ℤ, eqb_ℤ, ltb,
  ◌≡◌, ◌≢◌, refl, sym, subst, ap, ◌∙◌, Bool-cases, inl, inr, arith, ◌≤ℤ◌, ◌<ℤ◌, ◌⊎◌,
}
use text.Mathlib.Text.{◌==◌ as str_eq}
use Prim.Native.String.{len}
use veloera.Store.Rows.{Token}
use veloera.Store.Database.{Database}
use veloera.Quota.World.{World, Config, Result, ok, err, Action, ◌>>◌, pure, exec, or_log}
use veloera.Billing.Info.{CacheAnswers}
use veloera.Billing.Lookup.{get_token_by_key}
use veloera.Billing.Reads.{Unchanged, get_token_by_key-IsRead}

abbrev pub token_status_enabled : ℤ
token_status_enabled = pos 1

abbrev pub token_status_expired : ℤ
token_status_expired = pos 3

abbrev pub token_status_exhausted : ℤ
token_status_exhausted = pos 4

-- What the call returns: the token, or why not, or the panic of `key[:3]`.
pub data Validation : Type 0 where
  valid : Token → Validation
  no_token unknown_token exhausted expired unusable panicked : Validation

module _ ⦃d : Database⦄ (c : Config) (now : ℤ) where
  -- `if !RedisEnabled { … SelectUpdate() … }` with the new status. An error is only logged.
  unfoldable pub select_update : Token → ℤ → Action d.State (Unit {0})
  select_update token status =
      if c.redis_enabled
      then pure tt
      else or_log (
          exec (
            d.update_token token.id
              (λ t. record t { accessed_time = token.accessed_time; status = status })))

  -- The error that shows parts of the key: `key[:3]` panics on a shorter key.
  unfoldable pub show_exhausted : String → Validation
  show_exhausted key = if ltb (len key) 3 then panicked else exhausted

  -- The checks of a token that was found.
  unfoldable pub check_token : String → Token → Action d.State Validation
  unfolding select_update show_exhausted
  check_token key token =
      if eqb_ℤ token.status token_status_exhausted
      then pure (show_exhausted key)
      else if eqb_ℤ token.status token_status_expired
      then pure expired
      else if not (eqb_ℤ token.status token_status_enabled)
      then pure unusable
      else if not (eqb_ℤ token.expired_time (negsuc 0)) && ltb_ℤ token.expired_time now
      then select_update token token_status_expired >> pure expired
      else if not token.unlimited_quota && leb_ℤ token.remain_quota (pos 0)
      then select_update token token_status_exhausted >> pure (show_exhausted key)
      else pure (valid token)

  -- `ValidateUserToken`
  unfoldable pub validate_user_token : CacheAnswers → String → Action d.State Validation
  unfolding check_token
  validate_user_token cache key w =
      if str_eq key ""
      then (ok no_token, w)
      else (let (r, w') = get_token_by_key c cache key w in
          elim r [ ok token ↦ check_token key token w' | err _ ↦ (ok unknown_token, w') ])

-- A token that may be used.
pub record IsUsable (now : ℤ) (t : Token) : Type 0 where
  pub is_enabled : t.status ≡ token_status_enabled
  pub not_expired : (t.expired_time ≡ negsuc 0) ⊎ (now ≤ℤ t.expired_time)
  pub has_quota : (t.unlimited_quota ≡ true) ⊎ (pos 0 <ℤ t.remain_quota)

enabled_of : (a b : ℤ) → not (eqb_ℤ a b) ≡ false → a ≡ b
enabled_of a b e = ground arith

current_of :
    (t now : ℤ) → (not (eqb_ℤ t (negsuc 0)) && ltb_ℤ t now) ≡ false → (t ≡ negsuc 0) ⊎ (now ≤ℤ t)
current_of t now e = elim (Bool-cases (eqb_ℤ t (negsuc 0))) [
  | inl never ↦ inl (ground arith)
  | inr some_time ↦ inr (ground arith)
]

quota_of : (b : Bool) (q : ℤ) → (not b && leb_ℤ q (pos 0)) ≡ false → (b ≡ true) ⊎ (pos 0 <ℤ q)
quota_of true q e = inl refl
quota_of false q e = inr (ground arith)

module _ ⦃d : Database⦄ (c : Config) (now : ℤ) (t : Token) (w : World d.State) where
  -- A branch that does not validate is not the one taken.
  past :
      (b : Bool) (x y : Action d.State Validation)
      → (x w).0 ≢ ok (valid t)
      → ((if b then x else y) w).0 ≡ ok (valid t)
      → (b ≡ false) × ((y w).0 ≡ ok (valid t)) × ((if b then x else y) w ≡ y w)
  past true x y no_way e = absurd (no_way e)
  past false x y no_way e = (refl, e, refl)

  exhausted_differs : (key : String) → ok (show_exhausted c now key) ≢ ok (valid t)
  unfolding show_exhausted
  exhausted_differs key e = elim (Bool-cases (ltb (len key) 3)) [
    | inl short ↦ ground arith
    | inr long ↦ ground arith
  ]

  updated_value :
      (token : Token) (status : ℤ) (v : Validation)
      → ((select_update c now token status >> pure v) w).0 ≡ ok v
  unfolding select_update
  updated_value token status v = elim (Bool-cases c.redis_enabled) [
    | inl cached ↦ rw cached
    | inr plain ↦ rw plain
  ]

  check_token-IsUsable :
      (key : String) (token : Token)
      → (check_token c now key token w).0 ≡ ok (valid t)
      → (token ≡ t) × IsUsable now token × ((check_token c now key token w).1 ≡ w)
  unfolding check_token
  check_token-IsUsable key token e =
      let last : Action d.State Validation = pure (valid token) in
      let spent = not token.unlimited_quota && leb_ℤ token.remain_quota (pos 0) in
      let late = not (eqb_ℤ token.expired_time (negsuc 0)) && ltb_ℤ token.expired_time now in
      let on_spent : Action d.State Validation =
        select_update c now token token_status_exhausted >> pure (show_exhausted c now key) in
      let on_late : Action d.State Validation =
        select_update c now token token_status_expired >> pure expired in
      let fourth : Action d.State Validation = if spent then on_spent else last in
      let third : Action d.State Validation = if late then on_late else fourth in
      let bad = not (eqb_ℤ token.status token_status_enabled) in
      let second : Action d.State Validation = if bad then pure unusable else third in
      let was_expired = eqb_ℤ token.status token_status_expired in
      let first : Action d.State Validation = if was_expired then pure expired else second in
      let (a0, e0, r0) =
        past (eqb_ℤ token.status token_status_exhausted) (pure (show_exhausted c now key)) first
          (exhausted_differs key) e in
      let (a1, e1, r1) = past was_expired (pure expired) second (λ x. cc) e0 in
      let (a2, e2, r2) = past bad (pure unusable) third (λ x. cc) e1 in
      let (a3, e3, r3) =
        past late on_late fourth
          (λ x. let y = sym (updated_value token token_status_expired expired) ∙ x in cc) e2 in
      let (a4, e4, r4) =
        past spent on_spent last
          (λ x.
            exhausted_differs key
              (sym (updated_value token token_status_exhausted (show_exhausted c now key)) ∙ x))
          e3 in
      (
        same_token token e4,
        record {
          is_enabled = enabled_of token.status token_status_enabled a2;
          not_expired = current_of token.expired_time now a3;
          has_quota = quota_of token.unlimited_quota token.remain_quota a4;
        },
        ap (λ (x : Result Validation × World d.State). x.1) (r0 ∙ r1 ∙ r2 ∙ r3 ∙ r4),
      )
    where
      same_token : (token : Token) → ok (valid token) ≡ ok (valid t) → token ≡ t
      same_token token e = cc

if_false : {A : Type 0} (b : Bool) (x y : A) → b ≡ false → (if b then x else y) ≡ y
if_false b x y e = rw e

module _ ⦃d : Database⦄ (c : Config) (now : ℤ) where
  -- The checks after the token was read, or not.
  abbrev checked : String → Result Token × World d.State → Result Validation × World d.State
  checked key x = elim x.0 [
    | ok token ↦ check_token c now key token x.1
    | err _ ↦ (ok unknown_token, x.1)
  ]

  checked-IsUsable :
      (key : String) (w : World d.State) (x : Result Token × World d.State) (t : Token)
      → Unchanged w x.1
      → (checked key x).0 ≡ ok (valid t)
      → (x.0 ≡ ok t) × IsUsable now t × Unchanged w (checked key x).1
  checked-IsUsable key w (err er, w') t same e = cc
  checked-IsUsable key w (ok token, w') t same e =
      let (is, usable, kept) = check_token-IsUsable c now t w' key token e in
      (
        ap ok is,
        subst (IsUsable now) is usable,
        subst (λ (v : World d.State). Unchanged w v) (sym kept) same,
      )

  -- `ValidateUserToken` lets a request through only with a token that it has read for its key, that
  -- is enabled and not expired, and that has quota left or needs none; and then it has changed
  -- neither the database nor the updater's maps.
  pub validate_user_token-IsUsable :
      (cache : CacheAnswers) (key : String) (w : World d.State) (t : Token)
      → (validate_user_token c now cache key w).0 ≡ ok (valid t)
      → ((get_token_by_key c cache key w).0 ≡ ok t)
        × IsUsable now t
        × Unchanged w (validate_user_token c now cache key w).1
  unfolding validate_user_token
  validate_user_token-IsUsable cache key w t e = elim (Bool-cases (str_eq key "")) [
    | inl empty ↦ ground arith
    | inr given ↦
        let read : Result Token × World d.State = get_token_by_key c cache key w in
        let run : validate_user_token c now cache key w ≡ checked key read =
          if_false (str_eq key "") (ok no_token, w) (checked key read) given in
        subst
          (λ (x : Result Validation × World d.State).
            (read.0 ≡ ok t) × IsUsable now t × Unchanged w x.1)
          (sym run)
          (checked-IsUsable key w read t (get_token_by_key-IsRead c cache key w)
            (sym (ap (λ (x : Result Validation × World d.State). x.0) run) ∙ e))
  ]
