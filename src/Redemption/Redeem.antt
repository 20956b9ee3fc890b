-- ===== src/Redemption/Redeem.antt =====
-- `Redeem` of model/redemption.go, and `ProcessRebate` of model/user.go.
use veloera.Base.{
  ℕ, String, Bool, false, not, ◌&&◌, if◌then◌else◌, ◌==◌, Option, none, some, ℤ, pos, negsuc, ◌+ℤ◌,
  ltb_ℤ, leb_ℤ, eqb_ℤ, int64, ltb,
}
use veloera.Store.Rows.{User, Redemption}
use veloera.Store.Database.{Database}
use veloera.Quota.World.{
  Config, ok, err, Action, ◌>>=◌, ◌>>◌, pure, fail, fail_if, exec, query, or_wrap, or_log, db_error,
  no_key, no_user, lock_failed, too_frequent, invalid_code, not_yet_valid, code_expired, code_used,
  gift_exhausted, gift_used_by_user,
}
use veloera.Quota.Users.{increase_user_quota}
use veloera.Billing.Lookup.{get_user_by_id}
use text.Mathlib.Text.{◌==◌ as str_eq}

-- The constants `RedemptionCodeStatus…` of common/constants.go.
abbrev pub status_enabled : ℤ
status_enabled = pos 1

abbrev pub status_used : ℤ
status_used = pos 3

-- `common.RebateEnabled && common.RebatePercentage > 0`, and the float computation of the amount.
pub record Rebate : Type 0 where
  pub is_on : Bool
  pub amount_of : ℤ → ℤ

-- No limit on the uses of a gift.
abbrev pub is_unlimited : Redemption → Bool
is_unlimited r = eqb_ℤ r.max_uses (negsuc 0)

-- The row of a gift after one more use.
unfoldable pub use_gift : Redemption → Redemption
use_gift r =
    let used = record r { used_count = int64 (r.used_count +ℤ pos 1) } in
    if not (is_unlimited r) && leb_ℤ r.max_uses used.used_count
    then record used { status = status_used }
    else used

unfoldable pub use_code : ℕ → ℤ → Redemption → Redemption
use_code user_id now r = record r {
  redeemed_time = now;
  status = status_used;
  used_user_id = user_id;
}

abbrev pub add_redeemed : Redemption → User → User
add_redeemed r u = record u { quota = u.quota +ℤ r.quota }

module _ ⦃d : Database⦄ where
  -- `DB.Transaction`: an error, or a failed commit, takes everything back.
  unfoldable pub transaction : {A : Type 0} → Action d.State A → Action d.State A
  transaction m w =
      let (r, w') = m w in
      elim r [
        | err e ↦ (err e, record w' { db = w.db })
        | ok a ↦ elim (d.commit w'.db) [
          | none ↦ (err db_error, record w' { db = w.db })
          | some s ↦ (ok a, record w' { db = s })
        ]
      ]

  -- The branch of an ordinary code.
  unfoldable pub redeem_code : ℕ → ℤ → Redemption → Action d.State Redemption
  redeem_code user_id now r = do
    fail_if (not (eqb_ℤ r.status status_enabled)) code_used
    exec (d.update_user user_id (add_redeemed r))
    pure (use_code user_id now r)

  -- The branch of a gift code.
  unfoldable pub redeem_gift : ℕ → Redemption → Action d.State Redemption
  redeem_gift user_id r = do
    fail_if (not (is_unlimited r) && leb_ℤ r.max_uses r.used_count) gift_exhausted
    usage_count ← query (d.count_redemption_logs r.id user_id)
    fail_if (ltb 0 usage_count) gift_used_by_user
    exec (d.update_user user_id (add_redeemed r))
    exec (d.create_redemption_log r.id user_id)
    pure (use_gift r)

  -- The transaction's body.
  unfoldable pub redeem_row : String → ℕ → ℤ → Action d.State Redemption
  unfolding redeem_code redeem_gift
  redeem_row key user_id now = do
    r ← or_wrap (query (d.first_redemption key)) invalid_code
    fail_if (ltb_ℤ (pos 0) r.valid_from && ltb_ℤ now r.valid_from) not_yet_valid
    fail_if (ltb_ℤ (pos 0) r.valid_until && ltb_ℤ r.valid_until now) code_expired
    saved ← (if not r.is_gift then redeem_code user_id now r else redeem_gift user_id r)
    exec (d.save_redemption saved)
    pure saved

  -- `ProcessRebate`, without its two log rows.
  unfoldable pub process_rebate : Config → Rebate → ℕ → ℤ → Action d.State (Unit {0})
  unfolding get_user_by_id
  process_rebate c rebate user_id amount = if not rebate.is_on then pure tt else (do
    user ← get_user_by_id user_id
    if user.inviter_id == 0
        then pure tt
        else if leb_ℤ (rebate.amount_of amount) (pos 0)
        then pure tt
        else increase_user_quota c user.inviter_id (rebate.amount_of amount) false)

  unfoldable pub take_lock : Option Bool → Action d.State (Unit {0})
  take_lock none = fail lock_failed
  take_lock (some locked) = fail_if (not locked) too_frequent

  -- `Redeem`, with what Redis answers to `SetNX`: `none` is an error.
  unfoldable pub redeem : Config → Rebate → Option Bool → String → ℕ → ℤ → Action d.State (ℤ × Bool)
  unfolding transaction process_rebate take_lock
  redeem c rebate locked key user_id now = do
    fail_if (str_eq key "") no_key
    fail_if (user_id == 0) no_user
    take_lock locked
    redemption ← transaction (redeem_row key user_id now)
    or_log (process_rebate c rebate user_id redemption.quota)
    pure (redemption.quota, redemption.is_gift)
