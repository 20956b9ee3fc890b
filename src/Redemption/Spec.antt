-- ===== src/Redemption/Spec.antt =====
-- What the transaction of `Redeem` in model/redemption.go does to the tables.
use veloera.Base.{
  ℕ, String, Bool, true, not, ◌&&◌, ◌≡◌, if◌then◌else◌, some, ℤ, pos, negsuc, ◌+ℤ◌, int64, ltb_ℤ,
  leb_ℤ, eqb_ℤ, ltb,
}
use veloera.Store.Rows.{Redemption}
use veloera.Store.Database.{Database, Tables, adjust, save_key, count_one}

-- The code is in its period of validity.
abbrev pub in_period : ℤ → Redemption → Bool
in_period now r =
    not (ltb_ℤ (pos 0) r.valid_from && ltb_ℤ now r.valid_from)
    && not (ltb_ℤ (pos 0) r.valid_until && ltb_ℤ r.valid_until now)

-- The user may redeem it: an enabled code, or a gift with uses left that the user has not used.
abbrev pub is_redeemable : Tables → ℕ → Redemption → Bool
is_redeemable t user_id r =
    if not r.is_gift
    then eqb_ℤ r.status (pos 1)
    else not (not (eqb_ℤ r.max_uses (negsuc 0)) && leb_ℤ r.max_uses r.used_count)
      && not (ltb 0 (t.redemption_logs r.id user_id))

-- An ordinary code is used from now on, by this user.
abbrev pub code_row : ℕ → ℤ → Redemption → Redemption
code_row user_id now r = record r { redeemed_time = now; status = pos 3; used_user_id = user_id }

-- A gift has one use more, and is used up when that is the last one; -1 is no limit.
abbrev pub gift_row : Redemption → Redemption
gift_row r = record r {
  used_count = int64 (r.used_count +ℤ pos 1);
  status =
      if not (eqb_ℤ r.max_uses (negsuc 0)) && leb_ℤ r.max_uses (int64 (r.used_count +ℤ pos 1))
      then pos 3
      else r.status;
}

abbrev pub redeemed_row : ℕ → ℤ → Redemption → Redemption
redeemed_row user_id now r = if not r.is_gift then code_row user_id now r else gift_row r

-- The tables after it: the user has the quota, the code's row is used, and a gift's use is logged.
abbrev pub redeemed_tables : Tables → ℕ → ℤ → Redemption → Tables
redeemed_tables t user_id now r = record t {
  users = adjust user_id (λ u. record u { quota = u.quota +ℤ r.quota }) t.users;
  redemptions =
      save_key (redeemed_row user_id now r).key (redeemed_row user_id now r) t.redemptions;
  redemption_logs =
      if not r.is_gift then t.redemption_logs else count_one r.id user_id t.redemption_logs;
}

-- A redemption that went through: the row, why it was allowed, and the tables after it.
pub record Redeemed ⦃d : Database⦄ (key : String) (user_id : ℕ) (now : ℤ) (before after : d.State)
    (saved : Redemption) : Type 0 where
  pub row : Redemption
  pub found : (d.view before).redemptions key ≡ some row
  pub keyed : row.key ≡ key
  pub timely : in_period now row ≡ true
  pub allowed : is_redeemable (d.view before) user_id row ≡ true
  pub is_saved : saved ≡ redeemed_row user_id now row
  pub written : d.view after ≡ redeemed_tables (d.view before) user_id now row
