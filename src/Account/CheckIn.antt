-- ===== src/Account/CheckIn.antt =====
-- model/user.go: `CheckIn` with its parts, `CanCheckInToday`, `TransferAffQuotaToQuota` and
-- `inviteUser`; controller/user.go: the check-in's settings and its handler. The day in UTC,
-- `RandomInt`, `strconv.Atoi` and the float comparison are arguments. The rows of the log, for which
-- an error is only reported, are left out.
use veloera.Base.{
  ℕ, String, Bool, false, not, if◌then◌else◌, ◌==◌, Option, none, some, ℤ, pos, ◌+ℤ◌, ◌-ℤ◌, ltb_ℤ,
  leb_ℤ, int64,
}
use text.Mathlib.Text.{◌==◌ as str_eq}
use veloera.Store.Rows.{User}
use veloera.Store.Database.{Database}
use veloera.Quota.World.{
  Action, ◌>>=◌, ◌>>◌, pure, fail, fail_if, exec, query, launch, update_user_quota_cache,
  check_in_disabled, check_in_quota_invalid, already_checked_in, transfer_too_small,
  aff_quota_not_enough,
}
use veloera.Billing.Lookup.{get_user_by_id}
use veloera.Redemption.Redeem.{transaction}

abbrev pub same_day : Option ℕ → ℕ → Bool
same_day none today = false
same_day (some day) today = day == today

-- `CanCheckInToday`
unfoldable pub can_check_in_today : User → ℕ → Bool
can_check_in_today u today = not (same_day u.last_check_in_day today)

-- The reward of a user who can check in.
unfoldable pub reward_between : (ℤ → ℤ) → ℤ → ℤ → ℤ
reward_between random_int min_quota max_quota =
    if ltb_ℤ min_quota max_quota
    then int64 (min_quota +ℤ random_int (int64 (int64 (max_quota -ℤ min_quota) +ℤ pos 1)))
    else min_quota

-- `calculateCheckInReward`: `none` for one who has checked in today.
unfoldable pub calculate_check_in_reward : (ℤ → ℤ) → User → ℕ → ℤ → ℤ → Option ℤ
unfolding reward_between
calculate_check_in_reward random_int user today min_quota max_quota =
    if same_day user.last_check_in_day today
    then none
    else some (reward_between random_int min_quota max_quota)

-- The row that `applyAndSaveCheckIn` saves.
abbrev pub checked_in : User → ℕ → ℤ → User
checked_in user today reward = record user {
  last_check_in_day = some today;
  quota = int64 (user.quota +ℤ reward);
}

module _ ⦃d : Database⦄ where
  abbrev pub save_user : ℕ → User → d.State → Option d.State
  save_user id user = d.update_user id (λ _. user)

  unfoldable pub apply_check_in : ℕ → User → ℕ → Option ℤ → Action d.State ℤ
  apply_check_in id user today none = fail already_checked_in
  apply_check_in id user today (some reward) = do
    exec (save_user id (checked_in user today reward))
    pure reward

  -- The transaction: the row is locked and read, but the user's copy is not read again.
  unfoldable pub check_in_body : (ℤ → ℤ) → ℕ → User → ℕ → ℤ → ℤ → Action d.State ℤ
  unfolding apply_check_in calculate_check_in_reward
  check_in_body random_int id user today min_quota max_quota = do
    _ ← query (d.first_user id)
    apply_check_in id user today
        (calculate_check_in_reward random_int user today min_quota max_quota)

  -- `CheckIn`, of a user read before; the cache is written at the end.
  unfoldable pub check_in : (ℤ → ℤ) → ℕ → User → ℕ → ℤ → ℤ → Action d.State ℤ
  unfolding transaction check_in_body
  check_in random_int id user today min_quota max_quota = do
    reward ← transaction (check_in_body random_int id user today min_quota max_quota)
    launch (update_user_quota_cache id (int64 (user.quota +ℤ reward)))
    pure reward

  -- The handler of controller/user.go, with the settings.
  unfoldable pub check_in_user : (ℤ → ℤ) → ℕ → ℕ → ℤ × ℤ → Action d.State ℤ
  unfolding get_user_by_id check_in
  check_in_user random_int id today settings = do
    user ← get_user_by_id id
    check_in random_int id user today settings.0 settings.1

  -- `TransferAffQuotaToQuota`, without the commit.
  unfoldable pub transfer_body : ℕ → ℤ → Action d.State (Unit {0})
  transfer_body id quota = do
    user ← query (d.first_user id)
    fail_if (ltb_ℤ user.aff_quota quota) aff_quota_not_enough
    exec (
        save_user id (record user {
          aff_quota = int64 (user.aff_quota -ℤ quota);
          quota = int64 (user.quota +ℤ quota);
        }))

  -- `TransferAffQuotaToQuota`, with the comparison to `QuotaPerUnit`.
  unfoldable pub transfer_aff_quota_to_quota :
      (is_below_unit : ℤ → Bool) → ℕ → ℤ → Action d.State (Unit {0})
  unfolding transaction transfer_body
  transfer_aff_quota_to_quota is_below_unit id quota = do
    fail_if (is_below_unit quota) transfer_too_small
    transaction (transfer_body id quota)

  -- `inviteUser`, with `QuotaForInviter`.
  unfoldable pub invite_user : ℤ → ℕ → Action d.State (Unit {0})
  unfolding get_user_by_id
  invite_user quota_for_inviter inviter_id = do
    user ← get_user_by_id inviter_id
    exec (
        save_user inviter_id (record user {
          aff_count = int64 (user.aff_count +ℤ pos 1);
          aff_quota = int64 (user.aff_quota +ℤ quota_for_inviter);
          aff_history_quota = int64 (user.aff_history_quota +ℤ quota_for_inviter);
        }))

-- `getAndValidateCheckInSettings`: the least and the greatest reward.
abbrev pub max_setting : ℤ → Option ℤ → ℤ
max_setting quota none = quota
max_setting quota (some max) = if ltb_ℤ quota max then max else quota

unfoldable pub valid_settings : (String → Option ℤ) → Option ℤ → String → Option (ℤ × ℤ)
valid_settings atoi none max_text = none
valid_settings atoi (some quota) max_text =
    if leb_ℤ quota (pos 0)
    then none
    else if str_eq max_text ""
    then some (quota, quota)
    else some (quota, max_setting quota (atoi max_text))

unfoldable pub get_and_validate_check_in_settings :
    {S : Type 0} → (String → Option ℤ) → Bool → String → String → Action S (ℤ × ℤ)
unfolding valid_settings
get_and_validate_check_in_settings atoi is_enabled quota_text max_text =
    if not is_enabled
    then fail check_in_disabled
    else elim (valid_settings atoi (atoi quota_text) max_text) [
      | none ↦ fail check_in_quota_invalid
      | some settings ↦ pure settings
    ]
