-- ===== src/Quota/Batch.antt =====
-- model/utils.go: the batch updater. The maps are under their locks, so one call is one step.
use veloera.Base.{ℕ, Option, none, some, List, [], ◌∷◌, ℤ, ◌+ℤ◌, ◌-ℤ◌, int64}
use veloera.Base.Dict.{Dict, lookup, insert, nat_key}
use veloera.Store.Database.{Database}
use veloera.Quota.World.{
  BatchUpdateType, type_user_quota, type_token_quota, type_used_quota, type_channel_used_quota,
  type_request_count, Stores, World, Action, ok, exec, or_log,
}

abbrev pub store_of : BatchUpdateType → Stores → Dict ℕ ℤ
store_of type_user_quota s = s.user_quota
store_of type_token_quota s = s.token_quota
store_of type_used_quota s = s.used_quota
store_of type_channel_used_quota s = s.channel_used_quota
store_of type_request_count s = s.request_count

abbrev pub with_store : BatchUpdateType → Dict ℕ ℤ → Stores → Stores
with_store type_user_quota m s = record s { user_quota = m }
with_store type_token_quota m s = record s { token_quota = m }
with_store type_used_quota m s = record s { used_quota = m }
with_store type_channel_used_quota m s = record s { channel_used_quota = m }
with_store type_request_count m s = record s { request_count = m }

-- The entry after `addNewRecord`.
abbrev pub merge : Option ℤ → ℤ → ℤ
merge none value = value
merge (some old) value = int64 (old +ℤ value)

unfoldable pub add_new_record : {S : Type 0} → BatchUpdateType → ℕ → ℤ → Action S (Unit {0})
add_new_record type id value w =
    let m = store_of type w.stores in
    (
      ok tt,
      record w { stores = with_store type (insert id (merge (lookup id m) value) m) w.stores },
    )

module _ ⦃d : Database⦄ where
  -- `increaseUserQuota` of model/user.go.
  unfoldable pub db_increase_user_quota : ℕ → ℤ → Action d.State (Unit {0})
  db_increase_user_quota id quota =
      exec (d.update_user id (λ u. record u { quota = u.quota +ℤ quota }))

  -- `decreaseUserQuota` of model/user.go.
  unfoldable pub db_decrease_user_quota : ℕ → ℤ → Action d.State (Unit {0})
  db_decrease_user_quota id quota =
      exec (d.update_user id (λ u. record u { quota = u.quota -ℤ quota }))

  -- `updateUserUsedQuotaAndRequestCount` of model/user.go.
  unfoldable pub db_update_user_used_quota_and_request_count : ℕ → ℤ → ℤ → Action d.State (Unit {0})
  db_update_user_used_quota_and_request_count id quota count = or_log (
      exec (
        d.update_user id (λ u. record u {
          used_quota = u.used_quota +ℤ quota;
          request_count = u.request_count +ℤ count;
        })))

  -- `updateUserUsedQuota` of model/user.go.
  unfoldable pub db_update_user_used_quota : ℕ → ℤ → Action d.State (Unit {0})
  db_update_user_used_quota id quota =
      or_log (exec (d.update_user id (λ u. record u { used_quota = u.used_quota +ℤ quota })))

  -- `updateUserRequestCount` of model/user.go.
  unfoldable pub db_update_user_request_count : ℕ → ℤ → Action d.State (Unit {0})
  db_update_user_request_count id count =
      or_log (exec (d.update_user id (λ u. record u { request_count = u.request_count +ℤ count })))

  -- `updateChannelUsedQuota` of model/channel.go.
  unfoldable pub db_update_channel_used_quota : ℕ → ℤ → Action d.State (Unit {0})
  db_update_channel_used_quota id quota =
      or_log (exec (d.update_channel id (λ c. record c { used_quota = c.used_quota +ℤ quota })))

  -- `increaseTokenQuota` of model/token.go, at the time `now`.
  unfoldable pub db_increase_token_quota : ℤ → ℕ → ℤ → Action d.State (Unit {0})
  db_increase_token_quota now id quota = exec (
      d.update_token id (λ t. record t {
        remain_quota = t.remain_quota +ℤ quota;
        used_quota = t.used_quota -ℤ quota;
        accessed_time = now;
      }))

  -- `decreaseTokenQuota` of model/token.go, at the time `now`.
  unfoldable pub db_decrease_token_quota : ℤ → ℕ → ℤ → Action d.State (Unit {0})
  db_decrease_token_quota now id quota = exec (
      d.update_token id (λ t. record t {
        remain_quota = t.remain_quota -ℤ quota;
        used_quota = t.used_quota +ℤ quota;
        accessed_time = now;
      }))

  -- The `switch` of `batchUpdate`.
  unfoldable pub flush_entry : ℤ → BatchUpdateType → ℕ → ℤ → Action d.State (Unit {0})
  unfolding db_increase_user_quota db_increase_token_quota db_update_user_used_quota
      db_update_channel_used_quota db_update_user_request_count
  flush_entry now type_user_quota key value = or_log (db_increase_user_quota key value)
  flush_entry now type_token_quota key value = or_log (db_increase_token_quota now key value)
  flush_entry now type_used_quota key value = db_update_user_used_quota key value
  flush_entry now type_request_count key value = db_update_user_request_count key value
  flush_entry now type_channel_used_quota key value = db_update_channel_used_quota key value

  -- `for key, value := range store`, over the entries that the range yields.
  unfoldable pub flush_entries : ℤ → BatchUpdateType → List (ℕ × ℤ) → World d.State → World d.State
  flush_entries now type [] w = w
  flush_entries now type ((key, value) ∷ entries) w =
      flush_entries now type entries (flush_entry now type key value w).1

  -- One round of the outer loop: the map is replaced by an empty one, then its entries are written.
  unfoldable pub flush : ℤ → BatchUpdateType → World d.State → World d.State
  unfolding flush_entries
  flush now type w =
      flush_entries now type (store_of type w.stores)
        (record w { stores = with_store type [] w.stores })

  -- `batchUpdate`, in the order of the constants.
  unfoldable pub batch_update : ℤ → World d.State → World d.State
  unfolding flush
  batch_update now w = flush now type_request_count (
      flush now type_channel_used_quota
        (flush now type_used_quota (flush now type_token_quota (flush now type_user_quota w))))
