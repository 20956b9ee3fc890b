-- ===== src/Billing/Tests.antt =====
-- A request of one user and one token, billed.
use veloera.Base.{◌≡◌, refl, true, false, none, some, [], pos, arith, ◌+ℤ◌, ◌-ℤ◌, int64}
use veloera.Base.Dict.{lookup, insert}
use veloera.Store.Database.{Tables}
use veloera.Store.Example.{in_memory, tables}
use veloera.Quota.World.{World, Config, ok, err, insufficient_user_quota, upstream_failed}
use veloera.Quota.Effective.{user_balance, token_remain}
use veloera.Quota.Effective.Flush.{Works}
use veloera.Quota.Effective.Conserved.{no_stores}
use veloera.Billing.Info.{RelayInfo, CacheAnswers}
use veloera.Billing.Text.{failed, answered, text_helper, pre_consume_quota, held_quota}
use veloera.Billing.Lookup.{get_user_quota, get_token_by_key}
use veloera.Billing.Consume.{pre_consume_token_quota, post_consume_quota}
use veloera.Quota.Tokens.{decrease_token_quota, increase_token_quota}
use veloera.Quota.Users.{
  decrease_user_quota, increase_user_quota, update_user_used_quota_and_request_count,
  update_channel_used_quota,
}
use veloera.Billing.Request.{Ended, text_helper-settles}

abbrev pub batching : Config
batching = record { batch_update_enabled = true; redis_enabled = false }

abbrev pub misses : CacheAnswers
misses = record { user_quota = none; token = none }

abbrev pub info : RelayInfo
info = record {
  user_id = 1;
  token_id = 3;
  token_key = "sk";
  token_unlimited = false;
  is_playground = false;
  channel_id = 9;
  prompt_tokens = pos 4;
}

abbrev pub world : World Tables
world = record { db = tables; stores = no_stores; jobs = [] }

pub works : Works
works = record {
  users = λ i f s. (_, refl);
  tokens = λ i f s. (_, refl);
  channels = λ i f s. (_, refl);
}

-- 20 held, 27 paid.
paid :
    let (r, w) =
      text_helper batching
        (pos 0)
        info
        misses
        (pos 50)
        (pos 20)
        (answered (pos 9) (pos 27))
        world in
    (r ≡ ok tt)
    × (user_balance w.db w.stores 1 ≡ some (pos 73))
    × (token_remain w.db w.stores 3 ≡ some (pos 23))
unfolding text_helper get_user_quota int64 ◌-ℤ◌ held_quota pre_consume_token_quota get_token_by_key
    decrease_token_quota decrease_user_quota update_user_used_quota_and_request_count
    update_channel_used_quota post_consume_quota ◌+ℤ◌ lookup insert
paid = (refl, refl, refl)

-- More than the user holds is refused.
refused :
    (text_helper batching
      (pos 0)
      info
      misses
      (pos 50)
      (pos 200)
      (answered (pos 9) (pos 27))
      world).0
    ≡ err insufficient_user_quota
unfolding text_helper get_user_quota int64 ◌-ℤ◌
refused = refl

text_helper-settles_example :
    Ended info world
      (answered (pos 9) (pos 27))
      (pre_consume_quota batching (pos 0) info misses (pos 50) (pos 20) world).0
      (text_helper batching (pos 0) info misses (pos 50) (pos 20) (answered (pos 9) (pos 27)) world)
unfolding lookup
text_helper-settles_example =
    text_helper-settles batching (pos 0) info misses world (pos 50) 20 (answered (pos 9) (pos 27))
      works ((omega arith, omega arith), (omega arith, omega arith)) (omega arith) (omega arith)

-- An error of the channel is returned, and the user has the hold back.
refunded :
    let (r, w) = text_helper batching (pos 0) info misses (pos 50) (pos 20) failed world in
    (r ≡ err upstream_failed) × (user_balance w.db w.stores 1 ≡ some (pos 100))
unfolding text_helper get_user_quota int64 ◌-ℤ◌ held_quota pre_consume_token_quota get_token_by_key
    decrease_token_quota decrease_user_quota post_consume_quota ◌+ℤ◌ lookup insert
    increase_user_quota increase_token_quota
refunded = (refl, refl)
