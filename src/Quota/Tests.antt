-- ===== src/Quota/Tests.antt =====
-- The quota operations and the batch updater on a database of one user, one token and one channel.
use veloera.Base.{◌≡◌, refl, ◌+ℤ◌, ◌-ℤ◌, true, some, [], ◌∷◌, pos, negsuc, arith}
use veloera.Base.Dict.{lookup}
use veloera.Store.Database.{Tables}
use veloera.Store.Example.{in_memory, tables}
use veloera.Quota.World.{World, Stores, Config}
use veloera.Quota.Batch.{batch_update}
use veloera.Quota.Users.{delta_update_user_quota}
use veloera.Quota.Tokens.{increase_token_quota, decrease_token_quota}
use veloera.Quota.Effective.{user_balance}
use veloera.Quota.Effective.Users.{UserMoves, delta_update_user_quota-moves}
use veloera.Quota.Effective.Tokens.{
  TokenMoves, increase_token_quota-moves, decrease_token_quota-moves,
}
use veloera.Quota.Effective.Flush.{Works}
use veloera.Quota.Effective.Conserved.{AreMaps, SameCounters, no_stores, batch_update-conserves}

abbrev batching : Config
batching = record { batch_update_enabled = true; redis_enabled = true }

-- 30 of the user's quota is spent and not yet written.
abbrev spent : Stores
spent = record no_stores { user_quota = (1, negsuc 29) ∷ []; token_quota = (3, negsuc 29) ∷ [] }

abbrev world : World Tables
world = record { db = tables; stores = spent; jobs = [] }

balance : user_balance tables spent 1 ≡ some (pos 70)
unfolding ◌+ℤ◌ ◌-ℤ◌ lookup
balance = refl

tables-Works : Works
tables-Works = record {
  users = λ i f s. (_, refl);
  tokens = λ i f s. (_, refl);
  channels = λ i f s. (_, refl);
}

spent-AreMaps : AreMaps spent
unfolding ◌+ℤ◌ ◌-ℤ◌ lookup
spent-AreMaps = record {
  user_quota = (refl, tt);
  token_quota = (refl, tt);
  used_quota = tt;
  channel_used_quota = tt;
  request_count = tt;
}

delta_update_user_quota-moves_example :
    UserMoves tables spent 1 (pos 5) (delta_update_user_quota batching 1 (pos 5) world)
unfolding ◌+ℤ◌ ◌-ℤ◌ lookup
delta_update_user_quota-moves_example =
    delta_update_user_quota-moves batching world 1 (pos 5) (omega arith) (omega arith)

increase_token_quota-moves_example :
    TokenMoves tables spent 3 (pos 5) (increase_token_quota batching (pos 0) 3 "sk" (pos 5) world)
unfolding ◌+ℤ◌ ◌-ℤ◌ lookup
increase_token_quota-moves_example =
    increase_token_quota-moves batching (pos 0) world 3 "sk" (pos 5) (omega arith)

decrease_token_quota-moves_example :
    TokenMoves tables spent 3
      (negsuc 4)
      (decrease_token_quota batching (pos 0) 3 "sk" (pos 5) world)
unfolding ◌+ℤ◌ ◌-ℤ◌ lookup
decrease_token_quota-moves_example =
    decrease_token_quota-moves batching (pos 0) world 3 "sk" (pos 5) (omega arith) (omega arith)

batch_update-conserves_example :
    SameCounters tables spent (batch_update (pos 0) world).db (batch_update (pos 0) world).stores 1
    × ((batch_update (pos 0) world).stores ≡ no_stores)
batch_update-conserves_example = batch_update-conserves (pos 0) world 1 tables-Works spent-AreMaps
