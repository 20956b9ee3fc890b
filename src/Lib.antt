-- ===== src/Lib.antt =====
-- Veloera, an AI gateway in Go: what stands between a request and the accounts that pay for it.
--
-- A request to the gateway passes the rate limits (middleware), the checks of its token or session
-- (middleware/auth.go, model/token.go), and the choice of a channel; controller/relay.go relays it,
-- with retries on other channels; relay/relay-text.go holds quota of its user and its token before
-- the channel is asked, and refunds or settles it afterwards. The quota operations of model/user.go
-- and model/token.go write to the database at once, or book in the maps of model/utils.go, which a
-- background task writes from time to time. Redemption codes (model/redemption.go) fill accounts.
--
-- Base: Boolean tests, lists, signed integers and maps over the native numbers. `int64` is the
--   wrap-around of a Go `int`; a theorem that needs no overflow says so in its hypotheses.
-- RateLimit: common/rate-limit.go. Memory has `InMemoryRateLimiter` with `Request` (`request`) and a
--   round of `clearExpiredItems`; Run is the life of one key as a relation, its own requests, those
--   of other keys and the sweeps in any order under the limiter's mutex; Spec is the window that it
--   promises. The clock's reading is an argument, and a panic is `none`. Redis has the same limit on
--   the lists of a Redis server, an interface of commands that may fail, with the law of each, as
--   middleware/rate-limit.go, middleware/model-rate-limit.go and middleware/token-rate-limit.go write
--   it; Middleware has the handlers of these files with the choice between the two stores. The
--   commands of one request are not interleaved with those of another.
-- Routing: model/cache.go, the map from groups and models to channels. Cache has `InitChannelCache`
--   and `CacheGetRandomSatisfiedChannel`, Pick and Priority their parts, where a panic is a result;
--   Stored has `GetRandomSatisfiedChannel` of model/ability.go, without the cache.
--   Keys has the choice of one key among a channel's keys in middleware/distributor.go, with its
--   counters, and Status `UpdateChannelStatusById` of model/channel.go over the tables' statements.
--   Random numbers, the order that `sort.Slice` makes, the MD5 hash, `TrimSpace` and what the queries
--   answer are arguments.
-- Account: the daily check-in, the transfer of the quota from invitations and the invitation's own
--   reward, of model/user.go and controller/user.go, on the state of Quota.World. The day, the random
--   number and the comparison of floats are arguments.
-- Store: the rows of model/user.go, model/token.go, model/channel.go and model/redemption.go, and
--   Database, the interface of the statements that are run through gorm. gorm and the SQL engine
--   are not part of the repository, so they are a parameter, and the laws say what a statement that
--   succeeds has changed; it may fail at any time. Example is a database in memory that meets it.
-- Quota: World is the state that the quota operations share, the database, the updater's maps and
--   the goroutines launched; an `Action` keeps what was written before an error. Batch has
--   `addNewRecord` and `batchUpdate` of model/utils.go, Users and Tokens the operations
--   `IncreaseUserQuota`, `DecreaseUserQuota`, `DeltaUpdateUserQuota`, `IncreaseTokenQuota`,
--   `DecreaseTokenQuota` and the counts of what was used. Effective is the abstract view: a counter
--   as it will stand when everything that is pending is written.
-- Billing: service/quota.go (`PreConsumeTokenQuota`, `PostConsumeQuota`) in Consume, the reads with
--   the Redis cache before them in Lookup, and relay/relay-text.go in Text: `preConsumeQuota`,
--   `returnPreConsumedQuota`, the writes of `postConsumeQuota`, and `TextHelper` as their sequence.
--   Price has the prices of text, audio and Claude requests over `Numbers`, the interface of the
--   package decimal and of floats; Posts the settlements of service/quota.go with these prices, and
--   Realtime `PreWssConsumeQuota`; Session `WssHelper` of relay/websocket.go, whose list of answers
--   is an argument. The ratios of a model are arguments.
--   The other files prove what each part charges. The goroutine of the refund is run to its end,
--   and what Redis answers is an argument, so any answer is possible. What the channel makes of a
--   request, an error or an answer with its usage, is an argument as well.
-- Redemption: `Redeem` of model/redemption.go with its transaction, and `ProcessRebate` of
--   model/user.go; the percentage's float computation and the Redis lock's answer are arguments.
-- Relay: `shouldRetry` and the loop of `Relay` in controller/relay.go (Retry, Attempts, Tried), the tests
--   of service/channel.go (Disable), and the modes of relay/constant/relay_mode.go (Mode). The channel
--   for a round and what it answers are functions on a state that the model leaves open. The loop
--   is recursion on the retries that are left, as many as are configured, so it always ends.
-- Auth: `authHelper` of middleware/auth.go (Session, Access), and `ValidateUserToken` of
--   model/token.go (Token), where a type assertion on a missing session value, and a key that is
--   too short for its error message, are panics.
--
-- Not modelled: the web front ends, the adaptors of the upstream providers under relay/channel, the
-- controllers that only read and write rows, logging, mail and OAuth; the look-up of a model's
-- ratios by its name, the choice of a channel by a model's prefix, and the loops of WebSocket,
-- Claude and task requests in controller/relay.go. Requests of one account at a time are not
-- interleaved.
pub mod Base
pub mod RateLimit
pub mod Store
pub mod Quota
pub mod Billing
pub mod Redemption
pub mod Relay
pub mod Auth
pub mod Routing
pub mod Account
