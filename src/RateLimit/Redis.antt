-- ===== src/RateLimit/Redis.antt =====
-- middleware/rate-limit.go, middleware/model-rate-limit.go and middleware/token-rate-limit.go: the
-- limits that are kept as lists in Redis. Redis is a parameter: a list is read here from its right
-- end, so index -1 is its first entry, `LPUSH` adds at its end, and `LTRIM 0 n` keeps the `n + 1`
-- last. An entry is the time that its text parses to, in milliseconds.
use veloera.Base.{
  ℕ, suc, ◌-◌, ◌/◌, String, ◌≡◌, Bool, true, false, Option, none, some, List, [], ◌∷◌, ◌++◌, length,
  drop, if◌then◌else◌, ℤ, pos, negsuc, sub_ℕ, ltb_ℤ, eqb_ℤ, ◌-ℤ◌, int64,
}
use text.Mathlib.Text.{◌==◌ as str_eq}

abbrev pub head : List ℕ → Option ℕ
head [] = none
head (x ∷ xs) = some x

pub record Redis : Type 1 where
  pub State : Type 0
  pub list : State → String → List ℕ
  -- `none` is an error of the connection.
  pub llen : String → State → Option ℕ
  -- `none` is an entry that does not parse, as the empty text does after an error.
  pub lindex_last : String → State → Option ℕ
  -- The commands that write: `none` is an error, of which the code takes no notice.
  pub lpush : String → ℕ → State → Option State
  pub ltrim : String → ℤ → State → Option State
  pub expire : String → State → Option State
  pub llen-list : (k : String) (s : State) {n : ℕ} → llen k s ≡ some n → n ≡ length (list s k)
  pub lindex_last-list :
      (k : String) (s : State) {t : ℕ} → lindex_last k s ≡ some t → head (list s k) ≡ some t
  pub lpush-list :
      (k : String) (t : ℕ) (s : State) (j : String) {s' : State}
      → lpush k t s ≡ some s'
      → list s' j ≡ (if str_eq k j then list s j ++ t ∷ [] else list s j)
  pub ltrim-list :
      (k : String) (n : ℕ) (s : State) (j : String) {s' : State}
      → ltrim k (pos n) s ≡ some s'
      → list s' j ≡ (if str_eq k j then drop (length (list s j) - suc n) (list s j) else list s j)
  pub expire-list :
      (k : String) (s : State) (j : String) {s' : State}
      → expire k s ≡ some s'
      → list s' j ≡ list s j

-- After a command that failed the lists are as they were: that an answer of Redis is lost on its way,
-- and the command has had its effect, is left out.
abbrev pub state_or : {S : Type 0} → S → Option S → S
state_or s none = s
state_or s (some s') = s'

module _ (R : Redis) where
  abbrev pub lpush : String → ℕ → R.State → R.State
  lpush k t s = state_or s (R.lpush k t s)

  abbrev pub ltrim : String → ℤ → R.State → R.State
  ltrim k stop s = state_or s (R.ltrim k stop s)

  abbrev pub expire : String → R.State → R.State
  expire k s = state_or s (R.expire k s)

-- The commands that write succeed.
pub record Writes (R : Redis) : Type 0 where
  pub lpush : (k : String) (t : ℕ) (s : R.State) → (s' : R.State) × (R.lpush k t s ≡ some s')
  pub ltrim : (k : String) (n : ℤ) (s : R.State) → (s' : R.State) × (R.ltrim k n s ≡ some s')

-- `int64(nowTime.Sub(oldTime).Seconds())`, which cuts towards zero.
abbrev pub seconds_between : ℕ → ℕ → ℤ
seconds_between now old = elim (sub_ℕ now old) [
  | pos n ↦ pos (n / 1000)
  | negsuc n ↦ sub_ℕ 0 (suc n / 1000)
]

-- The request goes on, or is aborted with status 429 or 500.
pub data Verdict : Type 0 where
  passes too_many server_error : Verdict

module _ (R : Redis) where
  unfoldable pub full_list : String → ℤ → ℤ → ℕ → Option ℕ → R.State → Verdict × R.State
  full_list key max_request_num duration now none s = (server_error, s)
  full_list key max_request_num duration now (some old) s =
      if ltb_ℤ (seconds_between now old) duration then (too_many, expire R key s) else (
        passes,
        expire R key (ltrim R key (int64 (max_request_num -ℤ pos 1)) (lpush R key now s)),
      )

  unfoldable pub limited : String → ℤ → ℤ → ℕ → Option ℕ → R.State → Verdict × R.State
  unfolding full_list
  limited key max_request_num duration now none s = (server_error, s)
  limited key max_request_num duration now (some list_length) s =
      if ltb_ℤ (pos list_length) max_request_num
      then (passes, expire R key (lpush R key now s))
      else full_list key max_request_num duration now (R.lindex_last key s) s

  -- `redisRateLimiter`
  unfoldable pub redis_rate_limiter : String → ℤ → ℤ → ℕ → R.State → Verdict × R.State
  unfolding limited
  redis_rate_limiter key max_request_num duration now s =
      limited key max_request_num duration now (R.llen key s) s

  unfoldable pub check_full : String → ℤ → ℕ → Option ℕ → R.State → Option Bool × R.State
  check_full key duration now none s = (none, s)
  check_full key duration now (some old) s =
      if ltb_ℤ (seconds_between now old) duration
      then (some false, expire R key s)
      else (some true, s)

  unfoldable pub check_length : String → ℤ → ℤ → ℕ → Option ℕ → R.State → Option Bool × R.State
  unfolding check_full
  check_length key max_count duration now none s = (none, s)
  check_length key max_count duration now (some length) s =
      if ltb_ℤ (pos length) max_count
      then (some true, s)
      else check_full key duration now (R.lindex_last key s) s

  -- `checkRedisRateLimit`: whether the request is allowed, or `none`
  -- for an error.
  unfoldable pub check_redis_rate_limit : String → ℤ → ℤ → ℕ → R.State → Option Bool × R.State
  unfolding check_length
  check_redis_rate_limit key max_count duration now s =
      if eqb_ℤ max_count (pos 0)
      then (some true, s)
      else check_length key max_count duration now (R.llen key s) s

  -- `recordRedisRequest`
  unfoldable pub record_redis_request : String → ℤ → ℕ → R.State → R.State
  record_redis_request key max_count now s =
      if eqb_ℤ max_count (pos 0)
      then s
      else expire R key (ltrim R key (int64 (max_count -ℤ pos 1)) (lpush R key now s))

  -- `tokenCheckRedisRateLimit` makes the same tests; only the lists live as long as `Expire` says.
  unfoldable pub token_check_redis_rate_limit : String → ℤ → ℤ → ℕ → R.State → Option Bool × R.State
  unfolding check_redis_rate_limit
  token_check_redis_rate_limit key max_count duration now s =
      check_redis_rate_limit key max_count duration now s

  -- `tokenRecordRedisRequest`
  unfoldable pub token_record_redis_request : String → ℤ → ℕ → R.State → R.State
  unfolding record_redis_request
  token_record_redis_request key max_count now s = record_redis_request key max_count now s
