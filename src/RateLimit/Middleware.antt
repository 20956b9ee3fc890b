-- ===== src/RateLimit/Middleware.antt =====
-- middleware/rate-limit.go, middleware/model-rate-limit.go and middleware/token-rate-limit.go: the
-- handlers. `rest` is the rest of the chain, with the status that it answers; it takes the limiter,
-- or Redis, as it finds it to the state that it leaves, other requests included. The clock's
-- readings are arguments, and `none` is a run-time panic.
use Prim.Native.String.{◌++◌ as append}
use veloera.Base.{
  ℕ, String, Bool, true, false, not, Option, none, some, if◌then◌else◌, ltb, ℤ, pos, ltb_ℤ,
}
use veloera.RateLimit.Memory.{InMemoryRateLimiter, request}
use veloera.RateLimit.Redis.{
  Redis, Verdict, passes, too_many, server_error, check_redis_rate_limit, record_redis_request,
  token_check_redis_rate_limit, token_record_redis_request,
}

-- What the client gets: the status of the rest of the chain, or that of the handler.
pub data Reply : Type 0 where
  served : ℕ → Reply
  aborted : Verdict → Reply

abbrev pub verdict : Bool → Verdict
verdict true = passes
verdict false = too_many

abbrev pub judged : Option (Bool × InMemoryRateLimiter) → Option (Verdict × InMemoryRateLimiter)
judged none = none
judged (some (admitted, l)) = some (verdict admitted, l)

-- `memoryRateLimiter`
unfoldable pub memory_rate_limiter :
    String → ℤ → ℤ → ℕ → InMemoryRateLimiter → Option (Verdict × InMemoryRateLimiter)
unfolding request
memory_rate_limiter key max_request_num duration now l =
    judged (request key max_request_num duration now l)

-- The keys of a user's or a token's counts.
abbrev pub total_key : String → String
total_key id = append "MRRL" id

abbrev pub success_key : String → String
success_key id = append "MRRLS" id

abbrev pub check_key : String → String
check_key id = append (success_key id) "_check"

abbrev pub token_total_key : String → String
token_total_key id = append "TRRL" id

abbrev pub token_success_key : String → String
token_success_key id = append "TRRLS" id

-- The next check runs if the one before has let the request pass.
abbrev pub and_check :
    Option (Verdict × InMemoryRateLimiter)
    → (InMemoryRateLimiter → Option (Verdict × InMemoryRateLimiter))
    → Option (Verdict × InMemoryRateLimiter)
and_check none f = none
and_check (some (passes, l)) f = f l
and_check (some (too_many, l)) f = some (too_many, l)
and_check (some (server_error, l)) f = some (server_error, l)

-- The test of the total count, which is skipped unless the limit is positive.
unfoldable pub check_total :
    String → ℤ → ℤ → ℕ → InMemoryRateLimiter → Option (Verdict × InMemoryRateLimiter)
unfolding memory_rate_limiter
check_total key total_max_count duration now l =
    if ltb_ℤ (pos 0) total_max_count
    then memory_rate_limiter key total_max_count duration now l
    else some (passes, l)

-- After `c.Next()`: a success is counted, and whether that is admitted is ignored.
abbrev pub count_success :
    Option (Bool × InMemoryRateLimiter) → ℕ → Option (Reply × InMemoryRateLimiter)
count_success none status = none
count_success (some (admitted, l)) status = some (served status, l)

unfoldable pub after_next :
    String → ℤ → ℤ → ℕ → ℕ × InMemoryRateLimiter → Option (Reply × InMemoryRateLimiter)
unfolding request
after_next key success_max_count duration now (status, l) =
    if ltb status 400
    then count_success (request key success_max_count duration now l) status
    else some (served status, l)

abbrev pub and_serve :
    Option (Verdict × InMemoryRateLimiter)
    → (InMemoryRateLimiter → Option (Reply × InMemoryRateLimiter))
    → Option (Reply × InMemoryRateLimiter)
and_serve none f = none
and_serve (some (passes, l)) f = f l
and_serve (some (too_many, l)) f = some (aborted too_many, l)
and_serve (some (server_error, l)) f = some (aborted server_error, l)

-- The checks of `memoryRateLimitHandler`, before `c.Next()`.
unfoldable pub memory_checks :
    String → ℤ → ℤ → ℤ → ℕ → InMemoryRateLimiter → Option (Verdict × InMemoryRateLimiter)
unfolding check_total memory_rate_limiter
memory_checks user_id total_max_count success_max_count duration now l =
    and_check (check_total (total_key user_id) total_max_count duration now l)
      (memory_rate_limiter (check_key user_id) success_max_count duration now)

-- `memoryRateLimitHandler`
unfoldable pub memory_rate_limit_handler :
    (InMemoryRateLimiter → ℕ × InMemoryRateLimiter)
    → String
    → ℤ
    → ℤ
    → ℤ
    → ℕ
    → ℕ
    → InMemoryRateLimiter
    → Option (Reply × InMemoryRateLimiter)
unfolding memory_checks after_next
memory_rate_limit_handler rest user_id total_max_count success_max_count duration now later l =
    and_serve (memory_checks user_id total_max_count success_max_count duration now l)
      λ l'. after_next (success_key user_id) success_max_count duration later (rest l')

-- `tokenMemoryRateLimitHandler`
unfoldable pub token_memory_rate_limit_handler :
    (InMemoryRateLimiter → ℕ × InMemoryRateLimiter)
    → String
    → ℤ
    → ℤ
    → ℤ
    → ℕ
    → ℕ
    → InMemoryRateLimiter
    → Option (Reply × InMemoryRateLimiter)
unfolding check_total memory_rate_limiter after_next
token_memory_rate_limit_handler rest token_id total_max_count success_max_count duration now later
      l =
    and_serve
      (and_check (check_total (token_total_key token_id) total_max_count duration now l)
        (memory_rate_limiter (token_success_key token_id) success_max_count duration now))
      λ l'. after_next (token_success_key token_id) success_max_count duration later (rest l')

module _ (R : Redis) (rest : R.State → ℕ × R.State) where
  unfoldable pub redis_after_next : String → ℤ → ℕ → ℕ × R.State → Reply × R.State
  unfolding record_redis_request
  redis_after_next key success_max_count later (status, s) = (
    served status,
    if ltb status 400 then record_redis_request R key success_max_count later s else s,
  )

  -- From the check of the successes on. After an abort `c.Next()` runs nothing, and the status is
  -- the one of the abort.
  unfoldable pub redis_success_checked :
      Bool → String → ℤ → ℤ → ℕ → ℕ → Option Bool × R.State → Reply × R.State
  unfolding record_redis_request redis_after_next
  redis_success_checked is_aborted user_id total_max_count success_max_count now later (none, s) =
      (aborted (if is_aborted then too_many else server_error), s)
  redis_success_checked is_aborted user_id total_max_count success_max_count now later
        (some false, s) =
      (aborted too_many, s)
  redis_success_checked is_aborted user_id total_max_count success_max_count now later
        (some true, s) =
      let s' = record_redis_request R (append "rateLimit:MRRL:" user_id) total_max_count now s in
      if is_aborted
      then (aborted too_many, s')
      else redis_after_next (append "rateLimit:MRRLS:" user_id) success_max_count later (rest s')

  -- From the check of all requests on: a refusal aborts, and does not return.
  unfoldable pub redis_total_checked :
      String → ℤ → ℤ → ℤ → ℕ → ℕ → Option Bool × R.State → Reply × R.State
  unfolding redis_success_checked check_redis_rate_limit
  redis_total_checked user_id total_max_count success_max_count duration now later (none, s) =
      (aborted server_error, s)
  redis_total_checked user_id total_max_count success_max_count duration now later
        (some allowed, s) =
      redis_success_checked (not allowed) user_id total_max_count success_max_count now later (
        check_redis_rate_limit R (append "rateLimit:MRRLS:" user_id) success_max_count duration now
          s)

  -- `redisRateLimitHandler`
  unfoldable pub redis_rate_limit_handler : String → ℤ → ℤ → ℤ → ℕ → ℕ → R.State → Reply × R.State
  unfolding redis_total_checked check_redis_rate_limit
  redis_rate_limit_handler user_id total_max_count success_max_count duration now later s =
      redis_total_checked user_id total_max_count success_max_count duration now later
        (check_redis_rate_limit R (append "rateLimit:MRRL:" user_id) total_max_count duration now s)

  unfoldable pub token_after_next : String → ℤ → ℕ → ℕ × R.State → Reply × R.State
  unfolding token_record_redis_request
  token_after_next key success_max_count later (status, s) = (
    served status,
    if ltb status 400 then token_record_redis_request R key success_max_count later s else s,
  )

  unfoldable pub token_success_checked :
      String → ℤ → ℤ → ℕ → ℕ → Option Bool × R.State → Reply × R.State
  unfolding token_record_redis_request token_after_next
  token_success_checked token_id total_max_count success_max_count now later (none, s) =
      (aborted server_error, s)
  token_success_checked token_id total_max_count success_max_count now later (some false, s) =
      (aborted too_many, s)
  token_success_checked token_id total_max_count success_max_count now later (some true, s) =
      token_after_next (append "rateLimit:TRRLS:" token_id) success_max_count later (
        rest
          (token_record_redis_request R (append "rateLimit:TRRL:" token_id) total_max_count now s))

  -- Here a refusal returns.
  unfoldable pub token_total_checked :
      String → ℤ → ℤ → ℤ → ℕ → ℕ → Option Bool × R.State → Reply × R.State
  unfolding token_success_checked token_check_redis_rate_limit
  token_total_checked token_id total_max_count success_max_count duration now later (none, s) =
      (aborted server_error, s)
  token_total_checked token_id total_max_count success_max_count duration now later
        (some false, s) =
      (aborted too_many, s)
  token_total_checked token_id total_max_count success_max_count duration now later (some true, s) =
      token_success_checked token_id total_max_count success_max_count now later (
        token_check_redis_rate_limit R (append "rateLimit:TRRLS:" token_id) success_max_count
          duration now s)

  -- `tokenRedisRateLimitHandler`
  unfoldable pub token_redis_rate_limit_handler :
      String → ℤ → ℤ → ℤ → ℕ → ℕ → R.State → Reply × R.State
  unfolding token_total_checked token_check_redis_rate_limit
  token_redis_rate_limit_handler token_id total_max_count success_max_count duration now later s =
      token_total_checked token_id total_max_count success_max_count duration now later (
        token_check_redis_rate_limit R (append "rateLimit:TRRL:" token_id) total_max_count duration
          now s)
