-- ===== src/RateLimit/Agree.antt =====
-- middleware/rate-limit.go: `rateLimitFactory` chooses the store of a limit; both stores answer alike.
use Prim.Native.String.{◌++◌ as append}
use veloera.Base.{
  ℕ, zero, suc, ◌+◌, ◌*◌, ◌/◌, ◌-◌, ◌≤◌, ◌<◌, ◌^◌, String, ◌≡◌, refl, ap, ◌∙◌, Bool, true, false,
  Option, none, some, List, [], ◌∷◌, map, length, get_elem?, if◌then◌else◌, ℤ, pos, arith,
  Bool-cases, Option-cases, inl, inr, ◌⊎◌, ltb, leb,
}
use mathlib.Core.Option
use veloera.RateLimit.Memory.{InMemoryRateLimiter}
use veloera.RateLimit.Run.{Run}
use veloera.RateLimit.Spec.{window_open}
use veloera.RateLimit.Exact.{request-exact}
use veloera.RateLimit.Redis.{Redis, Writes, Verdict, server_error, redis_rate_limiter}
use veloera.RateLimit.RedisRun.{RedisRun, verdict_of}
use veloera.RateLimit.RedisExact.{redis_rate_limiter-exact}
use veloera.RateLimit.Middleware.{verdict, memory_rate_limiter}

-- The two stores, of which the server uses one.
pub record RateStores (R : Redis) : Type 0 where
  pub limiter : InMemoryRateLimiter
  pub lists : R.State

module _ (R : Redis) where
  abbrev pub in_memory :
      RateStores R → Option (Verdict × InMemoryRateLimiter) → Option (Verdict × RateStores R)
  in_memory w none = none
  in_memory w (some (v, l)) = some (v, record w { limiter = l })

  abbrev pub in_redis : RateStores R → Verdict × R.State → Option (Verdict × RateStores R)
  in_redis w (v, s) = some (v, record w { lists = s })

  -- The handler that `rateLimitFactory` returns, for a client's address and a time in milliseconds.
  -- The memory's limiter reads the clock in whole seconds.
  unfoldable pub rate_limit_factory :
      Bool → ℤ → ℤ → String → String → ℕ → RateStores R → Option (Verdict × RateStores R)
  unfolding memory_rate_limiter redis_rate_limiter
  rate_limit_factory redis_enabled max_request_num duration mark client_ip now_ms w =
      if redis_enabled
      then in_redis w (
          redis_rate_limiter R (append (append "rateLimit:" mark) client_ip) max_request_num
            duration now_ms w.lists)
      else in_memory w (
          memory_rate_limiter (append mark client_ip) max_request_num duration (now_ms / 1000)
            w.limiter)

abbrev to_milliseconds : List ℕ → List ℕ
to_milliseconds = map (λ t. 1000 * t)

length-scaled : (h : List ℕ) → length (to_milliseconds h) ≡ length h
length-scaled [] = refl
length-scaled (t ∷ h) = omega (arith, length-scaled h)

get_elem?-scaled :
    (h : List ℕ) (i : ℕ)
    → get_elem? (to_milliseconds h) i ≡ Option.map (λ t. 1000 * t) (get_elem? h i)
get_elem?-scaled [] i = refl
get_elem?-scaled (t ∷ h) zero = refl
get_elem?-scaled (t ∷ h) (suc i) = get_elem?-scaled h i

leb-scaled :
    (t duration now : ℕ) → leb (1000 * t + 1000 * duration) (1000 * now) ≡ leb (t + duration) now
leb-scaled t duration now = ground arith

window_open-scaled :
    (limit duration : ℕ) (h : List ℕ) (now : ℕ)
    → window_open limit (1000 * duration) (to_milliseconds h) (1000 * now)
      ≡ window_open limit duration h now
window_open-scaled limit duration h now =
    let i : ℕ = length h - limit in
    elim (Bool-cases (ltb (length h) limit)) [
      | inl few ↦ rw (window_open, length-scaled h, few)
      | inr many ↦ elim (Option-cases (get_elem? h i)) [
        | inl out ↦
            let scaled : get_elem? (to_milliseconds h) i ≡ none =
              get_elem?-scaled h i ∙ ap (Option.map (λ t. 1000 * t)) out in
            rw (window_open, length-scaled h, many) (rw (length-scaled h, scaled, out))
        | inr (t, e) ↦
            let scaled : get_elem? (to_milliseconds h) i ≡ some (1000 * t) =
              get_elem?-scaled h i ∙ ap (Option.map (λ t. 1000 * t)) e in
            rw (window_open, length-scaled h, many)
              (rw (length-scaled h, scaled, e) (leb-scaled t duration now))
      ]
    ]

-- The memory and Redis answer alike at whole seconds: after runs that have let the same requests of a
-- client through, each at a whole second, `rateLimitFactory` gives a request at a whole second the
-- same verdict whether Redis is enabled or not, unless Redis reports an error. At times between, the
-- two differ: the memory's limiter cuts each time to its second, Redis the difference of two.
-- `LPUSH` and `LTRIM` are to succeed, the limit is at least 1 and less than 2^63, the duration at
-- most the expiration plus one, and neither clock goes back.
pub rate_limit_factory-agrees :
    (R : Redis) (limit duration expiration : ℕ) (mark client_ip : String) (w : RateStores R)
    (h : List ℕ) {t u : ℕ} (now : ℕ)
    → Writes R
    → 1 ≤ limit
    → limit < 2 ^ 63
    → duration ≤ expiration + 1
    → Run (append mark client_ip) limit duration expiration w.limiter h t
    → RedisRun R
        (append (append "rateLimit:" mark) client_ip)
        limit
        duration
        w.lists
        (to_milliseconds h)
        u
    → t ≤ now
    → u ≤ 1000 * now
    → now < 2 ^ 63
    → (v : Verdict) × (Option.map
          (λ (r : Verdict × RateStores R). r.0)
          (rate_limit_factory R false (pos limit) (pos duration) mark client_ip (1000 * now) w)
        ≡ some v)
      × ((Option.map
              (λ (r : Verdict × RateStores R). r.0)
              (rate_limit_factory R true (pos limit) (pos duration) mark client_ip (1000 * now) w)
            ≡ some server_error)
          ⊎ (Option.map
                (λ (r : Verdict × RateStores R). r.0)
                (rate_limit_factory R true (pos limit) (pos duration) mark client_ip (1000 * now) w)
              ≡ some v))
unfolding rate_limit_factory memory_rate_limiter
rate_limit_factory-agrees R limit duration expiration mark client_ip w h now works positive small d
      r q later later' fits =
    let (l, e) =
      request-exact (append mark client_ip) limit duration expiration now positive d r later fits in
    let exact =
      redis_rate_limiter-exact R (append (append "rateLimit:" mark) client_ip) limit duration
        (1000 * now) works positive small q later' in
    (
      verdict (window_open limit duration h now),
      rw (second now) (rw e refl),
      same
          (redis_rate_limiter R (append (append "rateLimit:" mark) client_ip) (pos limit)
            (pos duration) (1000 * now) w.lists).0
          exact,
    )
  where
    second : (n : ℕ) → 1000 * n / 1000 ≡ n
    second n = omega arith

    alike : (b : Bool) → verdict_of b ≡ verdict b
    alike true = refl
    alike false = refl

    same :
        (v : Verdict)
        → (v ≡ server_error)
          ⊎ (v ≡ verdict_of (window_open limit (1000 * duration) (to_milliseconds h) (1000 * now)))
        → (some v ≡ some server_error)
          ⊎ (some v ≡ some (verdict (window_open limit duration h now)))
    same v (inl fails) = inl (ap some fails)
    same v (inr says) = inr (
        ap some (
          says
          ∙ ap verdict_of (window_open-scaled limit duration h now)
          ∙ alike (window_open limit duration h now)))
