-- ===== src/RateLimit/HandlerTests.antt =====
-- Tests of the handlers over both stores, and the properties at concrete requests.
use Prim.Native.String.{◌++◌ as append}
use veloera.Base.{
  ℕ, suc, ◌-◌, String, ◌≡◌, refl, sym, ap, ltb_ℤ, true, false, ◌&&◌, some, List, [], ◌∷◌, ◌++◌,
  length, drop, if◌then◌else◌, pos, negsuc, arith, ◌⊎◌,
}
use text.Mathlib.Text.{◌==◌ as str_eq}
use mathlib.Core.Option.{some-injective}
use veloera.Base.Dict.{lookup, string_key}
use veloera.RateLimit.Memory.{InMemoryRateLimiter}
use veloera.RateLimit.Run.{Run, start}
use veloera.RateLimit.Spec.{window_open}
use veloera.RateLimit.Redis.{
  Redis, Writes, lpush, head, Verdict, passes, too_many, server_error, redis_rate_limiter,
  check_redis_rate_limit,
}
use veloera.RateLimit.RedisRun.{RedisRun, begins, asks, verdict_of}
use veloera.RateLimit.RedisExact.{redis_rate_limiter-exact}
use veloera.RateLimit.Middleware.{
  served, aborted, verdict, total_key, check_key, token_success_key, memory_checks, check_total,
  token_total_key, token_memory_rate_limit_handler, redis_rate_limit_handler,
}
use veloera.RateLimit.Agree.{RateStores, rate_limit_factory, rate_limit_factory-agrees}
use mathlib.Core.Option
use veloera.RateLimit.Handled.{
  memory_checks-windows, token_memory-counts_twice, redis_handler-records_refused, entries,
}

-- Redis as a function from keys to lists, without errors.
abbrev lists : Redis
lists = record {
  State = String → List ℕ;
  list = λ s k. s k;
  llen = λ k s. some (length (s k));
  lindex_last = λ k s. head (s k);
  lpush = λ k t s. some (λ j. if str_eq k j then s j ++ t ∷ [] else s j);
  ltrim = λ k stop s. some (λ j. elim stop as (λ _. List ℕ) [
    | pos n ↦ if str_eq k j then drop (length (s j) - suc n) (s j) else s j
    | negsuc n ↦ s j
  ]);
  expire = λ k s. some s;
  llen-list = λ k s {n} e. sym (some-injective _ _ e);
  lindex_last-list = λ k s {t} e. e;
  lpush-list = λ k t s j {s'} e. ap (λ (x : String → List ℕ). x j) (sym (some-injective _ _ e));
  ltrim-list = λ k n s j {s'} e. ap (λ (x : String → List ℕ). x j) (sym (some-injective _ _ e));
  expire-list = λ k s j {s'} e. ap (λ (x : String → List ℕ). x j) (sym (some-injective _ _ e));
}

lists-Writes : Writes lists
lists-Writes = record { lpush = λ k t s. (_, refl); ltrim = λ k n s. (_, refl) }

abbrev holding : String → List ℕ → String → List ℕ
holding k q j = if str_eq k j then q else []

abbrev nothing : String → List ℕ
nothing j = []

abbrev asked_once : String → List ℕ
asked_once = lpush lists "k" 5_000 nothing

one_asked : RedisRun lists "k" 1 60 asked_once (5_000 ∷ []) 5_000
unfolding redis_rate_limiter
one_asked = asks {s = nothing} 5_000 passes (begins refl) (omega arith) refl

too_soon : (redis_rate_limiter lists "k" (pos 1) (pos 60) 64_999 asked_once).0 ≡ too_many
unfolding redis_rate_limiter
too_soon = refl

late_enough : (redis_rate_limiter lists "k" (pos 1) (pos 60) 65_000 asked_once).0 ≡ passes
unfolding redis_rate_limiter
late_enough = refl

redis_rate_limiter-exact_example :
    ((redis_rate_limiter lists "k" (pos 1) (pos 60) 70_000 asked_once).0 ≡ server_error)
    ⊎ ((redis_rate_limiter lists "k" (pos 1) (pos 60) 70_000 asked_once).0
        ≡ verdict_of (window_open 1 60_000 (5_000 ∷ []) 70_000))
redis_rate_limiter-exact_example =
    redis_rate_limiter-exact lists "k" 1 60 70_000 lists-Writes (omega arith) (omega arith)
      one_asked (omega arith)

abbrev fresh : InMemoryRateLimiter
fresh = record { store = []; expiration_duration = 1_200_000_000_000 }

all_start : Run (total_key "7") 2 60 1200 fresh [] 0
unfolding lookup
all_start = start refl refl

counted_start : Run (check_key "7") 1 60 1200 fresh [] 0
unfolding lookup
counted_start = start refl refl

memory_checks-windows_example :
    (l' : InMemoryRateLimiter) × (memory_checks "7" (pos 2) (pos 1) (pos 60) 9 fresh
      ≡ some (verdict (window_open 2 60 [] 9 && window_open 1 60 [] 9), l'))
memory_checks-windows_example =
    memory_checks-windows "7" 2 1 60 1200 9 (omega arith) (omega arith) (omega arith) all_start
      counted_start (omega arith) (omega arith) (omega arith)

abbrev no_success : InMemoryRateLimiter
no_success = record { store = []; expiration_duration = 1_200_000_000_000 }

unlimited_start :
    check_total (token_total_key "8") (pos 0) (pos 60) 20 no_success ≡ some (passes, no_success)
unfolding check_total
unlimited_start = refl

room_for_two :
    ltb_ℤ (pos (suc (length (entries (lookup (token_success_key "8") no_success.store))))) (pos 5)
    ≡ true
unfolding lookup
room_for_two = refl

first_entries :
    entries (lookup (token_success_key "8") no_success.store) ++ 20 ∷ [] ++ 21 ∷ [] ≡ 20 ∷ 21 ∷ []
unfolding lookup
first_entries = refl

token_memory-counts_twice_example :
    (status : ℕ) × (l' : InMemoryRateLimiter) × (token_memory_rate_limit_handler
        (λ m. (200, m))
        "8"
        (pos 0)
        (pos 5)
        (pos 60)
        20
        21
        no_success
      ≡ some (served status, l'))
    × (lookup (token_success_key "8") l'.store
        ≡ some ((entries (lookup (token_success_key "8") no_success.store) ++ 20 ∷ []) ++ 21 ∷ []))
token_memory-counts_twice_example =
    token_memory-counts_twice (λ m. (200, m)) "8" (pos 0) (pos 5) (pos 60) 20 21 no_success
      no_success unlimited_start room_for_two (λ m. (omega arith, refl))

abbrev full : String → List ℕ
full = holding "rateLimit:MRRL:7" (5_000 ∷ [])

full_refuses :
    check_redis_rate_limit lists "rateLimit:MRRL:7" (pos 1) (pos 60) 6_000 full ≡ (some false, full)
unfolding check_redis_rate_limit
full_refuses = refl

no_success_limit :
    check_redis_rate_limit lists "rateLimit:MRRLS:7" (pos 0) (pos 60) 6_000 full ≡ (some true, full)
unfolding check_redis_rate_limit
no_success_limit = refl

redis_handler-records_refused_example :
    ((redis_rate_limit_handler lists
        (λ s. (200, s))
        "7"
        (pos 1)
        (pos 0)
        (pos 60)
        6_000
        6_000
        full).0
      ≡ aborted too_many)
    × ((redis_rate_limit_handler lists
            (λ s. (200, s))
            "7"
            (pos 1)
            (pos 0)
            (pos 60)
            6_000
            6_000
            full).1
          (append "rateLimit:MRRL:" "7")
        ≡ 6_000 ∷ [])
redis_handler-records_refused_example =
    redis_handler-records_refused lists (λ s. (200, s)) "7" 0 (pos 0) (pos 60) 6_000 6_000 full full
      full 5_000 [] lists-Writes (omega arith) refl refl full_refuses no_success_limit

abbrev both : RateStores lists
both = record { limiter = fresh; lists = nothing }

web_start : Run "GA1.2.3.4" 2 60 1200 fresh [] 0
unfolding lookup
web_start = start refl refl

rate_limit_factory-agrees_example :
    (v : Verdict) × (Option.map
        (λ (r : Verdict × RateStores lists). r.0)
        (rate_limit_factory lists false (pos 2) (pos 60) "GA" "1.2.3.4" 7_000 both)
      ≡ some v)
    × ((Option.map
            (λ (r : Verdict × RateStores lists). r.0)
            (rate_limit_factory lists true (pos 2) (pos 60) "GA" "1.2.3.4" 7_000 both)
          ≡ some server_error)
        ⊎ (Option.map
              (λ (r : Verdict × RateStores lists). r.0)
              (rate_limit_factory lists true (pos 2) (pos 60) "GA" "1.2.3.4" 7_000 both)
            ≡ some v))
rate_limit_factory-agrees_example =
    rate_limit_factory-agrees lists 2 60 1200 "GA" "1.2.3.4" both [] 7 lists-Writes (omega arith)
      (omega arith) (omega arith) web_start (begins refl) (omega arith) (omega arith) (omega arith)
