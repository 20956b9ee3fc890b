-- ===== src/RateLimit/Tests.antt =====
-- The limiter on concrete requests, and the theorems at concrete runs.
use veloera.Base.{◌≡◌, refl, ℕ, ◌≤◌, ◌+◌, true, false, none, some, [], ◌∷◌, List, pos, int64, arith}
use veloera.Base.Dict.{lookup, insert, erase}
use veloera.RateLimit.Memory.{InMemoryRateLimiter, request, clear_expired_items}
use veloera.RateLimit.Run.{Run, start, asked}
use veloera.RateLimit.Spec.{window_open}
use veloera.RateLimit.Exact.{request-exact}
use veloera.RateLimit.Bound.{request-bound}

-- Entries live for 20 minutes.
abbrev with_queue : List ℕ → InMemoryRateLimiter
with_queue q = record { store = ("k", q) ∷ []; expiration_duration = 1_200_000_000_000 }

abbrev fresh : InMemoryRateLimiter
fresh = record { store = []; expiration_duration = 1_200_000_000_000 }

-- The first request of a key is admitted even if the limit is 0.
zero_limit-admits : request "k" (pos 0) (pos 60) 5 fresh ≡ some (true, with_queue (5 ∷ []))
unfolding request lookup insert int64
zero_limit-admits = refl

-- With the limit 0, a key whose queue is empty makes it panic.
empty_queue-panics : request "k" (pos 0) (pos 60) 5 (with_queue []) ≡ none
unfolding request lookup insert int64
empty_queue-panics = refl

sweep-forgets : clear_expired_items 2000 (with_queue (100 ∷ 200 ∷ [])) ≡ fresh
unfolding clear_expired_items lookup int64 erase
sweep-forgets = refl

sweep-keeps : clear_expired_items 1400 (with_queue (100 ∷ 200 ∷ [])) ≡ with_queue (100 ∷ 200 ∷ [])
unfolding clear_expired_items lookup int64 erase
sweep-keeps = refl

-- Three requests at 10, 20 and 30, with two admitted per minute, then one at 70.
one_asked : Run "k" 2 60 1200 (with_queue (10 ∷ [])) (10 ∷ []) 10
unfolding request lookup insert int64
one_asked = asked {l = fresh} 10 true (start refl refl) (omega arith) (omega arith) refl

two_asked : Run "k" 2 60 1200 (with_queue (10 ∷ 20 ∷ [])) (10 ∷ 20 ∷ []) 20
unfolding request lookup insert int64
two_asked = asked {l = with_queue (10 ∷ [])} 20 true one_asked (omega arith) (omega arith) refl

three_asked : Run "k" 2 60 1200 (with_queue (10 ∷ 20 ∷ [])) (10 ∷ 20 ∷ []) 30
unfolding request lookup insert int64
three_asked =
    asked {l = with_queue (10 ∷ 20 ∷ [])} 30 false two_asked (omega arith) (omega arith) refl

four_asked : Run "k" 2 60 1200 (with_queue (20 ∷ 70 ∷ [])) (10 ∷ 20 ∷ 70 ∷ []) 70
unfolding request lookup insert int64
four_asked =
    asked {l = with_queue (10 ∷ 20 ∷ [])} 70 true three_asked (omega arith) (omega arith) refl

request-exact_example :
    (l' : InMemoryRateLimiter) × (request "k" (pos 2) (pos 60) 75 (with_queue (20 ∷ 70 ∷ []))
      ≡ some (window_open 2 60 (10 ∷ 20 ∷ 70 ∷ []) 75, l'))
request-exact_example =
    request-exact "k" 2 60 1200 75 (omega arith) (omega arith) four_asked (omega arith)
      (omega arith)

request-bound_example : 10 + 60 ≤ 70
request-bound_example =
    request-bound "k" 2 60 1200 0 10 70 (omega arith) (omega arith) four_asked refl refl
