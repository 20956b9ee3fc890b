-- ===== src/RateLimit/Run.antt =====
-- The life of one key of the limiter of common/rate-limit.go, as a relation.
use veloera.Base.{
  ℕ, ◌≤◌, ◌<◌, ◌^◌, String, ◌≡◌, ◌≢◌, Bool, none, some, List, [], ◌∷◌, ◌++◌, if◌then◌else◌, ℤ, pos,
}
use veloera.Base.Dict.{lookup, string_key}
use veloera.RateLimit.Memory.{InMemoryRateLimiter, expiration_seconds, request, clear_expired_items}

-- The life of one key of a limiter: its own requests, at the times of a clock that does not go
-- back, those of other keys, and the sweeps. It keeps the admitted times, the oldest first.
pub data Run (key : String) (limit duration expiration : ℕ)
    : InMemoryRateLimiter → List ℕ → ℕ → Type 0 where
  start :
      {l : InMemoryRateLimiter}
      → lookup key l.store ≡ none
      → expiration_seconds l ≡ expiration
      → Run key limit duration expiration l [] 0
  asked :
      {l l' : InMemoryRateLimiter} {h : List ℕ} {t : ℕ} (now : ℕ) (admitted : Bool)
      → Run key limit duration expiration l h t
      → t ≤ now
      → now < 2 ^ 63
      → request key (pos limit) (pos duration) now l ≡ some (admitted, l')
      → Run key limit duration expiration l' (if admitted then h ++ now ∷ [] else h) now
  other :
      {l l' : InMemoryRateLimiter} {h : List ℕ} {t : ℕ} (j : String) (m d : ℤ) (now : ℕ)
      → (admitted : Bool) → Run key limit duration expiration l h t
      → t ≤ now
      → now < 2 ^ 63
      → j ≢ key
      → request j m d now l ≡ some (admitted, l')
      → Run key limit duration expiration l' h now
  swept :
      {l l' : InMemoryRateLimiter} {h : List ℕ} {t : ℕ} (now : ℕ)
      → Run key limit duration expiration l h t
      → t ≤ now
      → now < 2 ^ 63
      → l' ≡ clear_expired_items now l
      → Run key limit duration expiration l' h now
