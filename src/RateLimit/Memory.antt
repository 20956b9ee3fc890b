-- ===== src/RateLimit/Memory.antt =====
-- common/rate-limit.go: `InMemoryRateLimiter`, under its mutex, with the clock's reading passed in.
-- `none` is a run-time panic. Times are seconds since 1970.
use veloera.Base.{
  ℕ, ◌-◌, ◌/◌, String, Bool, true, false, Option, none, some, List, [], ◌∷◌, ◌++◌, map, length,
  get_elem?, if◌then◌else◌, ℤ, pos, sub_ℕ, ltb_ℤ, leb_ℤ, int64,
}
use veloera.Base.Dict.{Dict, lookup, insert, erase, string_key}

-- `expiration_duration` is a `time.Duration`, in nanoseconds.
pub record InMemoryRateLimiter : Type 0 where
  pub store : Dict String (List ℕ)
  pub expiration_duration : ℕ

-- `int64(l.expirationDuration.Seconds())`
abbrev pub expiration_seconds : InMemoryRateLimiter → ℕ
expiration_seconds l = l.expiration_duration / 1_000_000_000

-- The branch of `Request` that works on the queue of a known key.
unfoldable pub request_queue : List ℕ → ℤ → ℤ → ℕ → Option (Bool × List ℕ)
request_queue [] max_request_num duration now =
    if ltb_ℤ (pos 0) max_request_num then some (true, now ∷ []) else none
request_queue (oldest ∷ rest) max_request_num duration now =
    if ltb_ℤ (pos (length (oldest ∷ rest))) max_request_num
    then some (true, (oldest ∷ rest) ++ now ∷ [])
    else if leb_ℤ duration (int64 (sub_ℕ now oldest))
    then some (true, rest ++ now ∷ [])
    else some (false, oldest ∷ rest)

-- The new queue goes back into the store. A refusal leaves the pointer's slice as it was.
unfoldable pub put_queue :
    String → InMemoryRateLimiter → Option (Bool × List ℕ) → Option (Bool × InMemoryRateLimiter)
put_queue key l none = none
put_queue key l (some (admitted, queue)) =
    some (admitted, record l { store = insert key queue l.store })

unfoldable pub request_found :
    Option (List ℕ) → String → ℤ → ℤ → ℕ → InMemoryRateLimiter → Option (Bool × InMemoryRateLimiter)
unfolding request_queue put_queue
request_found none key max_request_num duration now l =
    if ltb_ℤ max_request_num (pos 0)
    then none
    else some (true, record l { store = insert key (now ∷ []) l.store })
request_found (some queue) key max_request_num duration now l =
    put_queue key l (request_queue queue max_request_num duration now)

-- `Request`. `make` panics on a negative capacity.
unfoldable pub request :
    String → ℤ → ℤ → ℕ → InMemoryRateLimiter → Option (Bool × InMemoryRateLimiter)
unfolding request_found
request key max_request_num duration now l =
    request_found (lookup key l.store) key max_request_num duration now l

-- The test of the sweep: an empty queue, or one whose newest entry is too old.
unfoldable pub is_expired : ℕ → ℕ → List ℕ → Bool
is_expired now expiration queue = elim (get_elem? queue (length queue - 1)) [
  | none ↦ true
  | some newest ↦ ltb_ℤ (pos expiration) (int64 (sub_ℕ now newest))
]

unfoldable pub sweep_key : ℕ → ℕ → String → Dict String (List ℕ) → Dict String (List ℕ)
unfolding is_expired
sweep_key now expiration key store = elim (lookup key store) [
  | none ↦ store
  | some queue ↦ if is_expired now expiration queue then erase key store else store
]

-- `for key := range l.store`, over the keys that the range yields.
unfoldable pub sweep : ℕ → ℕ → List String → Dict String (List ℕ) → Dict String (List ℕ)
unfolding sweep_key
sweep now expiration [] store = store
sweep now expiration (key ∷ keys) store =
    sweep now expiration keys (sweep_key now expiration key store)

-- One round of `clearExpiredItems`.
unfoldable pub clear_expired_items : ℕ → InMemoryRateLimiter → InMemoryRateLimiter
unfolding sweep
clear_expired_items now l = record l {
  store = sweep now (expiration_seconds l) (map (λ (e : String × List ℕ). e.0) l.store) l.store;
}
