-- ===== src/RateLimit/Handled.antt =====
-- What the handlers of middleware/model-rate-limit.go and middleware/token-rate-limit.go let
-- through, and what they record.
use Prim.Native.String.{◌++◌ as append, count}
use text.Mathlib.TextLemmas.{length-append}
use veloera.Base.{length-append as List-length-append}
use veloera.Base.{
  ℕ, suc, ◌+◌, ◌-◌, ◌≤◌, ◌<◌, ◌^◌, String, ◌≡◌, ◌≢◌, refl, sym, ap, ◌∙◌, Bool, true, false, ◌&&◌,
  Option, none, some, List, [], ◌∷◌, ◌++◌, length, ℤ, pos, ltb_ℤ, eqb_ℤ, ◌-ℤ◌, int64, arith, ltb,
}
use veloera.Base.Dict.{lookup, insert, lookup-insert_self, string_key}
use veloera.RateLimit.Memory.{InMemoryRateLimiter, request_queue, request_found, request}
use veloera.RateLimit.Run.{Run, other}
use veloera.RateLimit.Spec.{window_open}
use veloera.RateLimit.Exact.{request-exact}
use veloera.RateLimit.Redis.{
  Redis, Writes, passes, too_many, check_full, check_length, check_redis_rate_limit,
  record_redis_request,
}
use veloera.RateLimit.RedisRun.{expire_lem, trimmed_list, stop_index}
use veloera.RateLimit.Middleware.{
  served, aborted, verdict, judged, memory_rate_limiter, total_key, check_key, and_check,
  check_total, after_next, memory_checks, token_success_key, token_total_key,
  token_memory_rate_limit_handler, redis_rate_limit_handler, redis_total_checked,
  redis_success_checked,
}

-- The two counts of a user have different keys.
total-ne-check : (id : String) → total_key id ≢ check_key id
total-ne-check id e = absurd (
    omega (
      arith,
      ap count e,
      length-append "MRRL" id,
      length-append (append "MRRLS" id) "_check",
      length-append "MRRLS" id,
    ))

-- `memoryRateLimitHandler` lets a request pass exactly when two windows are open: that over the
-- user's requests, and that over the requests that its second check has admitted. Both limits are at least 1, the
-- duration at most the expiration plus one, and each key's run is as for `Request`.
pub memory_checks-windows :
    (id : String) (total success duration expiration : ℕ) {l : InMemoryRateLimiter}
    {all counted : List ℕ} {t u : ℕ} (now : ℕ)
    → 1 ≤ total
    → 1 ≤ success
    → duration ≤ expiration + 1
    → Run (total_key id) total duration expiration l all t
    → Run (check_key id) success duration expiration l counted u
    → t ≤ now
    → u ≤ now
    → now < 2 ^ 63
    → (l' : InMemoryRateLimiter) × (memory_checks id (pos total) (pos success) (pos duration) now l
        ≡ some (
          verdict (window_open total duration all now && window_open success duration counted now),
          l',
        ))
unfolding memory_checks check_total memory_rate_limiter
memory_checks-windows id total success duration expiration {l} {all} {counted} now one_total
      one_success d r q later later' fits =
    let (l1, e1) =
      request-exact (total_key id) total duration expiration now one_total d r later fits in
    let positive : ltb_ℤ (pos 0) (pos total) ≡ true = ground arith in
    rw (positive, e1) (second l1 (window_open total duration all now) e1)
  where
    second :
        (l1 : InMemoryRateLimiter) (open_ : Bool)
        → request (total_key id) (pos total) (pos duration) now l ≡ some (open_, l1)
        → (l' : InMemoryRateLimiter) × (and_check
              (some (verdict open_, l1))
              (λ m. judged (request (check_key id) (pos success) (pos duration) now m))
            ≡ some (verdict (open_ && window_open success duration counted now), l'))
    second l1 false e = (l1, refl)
    second l1 true e =
        let q1 =
          other (total_key id) (pos total) (pos duration) now true q later' fits (total-ne-check id)
            e in
        let (l2, e2) =
          request-exact (check_key id) success duration expiration now one_success d q1
            (omega arith) fits in
        (l2, rw e2)

-- The entries of a key; one that is not known has none.
abbrev pub entries : Option (List ℕ) → List ℕ
entries none = []
entries (some queue) = queue

not_negative : (n : ℕ) (limit : ℤ) → ltb_ℤ (pos n) limit ≡ true → ltb_ℤ limit (pos 0) ≡ false
not_negative n limit h = ground arith

-- A key whose entries leave room.
request_room :
    (key : String) (limit duration : ℤ) (now : ℕ) (l : InMemoryRateLimiter) (o : Option (List ℕ))
    → lookup key l.store ≡ o
    → ltb_ℤ (pos (length (entries o))) limit ≡ true
    → (l' : InMemoryRateLimiter) × (request key limit duration now l ≡ some (true, l'))
      × (lookup key l'.store ≡ some (entries o ++ now ∷ []))
unfolding request request_queue request_found
request_room key limit duration now l none e room = (
  record l { store = insert key (now ∷ []) l.store },
  rw (e, request_found) (rw (not_negative 0 limit room)),
  lookup-insert_self key (now ∷ []) l.store,
)
request_room key limit duration now l (some []) e room = (
  record l { store = insert key (now ∷ []) l.store },
  rw (e, request_found) (rw room),
  lookup-insert_self key (now ∷ []) l.store,
)
request_room key limit duration now l (some (oldest ∷ rest)) e room = (
  record l { store = insert key ((oldest ∷ rest) ++ now ∷ []) l.store },
  rw (e, request_found) (rw room),
  lookup-insert_self key ((oldest ∷ rest) ++ now ∷ []) l.store,
)

-- `tokenMemoryRateLimitHandler` counts a success twice: the check before `c.Next()` records the
-- request under the key of the successes, and so does the count after it. A token whose total count
-- has let it pass and whose entries, if it has any, leave room for two more has two more after one
-- request that is answered with a status below 400, if what runs in between leaves its entries
-- alone.
pub token_memory-counts_twice :
    (rest : InMemoryRateLimiter → ℕ × InMemoryRateLimiter) (id : String)
    (total success duration : ℤ) (now later : ℕ) (l l1 : InMemoryRateLimiter)
    → check_total (token_total_key id) total duration now l ≡ some (passes, l1)
    → ltb_ℤ (pos (suc (length (entries (lookup (token_success_key id) l1.store))))) success ≡ true
    → ((m : InMemoryRateLimiter)
        → ((rest m).0 < 400)
          × (lookup (token_success_key id) (rest m).1.store
              ≡ lookup (token_success_key id) m.store))
    → (status : ℕ) × (l' : InMemoryRateLimiter) × (token_memory_rate_limit_handler rest id total
          success duration now later l
        ≡ some (served status, l'))
      × (lookup (token_success_key id) l'.store
          ≡ some ((entries (lookup (token_success_key id) l1.store) ++ now ∷ []) ++ later ∷ []))
unfolding token_memory_rate_limit_handler memory_rate_limiter after_next
token_memory-counts_twice rest id total success duration now later l l1 passed room alone =
    let key : String = token_success_key id in
    let before : List ℕ = entries (lookup key l1.store) in
    let (l2, e2, known2) =
      request_room key success duration now l1 (lookup key l1.store) refl
        (less_room (length before) success room) in
    let (ok, same) = alone l2 in
    let less : ltb (rest l2).0 400 ≡ true = ground arith in
    let longer : length (before ++ now ∷ []) ≡ suc (length before) =
      List-length-append before (now ∷ []) ∙ omega arith in
    let room2 : ltb_ℤ (pos (length (before ++ now ∷ []))) success ≡ true =
      ap (λ (n : ℕ). ltb_ℤ (pos n) success) longer ∙ room in
    let (l3, e3, known3) =
      request_room key success duration later (rest l2).1 (some (before ++ now ∷ []))
        (same ∙ known2) room2 in
    ((rest l2).0, l3, rw (passed, e2) (rw less (rw e3)), known3)
  where
    less_room : (n : ℕ) (limit : ℤ) → ltb_ℤ (pos (suc n)) limit ≡ true → ltb_ℤ (pos n) limit ≡ true
    less_room n limit h = ground arith

-- A check changes no list.
module _ (R : Redis) (key : String) (max_count duration : ℤ) (now : ℕ) (s : R.State)
    (j : String) where
  check_full-list : (o : Option ℕ) → R.list (check_full R key duration now o s).1 j ≡ R.list s j
  unfolding check_full
  check_full-list none = refl
  check_full-list (some old) = ground (arith, expire_lem R key s j)

  check_length-list :
      (o : Option ℕ) → R.list (check_length R key max_count duration now o s).1 j ≡ R.list s j
  unfolding check_length
  check_length-list none = refl
  check_length-list (some n) = ground (arith, check_full-list (R.lindex_last key s))

  check-list : R.list (check_redis_rate_limit R key max_count duration now s).1 j ≡ R.list s j
  unfolding check_redis_rate_limit
  check-list = ground (arith, check_length-list (R.llen key s))

-- `redisRateLimitHandler` records a request that it refuses: when the check of all requests refuses
-- it and that of the successes allows it, the client gets status 429, and the list of all requests
-- has lost its oldest entry and has this one's time, if it was as long as the limit and `LPUSH` and
-- `LTRIM` succeed.
pub redis_handler-records_refused :
    (R : Redis) (rest : R.State → ℕ × R.State) (id : String) (n : ℕ) (success duration : ℤ)
    (now later : ℕ) (s s1 s2 : R.State) (old : ℕ) (queue : List ℕ)
    → Writes R
    → suc n < 2 ^ 63
    → R.list s (append "rateLimit:MRRL:" id) ≡ old ∷ queue
    → length (old ∷ queue) ≡ suc n
    → check_redis_rate_limit R (append "rateLimit:MRRL:" id) (pos (suc n)) duration now s
      ≡ (some false, s1)
    → check_redis_rate_limit R (append "rateLimit:MRRLS:" id) success duration now s1
      ≡ (some true, s2)
    → ((redis_rate_limit_handler R rest id (pos (suc n)) success duration now later s).0
        ≡ aborted too_many)
      × (R.list
            (redis_rate_limit_handler R rest id (pos (suc n)) success duration now later s).1
            (append "rateLimit:MRRL:" id)
          ≡ queue ++ now ∷ [])
unfolding redis_rate_limit_handler redis_total_checked redis_success_checked record_redis_request
redis_handler-records_refused R rest id n success duration now later s s1 s2 old queue works small
      known full refused allowed =
    let key : String = append "rateLimit:MRRL:" id in
    let one : R.list s1 key ≡ R.list s key =
      ap (λ (p : Option Bool × R.State). R.list p.1 key) (sym refused)
      ∙ check-list R key (pos (suc n)) duration now s key in
    let two : R.list s2 key ≡ R.list s1 key =
      ap (λ (p : Option Bool × R.State). R.list p.1 key) (sym allowed)
      ∙ check-list R (append "rateLimit:MRRLS:" id) success duration now s1 key in
    let limited : eqb_ℤ (pos (suc n)) (pos 0) ≡ false = ground arith in
    let index : int64 (pos (suc n) -ℤ pos 1) ≡ pos (suc n - 1) =
      stop_index (suc n) (omega arith) small in
    rw (refused, allowed)
      (
        refl,
        rw (limited, index)
            (trimmed_list R works key now (suc n) old queue s2 (omega arith) (two ∙ (one ∙ known))
              full),
      )
