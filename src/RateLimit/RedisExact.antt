-- ===== src/RateLimit/RedisExact.antt =====
-- What `redisRateLimiter` of middleware/rate-limit.go promises: the same sliding window as the
-- limiter in memory.
use veloera.Base.{
  ℕ, ◌+◌, ◌-◌, ◌*◌, ◌≤◌, ◌<◌, ◌^◌, String, ◌≡◌, refl, sym, subst, ap, ◌∙◌, true, false, Option,
  none, some, List, [], ◌∷◌, ◌++◌, length, pos, ltb_ℤ, ◌-ℤ◌, int64, arith, All, All-map,
  All-get_elem?, get_elem?, get_elem?-ne-none, Bool-cases, Option-cases, inl, inr, ◌⊎◌, ltb, leb,
}
use mathlib.Core.Option.{some-injective}
use mathlib.Core.List.{append_assoc, append-nil}
use veloera.RateLimit.Spec.{
  window_open, IsWindow, IsWindow-later, IsWindow-push, IsWindow-shift, IsWindow-forget,
  window_open-full, window_open-room,
}
use veloera.RateLimit.Redis.{
  Redis, Writes, lpush, ltrim, expire, head, Verdict, passes, too_many, server_error, full_list,
  limited, redis_rate_limiter,
}
use veloera.RateLimit.RedisRun.{
  RedisRun, begins, asks, elsewhere, expires, admitted_after, verdict_of, Tracks, aged_lem,
  expire_lem, not_young, young, pushed_list, trimmed_list, stop_index,
}

-- An error, or the verdict of the window; and what was admitted stays in sight.
record Sound (R : Redis) (key : String) (limit duration : ℕ) (h : List ℕ) (now : ℕ)
    (r : Verdict × R.State) : Type 0 where
  says : (r.0 ≡ server_error) ⊎ (r.0 ≡ verdict_of (window_open limit (1000 * duration) h now))
  keeps : Tracks limit duration (admitted_after r.0 h now) (R.list r.1 key) now

module _ (R : Redis) (key : String) (limit duration : ℕ) (h : List ℕ) {t : ℕ} (now : ℕ)
    (s : R.State) (works : Writes R) (positive : 1 ≤ limit) (small : limit < 2 ^ 63)
    (later : t ≤ now) where
  Tracks-later :
      (q q' : List ℕ) → q' ≡ q → Tracks limit duration h q t → Tracks limit duration h q' now
  Tracks-later q q' e k = rw e (record {
    gone = k.gone;
    split = k.split;
    window = IsWindow-later limit (1000 * duration) k.gone q now later k.window;
  })

  room_Sound :
      (q : List ℕ)
      → R.list s key ≡ q
      → length q < limit
      → Tracks limit duration h q t
      → Sound R key limit duration h now (passes, expire R key (lpush R key now s))
  room_Sound q e less k =
      let w = IsWindow-later limit (1000 * duration) k.gone q now later k.window in
      let open_ : window_open limit (1000 * duration) h now ≡ true =
        rw k.split (window_open-room limit (1000 * duration) k.gone q now w less) in
      let list : R.list (expire R key (lpush R key now s)) key ≡ q ++ now ∷ [] =
        expire_lem R key (lpush R key now s) key
        ∙ (pushed_list R works key now s ∙ ap (λ (l : List ℕ). l ++ now ∷ []) e) in
      record {
        says = inr (rw open_);
        keeps = rw list (record {
          gone = k.gone;
          split = ap (λ (l : List ℕ). l ++ now ∷ []) k.split ∙ append_assoc k.gone q (now ∷ []);
          window = IsWindow-push limit (1000 * duration) k.gone q now later k.window less;
        });
      }

  module _ (old : ℕ) (rest : List ℕ) (e : R.list s key ≡ old ∷ rest)
      (full : length (old ∷ rest) ≡ limit) (k : Tracks limit duration h (old ∷ rest) t) where
    full_window : window_open limit (1000 * duration) h now ≡ leb (old + 1000 * duration) now
    full_window =
        rw k.split (window_open-full limit (1000 * duration) k.gone rest old now later full)

    old_Sound :
        ltb now (old + 1000 * duration) ≡ false
        → Sound R key limit duration h now
            (passes, expire R key (ltrim R key (int64 (pos limit -ℤ pos 1)) (lpush R key now s)))
    old_Sound aged = rw (stop_index limit positive small) (record {
      says = inr (rw (full_window ∙ not_young now (old + 1000 * duration) aged));
      keeps = rw (trimmed_list R works key now limit old rest s positive e full) (record {
        gone = k.gone ++ old ∷ [];
        split = ap (λ (l : List ℕ). l ++ now ∷ []) k.split ∙ simp append_assoc;
        window = IsWindow-shift limit (1000 * duration) k.gone rest old now later k.window full;
      });
    })

    young_Sound :
        ltb now (old + 1000 * duration) ≡ true
        → Sound R key limit duration h now (too_many, expire R key s)
    young_Sound fresh = record {
      says = inr (rw (full_window ∙ young now (old + 1000 * duration) fresh));
      keeps =
          Tracks-later (old ∷ rest) (R.list (expire R key s) key) (expire_lem R key s key ∙ e) k;
    }

  error_Sound :
      (q : List ℕ)
      → R.list s key ≡ q
      → Tracks limit duration h q t
      → Sound R key limit duration h now (server_error, s)
  error_Sound q e k = record { says = inl refl; keeps = Tracks-later q (R.list s key) e k }

  -- The branch of a full list.
  full_Sound :
      (q : List ℕ) (o : Option ℕ)
      → R.list s key ≡ q
      → length q ≡ limit
      → R.lindex_last key s ≡ o
      → Tracks limit duration h q t
      → Sound R key limit duration h now (full_list R key (pos limit) (pos duration) now o s)
  unfolding full_list
  full_Sound q none e full read k = error_Sound q e k
  full_Sound [] (some o) e full read k = absurd (omega arith)
  full_Sound (old ∷ rest) (some o) e full read k =
      let same : old ≡ o = some-injective old o (ap head (sym e) ∙ R.lindex_last-list key s read) in
      let past : old ≤ now =
        first_past k.gone
          (IsWindow-later limit (1000 * duration) k.gone (old ∷ rest) now later k.window).past in
      rw (← same) (elim (Bool-cases (ltb now (old + 1000 * duration))) [
        | inl fresh ↦
            rw (aged_lem now old duration past, fresh) (young_Sound old rest e full k fresh)
        | inr aged ↦ rw (aged_lem now old duration past, aged) (old_Sound old rest e full k aged)
      ])
    where
      first_past : (gone : List ℕ) → All (λ a. a ≤ now) (gone ++ old ∷ rest) → old ≤ now
      first_past [] a = a.0
      first_past (x ∷ gone) a = first_past gone a.1

  redis_Sound :
      (q : List ℕ)
      → R.list s key ≡ q
      → Tracks limit duration h q t
      → Sound R key limit duration h now (redis_rate_limiter R key (pos limit) (pos duration) now s)
  unfolding redis_rate_limiter limited
  redis_Sound q e k = answered (R.llen key s) refl
    where
      answered :
          (o : Option ℕ)
          → R.llen key s ≡ o
          → Sound R key limit duration h now (limited R key (pos limit) (pos duration) now o s)
      answered none read = error_Sound q e k
      answered (some n) read =
          let n_is : n ≡ length q = R.llen-list key s read ∙ ap length e in
          let short : length q ≤ limit = k.window.short in
          elim (Bool-cases (ltb_ℤ (pos n) (pos limit))) [
            | inl room ↦ rw room (room_Sound q e (ground arith) k)
            | inr none_left ↦
                rw none_left (full_Sound q (R.lindex_last key s) e (ground arith) refl k)
          ]

module _ (R : Redis) (key : String) (limit duration : ℕ) (works : Writes R) (positive : 1 ≤ limit)
    (small : limit < 2 ^ 63) where
  -- If what is in the list is old, so is what has left it.
  whole_list_old :
      (gone queue : List ℕ) {t now : ℕ}
      → t ≤ now
      → IsWindow limit (1000 * duration) gone queue t
      → All (λ a. a + 1000 * duration ≤ now) queue
      → All (λ a. a + 1000 * duration ≤ now) (gone ++ queue)
  whole_list_old gone [] {t} {now} later w old = rw append-nil (
      All-map (λ a. a + 1000 * duration ≤ t) (λ a. a + 1000 * duration ≤ now) gone
        (λ a h. omega arith) (w.aged positive))
  whole_list_old gone (q ∷ qs) {t} {now} later w old =
      elim (Option-cases (get_elem? (q ∷ qs) (length (q ∷ qs) - 1))) [
        | inl out ↦ absurd (get_elem?-ne-none (q ∷ qs) (length (q ∷ qs) - 1) (omega arith) out)
        | inr (z, e) ↦
            let past : z + 1000 * duration ≤ now =
              All-get_elem? (λ a. a + 1000 * duration ≤ now) (q ∷ qs) (length (q ∷ qs) - 1) old e in
            All-map (λ a. a ≤ z) (λ a. a + 1000 * duration ≤ now) (gone ++ q ∷ qs)
              (λ a h. omega arith) (w.newest z e)
      ]

  Run-Tracks :
      {s : R.State} {h : List ℕ} {t : ℕ}
      → RedisRun R key limit duration s h t
      → Tracks limit duration h (R.list s key) t
  Run-Tracks (begins e) = rw e (record {
    gone = [];
    split = refl;
    window = record { short = omega arith; past = tt; aged = λ _. tt; newest = λ z e. cc };
  })
  Run-Tracks (asks {s} {s'} {h} now v r later e) =
      let sound =
        redis_Sound R key limit duration h now s works positive small later (R.list s key) refl
          (Run-Tracks r) in
      subst
        (λ (p : Verdict × R.State).
          Tracks limit duration (admitted_after p.0 h now) (R.list p.1 key) now)
        e sound.keeps
  Run-Tracks (elsewhere {h} {t} r same) =
      subst (λ (q : List ℕ). Tracks limit duration h q t) (sym same) (Run-Tracks r)
  Run-Tracks (expires {s} {h} now r later old gone_now) =
      let k = Run-Tracks r in
      rw gone_now (record {
        gone = k.gone ++ R.list s key;
        split = k.split ∙ sym (append-nil (k.gone ++ R.list s key));
        window =
            IsWindow-forget limit (1000 * duration) k.gone (R.list s key) now later k.window
              (whole_list_old k.gone (R.list s key) later k.window old);
      })

-- `redisRateLimiter` answers as the sliding window demands, or with an error of Redis: it lets a
-- request through only if fewer than `limit` requests of its key were let through before, or the one
-- `limit` places back is `duration` seconds old, and refuses it with status 429 only otherwise. This
-- holds after every run of requests, of commands on other keys, and of the key's removal by Redis
-- when all its entries are that old, with a clock that does not go back, if `limit` is at least 1
-- and less than 2^63, and if `LPUSH` and `LTRIM` succeed: their errors are not looked at, and an
-- entry that was not pushed is not counted. One request reads the clock once.
pub redis_rate_limiter-exact :
    (R : Redis) (key : String) (limit duration : ℕ) {s : R.State} {h : List ℕ} {t : ℕ} (now : ℕ)
    → Writes R
    → 1 ≤ limit
    → limit < 2 ^ 63
    → RedisRun R key limit duration s h t
    → t ≤ now
    → ((redis_rate_limiter R key (pos limit) (pos duration) now s).0 ≡ server_error)
      ⊎ ((redis_rate_limiter R key (pos limit) (pos duration) now s).0
          ≡ verdict_of (window_open limit (1000 * duration) h now))
redis_rate_limiter-exact R key limit duration {s} {h} now works positive small r later =
    (redis_Sound R key limit duration h now s works positive small later (R.list s key) refl
      (Run-Tracks R key limit duration works positive small r)).says
