-- ===== src/RateLimit/RedisRun.antt =====
-- The life of one key of middleware/rate-limit.go in Redis, and what its list holds of the admitted
-- times.
use veloera.Base.{
  ℕ, suc, ◌+◌, ◌-◌, ◌*◌, ◌≤◌, ◌<◌, ◌^◌, String, ◌≡◌, refl, Option, some, Option-cases, inl, inr, ap,
  ◌∙◌, Bool, true, false, List, [], ◌∷◌, ◌++◌, length, drop, pos, ltb_ℤ, ◌-ℤ◌, int64, arith, All,
  length-append, ltb, leb,
}
use text.Mathlib.TextPositions.{eq_refl}
use veloera.RateLimit.Spec.{IsWindow}
use veloera.RateLimit.Redis.{
  Redis, Writes, state_or, lpush, ltrim, expire, seconds_between, Verdict, passes, too_many,
  server_error, redis_rate_limiter,
}

-- The admitted times after a request.
abbrev pub admitted_after : Verdict → List ℕ → ℕ → List ℕ
admitted_after passes h now = h ++ now ∷ []
admitted_after too_many h now = h
admitted_after server_error h now = h

abbrev pub verdict_of : Bool → Verdict
verdict_of true = passes
verdict_of false = too_many

-- The life of one key: its own requests, at the times of a clock that does not go back, commands
-- on other keys, and its removal by Redis once all its entries are old. It keeps the admitted
-- times, the oldest first.
pub data RedisRun (R : Redis) (key : String) (limit duration : ℕ)
    : R.State → List ℕ → ℕ → Type 0 where
  begins : {s : R.State} → R.list s key ≡ [] → RedisRun R key limit duration s [] 0
  asks :
      {s s' : R.State} {h : List ℕ} {t : ℕ} (now : ℕ) (v : Verdict)
      → RedisRun R key limit duration s h t
      → t ≤ now
      → redis_rate_limiter R key (pos limit) (pos duration) now s ≡ (v, s')
      → RedisRun R key limit duration s' (admitted_after v h now) now
  elsewhere :
      {s s' : R.State} {h : List ℕ} {t : ℕ}
      → RedisRun R key limit duration s h t
      → R.list s' key ≡ R.list s key
      → RedisRun R key limit duration s' h t
  expires :
      {s s' : R.State} {h : List ℕ} {t : ℕ} (now : ℕ)
      → RedisRun R key limit duration s h t
      → t ≤ now
      → All (λ a. a + 1000 * duration ≤ now) (R.list s key)
      → R.list s' key ≡ []
      → RedisRun R key limit duration s' h now

-- The admitted times are those gone and those in the list.
pub record Tracks (limit duration : ℕ) (h queue : List ℕ) (t : ℕ) : Type 0 where
  pub gone : List ℕ
  pub split : h ≡ gone ++ queue
  pub window : IsWindow limit (1000 * duration) gone queue t

-- The age in whole seconds is the age in milliseconds.
pub aged_lem :
    (now old duration : ℕ)
    → old ≤ now
    → ltb_ℤ (seconds_between now old) (pos duration) ≡ ltb now (old + 1000 * duration)
aged_lem now old duration h = ground arith

pub not_young : (now bound : ℕ) → ltb now bound ≡ false → leb bound now ≡ true
not_young now bound h = ground arith

pub young : (now bound : ℕ) → ltb now bound ≡ true → leb bound now ≡ false
young now bound h = ground arith

pub stop_index :
    (limit : ℕ) → 1 ≤ limit → limit < 2 ^ 63 → int64 (pos limit -ℤ pos 1) ≡ pos (limit - 1)
unfolding int64 ◌-ℤ◌
stop_index limit positive small = ground arith

state_some : {S : Type 0} (s s' : S) (o : Option S) → o ≡ some s' → state_or s o ≡ s'
state_some s s' o e = ap (state_or s) e

-- A command on the list's life leaves the list, whether it fails or not.
pub expire_lem :
    (R : Redis) (k : String) (s : R.State) (j : String) → R.list (expire R k s) j ≡ R.list s j
expire_lem R k s j = elim (Option-cases (R.expire k s)) [
  | inl fails ↦ rw fails refl
  | inr (s', e) ↦ rw e (R.expire-list k s j e)
]

module _ (R : Redis) (works : Writes R) (key : String) where
  pub pushed_list :
      (now : ℕ) (s : R.State) → R.list (lpush R key now s) key ≡ R.list s key ++ now ∷ []
  pushed_list now s =
      let (s', e) = works.lpush key now s in
      ap (λ (x : R.State). R.list x key) (state_some s s' (R.lpush key now s) e)
      ∙ (R.lpush-list key now s key e ∙ rw (eq_refl key))

  drop_one :
      (n now : ℕ) (old : ℕ) (rest : List ℕ)
      → length (old ∷ rest) ≡ suc n
      → drop (length ((old ∷ rest) ++ now ∷ []) - suc n) ((old ∷ rest) ++ now ∷ [])
        ≡ rest ++ now ∷ []
  drop_one n now old rest full =
      let e : length ((old ∷ rest) ++ now ∷ []) - suc n ≡ 1 =
        omega (arith, length-append rest (now ∷ [])) in
      rw e

  pub trimmed_list :
      (now limit old : ℕ) (rest : List ℕ) (s : R.State)
      → 1 ≤ limit
      → R.list s key ≡ old ∷ rest
      → length (old ∷ rest) ≡ limit
      → R.list (expire R key (ltrim R key (pos (limit - 1)) (lpush R key now s))) key
        ≡ rest ++ now ∷ []
  trimmed_list now limit old rest s positive e full =
      let pushed : R.list (lpush R key now s) key ≡ (old ∷ rest) ++ now ∷ [] =
        pushed_list now s ∙ ap (λ (q : List ℕ). q ++ now ∷ []) e in
      let p : R.State = lpush R key now s in
      let (s', e') = works.ltrim key (pos (limit - 1)) p in
      expire_lem R key (ltrim R key (pos (limit - 1)) p) key
      ∙ (ap (λ (x : R.State). R.list x key) (state_some p s' (R.ltrim key (pos (limit - 1)) p) e')
          ∙ (R.ltrim-list key (limit - 1) p key e'
              ∙ rw (eq_refl key, pushed) (drop_one (limit - 1) now old rest (omega arith))))
