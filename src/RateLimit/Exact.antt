-- ===== src/RateLimit/Exact.antt =====
-- What `Request` of common/rate-limit.go promises: a sliding window over the admitted requests of
-- one key, whatever other keys do and whenever the sweep runs.
use veloera.Base.{
  ℕ, ◌+◌, ◌-◌, ◌≤◌, ◌<◌, ◌^◌, String, ◌≡◌, refl, inl, inr, Bool, true, some, List, [], ◌∷◌, ◌++◌,
  map, length, get_elem?, All, All-map, All-get_elem?, get_elem?-append_right, get_elem?-ne-none,
  subst, ap, ◌∙◌, sym, ◌/◌, arith, if◌then◌else◌, Option-cases, ℤ, pos, sub_ℕ, int64, ltb_ℤ,
}
use veloera.Base.Dict.{lookup, string_key}
use veloera.RateLimit.Memory.{
  InMemoryRateLimiter, expiration_seconds, request, is_expired, clear_expired_items,
}
use veloera.RateLimit.Spec.{queue_of, window_open, IsWindow, IsWindow-later, IsWindow-forget}
use mathlib.Core.Path.{subst₂}
use mathlib.Core.Option.{some-injective}
use mathlib.Core.List.{append-nil}
use veloera.RateLimit.Frame.{Kept, sweep-Kept, request-Untouched}
use veloera.RateLimit.Window.{elapsed_fits, IsTracked, Answer, found-Answer}
use veloera.RateLimit.Run.{Run, start, asked, other, swept}

outlived :
    (z now expiration : ℕ)
    → z ≤ now
    → now < 2 ^ 63
    → ltb_ℤ (pos expiration) (int64 (sub_ℕ now z)) ≡ true
    → z + expiration < now
outlived z now expiration before fits x =
    let y : ltb_ℤ (pos expiration) (sub_ℕ now z) ≡ true =
      subst (λ (i : ℤ). ltb_ℤ (pos expiration) i ≡ true) (elapsed_fits now z fits (omega arith))
        x in
    ground arith

-- A queue that the sweep finds expired holds only times that have left the window.
expired-All :
    (limit duration : ℕ) (gone queue : List ℕ) {t : ℕ} (now expiration : ℕ)
    → 1 ≤ limit
    → duration ≤ expiration + 1
    → IsWindow limit duration gone queue t
    → t ≤ now
    → now < 2 ^ 63
    → is_expired now expiration queue ≡ true
    → All (λ a. a + duration ≤ now) (gone ++ queue)
unfolding is_expired
expired-All limit duration gone [] {t} now expiration positive d w later fits x = rw append-nil (
    All-map (λ a. a + duration ≤ t) (λ a. a + duration ≤ now) gone (λ a h. omega arith)
      (w.aged positive))
expired-All limit duration gone (q ∷ qs) {t} now expiration positive d w later fits x =
    let back : ℕ = length (q ∷ qs) - 1 in
    elim (Option-cases (get_elem? (q ∷ qs) back)) [
      | inl out ↦ absurd (get_elem?-ne-none (q ∷ qs) back (omega arith) out)
      | inr (z, e) ↦
          let before : z ≤ t =
            All-get_elem? (λ a. a ≤ t) (gone ++ q ∷ qs) (length gone + back) w.past
              (get_elem?-append_right gone (q ∷ qs) back ∙ e) in
          let old : z + expiration < now =
            outlived z now expiration (omega arith) fits (rw (e, is_expired) at x) in
          All-map (λ a. a ≤ z) (λ a. a + duration ≤ now) (gone ++ q ∷ qs) (λ a h. omega arith)
            (w.newest z e)
    ]

module _ (key : String) (limit duration expiration : ℕ) (positive : 1 ≤ limit)
    (d : duration ≤ expiration + 1) where
  swept_case :
      {l l' : InMemoryRateLimiter} {h : List ℕ} {t : ℕ} (now : ℕ)
      → now < 2 ^ 63
      → t ≤ now
      → IsTracked key limit duration expiration l h t
      → l'.expiration_duration ≡ l.expiration_duration
      → Kept now (expiration_seconds l) (lookup key l.store) (lookup key l'.store)
      → IsTracked key limit duration expiration l' h now
  swept_case {l} {l'} {h} now fits later k same (inl held) = record {
    gone = k.gone;
    split = rw held k.split;
    window =
        rw held
          (IsWindow-later limit duration k.gone (queue_of (lookup key l.store)) now later k.window);
    expires = ap (λ (n : ℕ). n / 1_000_000_000) same ∙ k.expires;
    clock = fits;
  }
  swept_case {l} {l'} {h} now fits later k same (inr (removed, x)) =
      let q : List ℕ = queue_of (lookup key l.store) in
      record {
        gone = k.gone ++ q;
        split = rw removed (simp append-nil k.split);
        window = rw removed (
            IsWindow-forget limit duration k.gone q now later k.window (
              expired-All limit duration k.gone q now expiration positive d k.window later fits
                (subst (λ (n : ℕ). is_expired now n q ≡ true) k.expires x)));
        expires = ap (λ (n : ℕ). n / 1_000_000_000) same ∙ k.expires;
        clock = fits;
      }

  swept-IsTracked :
      {l : InMemoryRateLimiter} {h : List ℕ} {t : ℕ} (now : ℕ)
      → IsTracked key limit duration expiration l h t
      → t ≤ now
      → now < 2 ^ 63
      → IsTracked key limit duration expiration (clear_expired_items now l) h now
  unfolding clear_expired_items
  swept-IsTracked {l} {h} {t} now k later fits =
      swept_case {l' = clear_expired_items now l} now fits later k refl (
        sweep-Kept now (expiration_seconds l) key (map (λ (e : String × List ℕ). e.0) l.store)
          l.store)

  pub Run-IsTracked :
      {l : InMemoryRateLimiter} {h : List ℕ} {t : ℕ}
      → Run key limit duration expiration l h t
      → IsTracked key limit duration expiration l h t
  Run-IsTracked (start {l} unknown e) = record {
    gone = [];
    split = rw unknown;
    window =
        rw unknown (record { short = omega arith; past = tt; aged = λ _. tt; newest = λ z e. cc });
    expires = e;
    clock = omega arith;
  }
  Run-IsTracked (asked {l} {l'} {h} now admitted r later fits e) =
      let a : Answer key limit duration expiration l h now =
        found-Answer key limit duration expiration positive (lookup key l.store) l h now refl
          (Run-IsTracked r) later fits in
      let same : (window_open limit duration h now, a.after) ≡ (admitted, l') =
        some-injective _ _ (sym a.runs ∙ e) in
      subst₂
        (λ (b : Bool) (m : InMemoryRateLimiter).
          IsTracked key limit duration expiration m (if b then h ++ now ∷ [] else h) now)
        (ap (λ (p : Bool × InMemoryRateLimiter). p.0) same)
        (ap (λ (p : Bool × InMemoryRateLimiter). p.1) same) a.tracked
  Run-IsTracked (other {l} {l'} {h} {t} j m d now admitted r later fits ne e) =
      let k : IsTracked key limit duration expiration l h t = Run-IsTracked r in
      let (held, kept) = request-Untouched j key l l' m d now admitted ne e in
      record {
        gone = k.gone;
        split = rw held k.split;
        window = rw held (
            IsWindow-later limit duration k.gone (queue_of (lookup key l.store)) now later
              k.window);
        expires = ap (λ (n : ℕ). n / 1_000_000_000) kept ∙ k.expires;
        clock = fits;
      }
  Run-IsTracked (swept now r later fits e) = rw e (swept-IsTracked now (Run-IsTracked r) later fits)

-- A request is admitted exactly when the window is open: fewer than `limit` requests of its key
-- were admitted before, or the one `limit` places back is `duration` seconds old. This holds after
-- every run of requests on this and other keys and sweeps, with a clock that does not go back, if
-- `limit` is at least 1 and `duration` at most the expiration plus one; the limiter does not panic.
pub request-exact :
    (key : String) (limit duration expiration : ℕ) {l : InMemoryRateLimiter} {h : List ℕ} {t : ℕ}
    (now : ℕ)
    → 1 ≤ limit
    → duration ≤ expiration + 1
    → Run key limit duration expiration l h t
    → t ≤ now
    → now < 2 ^ 63
    → (l' : InMemoryRateLimiter) × (request key (pos limit) (pos duration) now l
        ≡ some (window_open limit duration h now, l'))
request-exact key limit duration expiration {l} {h} now positive d r later fits =
    let a : Answer key limit duration expiration l h now =
      found-Answer key limit duration expiration positive (lookup key l.store) l h now refl
        (Run-IsTracked key limit duration expiration positive d r) later fits in
    (a.after, a.runs)
