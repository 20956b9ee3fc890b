-- ===== src/RateLimit/Bound.antt =====
-- No `duration` seconds see more than `limit` admitted requests of one key of the limiter of
-- common/rate-limit.go.
use mathlib.Core.Option.{some-injective}
use veloera.Base.{
  ℕ, ◌+◌, ◌-◌, ◌≤◌, ◌<◌, String, ◌≡◌, ◌∙◌, sym, ap, subst, refl, Bool, true, false, inl, inr, some,
  List, [], ◌∷◌, ◌++◌, length, get_elem?, length-append, get_elem?-append_left,
  get_elem?-append_right, get_elem?-lt, arith, ltb, leb, Bool-cases, if◌then◌else◌,
}
use veloera.Base.Dict.{lookup, string_key}
use veloera.RateLimit.Memory.{InMemoryRateLimiter}
use veloera.RateLimit.Spec.{window_open, Spaced}
use veloera.RateLimit.Run.{Run, start, asked, other, swept}
use veloera.RateLimit.Window.{Answer, found-Answer}
use veloera.RateLimit.Exact.{Run-IsTracked}

module _ (limit duration : ℕ) (h : List ℕ) (now : ℕ) (positive : 1 ≤ limit) where
  -- What an open window says of the time `limit` places back.
  opened :
      (i a : ℕ)
      → window_open limit duration h now ≡ true
      → i + limit ≡ length h
      → get_elem? h i ≡ some a
      → a + duration ≤ now
  opened i a open_ e x =
      let full : ltb (length h) limit ≡ false = ground arith in
      let back : length h - limit ≡ i = omega arith in
      let y : leb (a + duration) now ≡ true = rw (full, back, x, window_open) at open_ in
      ground arith

  Spaced-push :
      Spaced limit duration h
      → window_open limit duration h now ≡ true
      → Spaced limit duration (h ++ now ∷ [])
  Spaced-push s open_ i a b ea eb =
      let inside : i + limit < length h + 1 =
        omega (arith, get_elem?-lt (h ++ now ∷ []) (i + limit) eb, length-append h (now ∷ [])) in
      let ea' : get_elem? h i ≡ some a =
        sym (get_elem?-append_left h (now ∷ []) i (omega arith)) ∙ ea in
      elim (Bool-cases (ltb (i + limit) (length h))) [
        | inl old ↦
            s i a b ea' (sym (get_elem?-append_left h (now ∷ []) (i + limit) (ground arith)) ∙ eb)
        | inr new ↦
            let at : i + limit ≡ length h + 0 = ground arith in
            let is_now : now ≡ b = some-injective now b (
              sym (get_elem?-append_right h (now ∷ []) 0)
              ∙ (sym (ap (get_elem? (h ++ now ∷ [])) at) ∙ eb)) in
            subst (λ (z : ℕ). a + duration ≤ z) is_now (opened i a open_ (omega arith) ea')
      ]

  Spaced-asked :
      (admitted : Bool)
      → Spaced limit duration h
      → window_open limit duration h now ≡ admitted
      → Spaced limit duration (if admitted then h ++ now ∷ [] else h)
  Spaced-asked true s e = Spaced-push s e
  Spaced-asked false s e = s

module _ (key : String) (limit duration expiration : ℕ) (positive : 1 ≤ limit)
    (d : duration ≤ expiration + 1) where
  Run-Spaced :
      {l : InMemoryRateLimiter} {h : List ℕ} {t : ℕ}
      → Run key limit duration expiration l h t
      → Spaced limit duration h
  Run-Spaced (start unknown e) = λ i a b x y. cc
  Run-Spaced (asked {l} {l'} {h} now admitted r later fits e) =
      let ans : Answer key limit duration expiration l h now =
        found-Answer key limit duration expiration positive (lookup key l.store) l h now refl
          (Run-IsTracked key limit duration expiration positive d r) later fits in
      Spaced-asked limit duration h now positive admitted (Run-Spaced r)
        (ap (λ (p : Bool × InMemoryRateLimiter). p.0) (some-injective _ _ (sym ans.runs ∙ e)))
  Run-Spaced (other j m x now admitted r later fits ne e) = Run-Spaced r
  Run-Spaced (swept now r later fits e) = Run-Spaced r

-- Of the admitted requests of one key, in order, any two that are `limit` places apart lie at least
-- `duration` seconds apart, after every run of requests on this and other keys and sweeps, with a
-- clock that does not go back, if `limit` is at least 1 and `duration` at most the expiration plus
-- one.
pub request-bound :
    (key : String) (limit duration expiration : ℕ) {l : InMemoryRateLimiter} {h : List ℕ} {t : ℕ}
    (i a b : ℕ)
    → 1 ≤ limit
    → duration ≤ expiration + 1
    → Run key limit duration expiration l h t
    → get_elem? h i ≡ some a
    → get_elem? h (i + limit) ≡ some b
    → a + duration ≤ b
request-bound key limit duration expiration i a b positive d r =
    Run-Spaced key limit duration expiration positive d r i a b
