-- ===== src/RateLimit/Frame.antt =====
-- What a request for one key, and the sweep of common/rate-limit.go, do to the other keys.
use veloera.Base.{
  ℕ, String, ◌≡◌, refl, ◌≢◌, ◌⊎◌, inl, inr, Bool, true, Option, none, some, List, [], ◌∷◌, arith,
  Option-cases, ℤ,
}
use veloera.Base.Dict.{lookup, lookup-insert, lookup-erase, string_key, Dict}
use text.Mathlib.TextEquality.{eq_iff}
use veloera.RateLimit.Memory.{
  InMemoryRateLimiter, request_queue, put_queue, request_found, request, is_expired, sweep_key,
  sweep,
}
use veloera.RateLimit.Spec.{queue_of}

-- A step on one key leaves the queues of the others and the expiration.
module _ (j key : String) (l l' : InMemoryRateLimiter) where
  abbrev pub Untouched : Type 0
  Untouched =
      (lookup key l'.store ≡ lookup key l.store) × (l'.expiration_duration ≡ l.expiration_duration)

  put_queue-Untouched :
      (r : Option (Bool × List ℕ)) (b : Bool) → j ≢ key → put_queue j l r ≡ some (b, l') → Untouched
  unfolding put_queue
  put_queue-Untouched none b ne e = cc
  put_queue-Untouched (some (a, q)) b ne e =
      ground (arith, lookup-insert j key q l.store, eq_iff j key)

  request_found-Untouched :
      (r : Option (List ℕ)) (m d : ℤ) (now : ℕ) (b : Bool)
      → j ≢ key
      → request_found r j m d now l ≡ some (b, l')
      → Untouched
  unfolding request_found
  request_found-Untouched none m d now b ne e =
      ground (arith, lookup-insert j key (now ∷ []) l.store, eq_iff j key)
  request_found-Untouched (some q) m d now b ne e =
      put_queue-Untouched (request_queue q m d now) b ne e

  pub request-Untouched :
      (m d : ℤ) (now : ℕ) (b : Bool) → j ≢ key → request j m d now l ≡ some (b, l') → Untouched
  unfolding request
  request-Untouched m d now b ne e = request_found-Untouched (lookup j l.store) m d now b ne e

-- The sweep either leaves a queue or removes an expired one.
abbrev pub Kept : ℕ → ℕ → Option (List ℕ) → Option (List ℕ) → Type 0
Kept now exp before after =
    (after ≡ before) ⊎ ((after ≡ none) × (is_expired now exp (queue_of before) ≡ true))

module _ (now exp : ℕ) (key : String) where
  sweep_key-Kept :
      (i : String) (s : Dict String (List ℕ))
      → Kept now exp (lookup key s) (lookup key (sweep_key now exp i s))
  unfolding sweep_key
  sweep_key-Kept i s = elim (Option-cases (lookup i s)) [
    | inl unknown ↦ rw (unknown, sweep_key) (inl refl)
    | inr (q, found) ↦ rw (found, sweep_key) (ground (arith, lookup-erase i key s, eq_iff i key))
  ]

  Kept-trans : (a b c : Option (List ℕ)) → Kept now exp a b → Kept now exp b c → Kept now exp a c
  unfolding is_expired
  Kept-trans a b c p q = ground arith

  pub sweep-Kept :
      (keys : List String) (s : Dict String (List ℕ))
      → Kept now exp (lookup key s) (lookup key (sweep now exp keys s))
  unfolding sweep
  sweep-Kept [] s = inl refl
  sweep-Kept (i ∷ keys) s =
      Kept-trans (lookup key s) (lookup key (sweep_key now exp i s))
        (lookup key (sweep now exp keys (sweep_key now exp i s))) (sweep_key-Kept i s)
        (sweep-Kept keys (sweep_key now exp i s))
