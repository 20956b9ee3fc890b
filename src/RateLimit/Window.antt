-- ===== src/RateLimit/Window.antt =====
-- What `Request` of common/rate-limit.go promises: a sliding window over the admitted requests of
-- one key, whatever other keys do and whenever the sweep runs.
use veloera.Base.{
  ℕ, ◌+◌, ◌≤◌, ◌<◌, ◌^◌, String, ◌≡◌, inl, inr, true, Option, none, some, List, [], ◌∷◌, ◌++◌,
  length, All-get_elem?, get_elem?-append_right, subst, ap, ◌∙◌, arith, ltb, leb, if◌then◌else◌,
  Bool-cases, pos, sub_ℕ, int64,
}
use veloera.Base.Dict.{lookup, insert, lookup-insert_self, string_key}
use veloera.RateLimit.Memory.{InMemoryRateLimiter, expiration_seconds, request_queue, request}
use veloera.RateLimit.Spec.{
  queue_of, window_open, IsWindow, IsWindow-later, IsWindow-push, IsWindow-shift, window_open-full,
  window_open-room,
}
use mathlib.Core.List.{append_assoc, append-nil}

-- A time difference of two readings fits in 64 bits.
pub elapsed_fits : (a b : ℕ) → a < 2 ^ 63 → b < 2 ^ 63 → int64 (sub_ℕ a b) ≡ sub_ℕ a b
unfolding int64
elapsed_fits a b ha hb = ground arith

-- One request on the queue of a known key.
record Step (limit duration : ℕ) (gone q : List ℕ) (now : ℕ) : Type 0 where
  after : List ℕ
  left : List ℕ
  runs :
      request_queue q (pos limit) (pos duration) now
      ≡ some (window_open limit duration (gone ++ q) now, after)
  split :
      (if window_open limit duration (gone ++ q) now then (gone ++ q) ++ now ∷ [] else gone ++ q)
      ≡ left ++ after
  window : IsWindow limit duration left after now

module _ (limit duration : ℕ) (gone : List ℕ) {t : ℕ} (now : ℕ) (later : t ≤ now) where
  room-Step :
      (q : List ℕ)
      → IsWindow limit duration gone q t
      → length q < limit
      → Step limit duration gone q now
  unfolding request_queue
  room-Step q w less =
      let open_ : window_open limit duration (gone ++ q) now ≡ true =
        window_open-room limit duration gone q now
          (IsWindow-later limit duration gone q now later w) less in
      record {
        after = q ++ now ∷ [];
        left = gone;
        runs = rw open_ (runs q less);
        split = rw open_ (append_assoc gone q (now ∷ []));
        window = IsWindow-push limit duration gone q now later w less;
      }
    where
      runs :
          (q : List ℕ)
          → length q < limit
          → request_queue q (pos limit) (pos duration) now ≡ some (true, q ++ now ∷ [])
      runs [] less = ground arith
      runs (x ∷ q) less = ground arith

  full-Step :
      (oldest : ℕ) (rest : List ℕ)
      → IsWindow limit duration gone (oldest ∷ rest) t
      → length (oldest ∷ rest) ≡ limit
      → now < 2 ^ 63
      → Step limit duration gone (oldest ∷ rest) now
  unfolding request_queue
  full-Step oldest rest w full fits = elim (Bool-cases (leb (oldest + duration) now)) [
    | inl old ↦ record {
      after = rest ++ now ∷ [];
      left = gone ++ oldest ∷ [];
      runs =
          rw (window_open-full limit duration gone rest oldest now later full)
            (rw old (rw elapsed (ground arith)));
      split =
          rw (window_open-full limit duration gone rest oldest now later full)
            (rw old (simp append_assoc));
      window = IsWindow-shift limit duration gone rest oldest now later w full;
    }
    | inr young ↦ record {
      after = oldest ∷ rest;
      left = gone;
      runs =
          rw (window_open-full limit duration gone rest oldest now later full)
            (rw young (rw elapsed (ground arith)));
      split = rw (window_open-full limit duration gone rest oldest now later full) (rw young);
      window = IsWindow-later limit duration gone (oldest ∷ rest) now later w;
    }
  ]
    where
      before : oldest ≤ t
      before =
          All-get_elem? (λ a. a ≤ t) (gone ++ oldest ∷ rest) (length gone + 0) w.past
            (get_elem?-append_right gone (oldest ∷ rest) 0)

      elapsed : int64 (sub_ℕ now oldest) ≡ sub_ℕ now oldest
      elapsed = elapsed_fits now oldest fits (omega (arith, before))

  queue-Step :
      (q : List ℕ)
      → 1 ≤ limit
      → IsWindow limit duration gone q t
      → now < 2 ^ 63
      → Step limit duration gone q now
  queue-Step [] some_ w fits = room-Step [] w some_
  queue-Step (oldest ∷ rest) some_ w fits = elim (Bool-cases (ltb (length (oldest ∷ rest)) limit)) [
    | inl less ↦ room-Step (oldest ∷ rest) w (ground arith)
    | inr full ↦ full-Step oldest rest w (ground (arith, w.short)) fits
  ]

-- The state of one key: the admitted times are those gone from its queue and those in it.
pub record IsTracked (key : String) (limit duration expiration : ℕ) (l : InMemoryRateLimiter)
    (h : List ℕ) (t : ℕ) : Type 0 where
  pub gone : List ℕ
  pub split : h ≡ gone ++ queue_of (lookup key l.store)
  pub window : IsWindow limit duration gone (queue_of (lookup key l.store)) t
  pub expires : expiration_seconds l ≡ expiration
  pub clock : t < 2 ^ 63

-- The answer to a request, and the state after it.
pub record Answer (key : String) (limit duration expiration : ℕ) (l : InMemoryRateLimiter)
    (h : List ℕ) (now : ℕ) : Type 0 where
  pub after : InMemoryRateLimiter
  pub runs :
      request key (pos limit) (pos duration) now l ≡ some (window_open limit duration h now, after)
  pub tracked :
      IsTracked key limit duration expiration after
        (if window_open limit duration h now then h ++ now ∷ [] else h)
        now

module _ (key : String) (limit duration expiration : ℕ) (positive : 1 ≤ limit) where
  pub found-Answer :
      (r : Option (List ℕ)) (l : InMemoryRateLimiter) (h : List ℕ) {t : ℕ} (now : ℕ)
      → lookup key l.store ≡ r
      → IsTracked key limit duration expiration l h t
      → t ≤ now
      → now < 2 ^ 63
      → Answer key limit duration expiration l h now
  unfolding request
  found-Answer none l h {t} now e k later fits =
      let w : IsWindow limit duration k.gone [] t =
        subst (λ x. IsWindow limit duration k.gone (queue_of x) t) e k.window in
      let hq : h ≡ k.gone ++ [] = k.split ∙ ap (λ x. k.gone ++ queue_of x) e in
      let opened : window_open limit duration (k.gone ++ []) now ≡ true =
        window_open-room limit duration k.gone [] now
          (IsWindow-later limit duration k.gone [] now later w) positive in
      record {
        after = record l { store = insert key (now ∷ []) l.store };
        runs = rw e (rw hq (rw opened (ground arith)));
        tracked = record {
          gone = k.gone;
          split =
              rw (lookup-insert_self key (now ∷ []) l.store) (rw hq (rw opened (simp append-nil)));
          window =
              rw (lookup-insert_self key (now ∷ []) l.store)
                (IsWindow-push limit duration k.gone [] now later w positive);
          expires = k.expires;
          clock = fits;
        };
      }
  found-Answer (some q) l h {t} now e k later fits =
      let w : IsWindow limit duration k.gone q t =
        subst (λ x. IsWindow limit duration k.gone (queue_of x) t) e k.window in
      let hq : h ≡ k.gone ++ q = k.split ∙ ap (λ x. k.gone ++ queue_of x) e in
      let s : Step limit duration k.gone q now =
        queue-Step limit duration k.gone now later q positive w fits in
      record {
        after = record l { store = insert key s.after l.store };
        runs = rw e (rw hq (rw s.runs));
        tracked = record {
          gone = s.left;
          split = rw (lookup-insert_self key s.after l.store) (rw hq s.split);
          window = rw (lookup-insert_self key s.after l.store) s.window;
          expires = k.expires;
          clock = fits;
        };
      }
