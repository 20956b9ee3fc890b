-- ===== src/RateLimit/Spec.antt =====
-- The sliding window that the in-memory limiter of common/rate-limit.go promises, and the facts
-- about the two parts of the admitted times: those still queued and those gone from the queue.
use veloera.Base.{
  ℕ, ◌+◌, ◌-◌, ◌≤◌, ◌<◌, ◌≡◌, sym, subst, ◌∙◌, inl, inr, Bool, true, false, Option, none, some,
  List, [], ◌∷◌, ◌++◌, length, get_elem?, length-append, get_elem?-append_left,
  get_elem?-append_right, All, All-append, All-map, All-get_elem?, arith, ltb, leb, Bool-cases,
  Option-cases,
}
use mathlib.Core.List.{append_assoc, append-nil}
use mathlib.Core.Option.{some-injective}

-- The queue of a key, empty when the key is unknown.
abbrev pub queue_of : Option (List ℕ) → List ℕ
queue_of none = []
queue_of (some q) = q

-- The specification: the request is admitted if fewer than `limit` were admitted before, or if
-- the one `limit` places back lies `duration` seconds back.
abbrev pub window_open : ℕ → ℕ → List ℕ → ℕ → Bool
window_open limit duration admitted now = elim (ltb (length admitted) limit) [
  | true ↦ true
  | false ↦ elim (get_elem? admitted (length admitted - limit)) [
    | none ↦ true
    | some t ↦ leb (t + duration) now
  ]
]

-- Among the admitted times, those `limit` places apart are `duration` seconds apart.
abbrev pub Spaced : ℕ → ℕ → List ℕ → Type 0
Spaced limit duration h =
    (i a b : ℕ) → get_elem? h i ≡ some a → get_elem? h (i + limit) ≡ some b → a + duration ≤ b

-- The admitted times are `gone ++ queue`, and the clock stands at `now`.
pub record IsWindow (limit duration : ℕ) (gone queue : List ℕ) (now : ℕ) : Type 0 where
  pub short : length queue ≤ limit
  pub past : All (λ a. a ≤ now) (gone ++ queue)
  pub aged : length queue < limit → All (λ a. a + duration ≤ now) gone
  pub newest :
      (z : ℕ) → get_elem? queue (length queue - 1) ≡ some z → All (λ a. a ≤ z) (gone ++ queue)

last_of_push : (q : List ℕ) (x : ℕ) → get_elem? (q ++ x ∷ []) (length (q ++ x ∷ []) - 1) ≡ some x
last_of_push q x =
    let e : length (q ++ x ∷ []) - 1 ≡ length q + 0 = omega (arith, length-append q (x ∷ [])) in
    rw e (get_elem?-append_right q (x ∷ []) 0)

module _ (limit duration : ℕ) (gone queue : List ℕ) {t : ℕ} (now : ℕ) (later : t ≤ now) where
  pub IsWindow-later : IsWindow limit duration gone queue t → IsWindow limit duration gone queue now
  IsWindow-later w = record {
    short = w.short;
    past = All-map (λ a. a ≤ t) (λ a. a ≤ now) (gone ++ queue) (λ a h. omega arith) w.past;
    aged = λ less.
        All-map (λ a. a + duration ≤ t) (λ a. a + duration ≤ now) gone (λ a h. omega arith)
          (w.aged less);
    newest = w.newest;
  }

  pub IsWindow-push :
      IsWindow limit duration gone queue t
      → length queue < limit
      → IsWindow limit duration gone (queue ++ now ∷ []) now
  IsWindow-push w less =
      let all : All (λ a. a ≤ now) (gone ++ (queue ++ now ∷ [])) =
        subst (All (λ a. a ≤ now)) (append_assoc gone queue (now ∷ [])) (
          All-append (λ a. a ≤ now) (gone ++ queue) (now ∷ [])
            (All-map (λ a. a ≤ t) (λ a. a ≤ now) (gone ++ queue) (λ a h. omega arith) w.past)
            (omega arith)) in
      record {
        short = omega (arith, length-append queue (now ∷ []));
        past = all;
        aged = λ _.
            All-map (λ a. a + duration ≤ t) (λ a. a + duration ≤ now) gone (λ a h. omega arith)
              (w.aged less);
        newest = λ z e.
            subst (λ (y : ℕ). All (λ a. a ≤ y) (gone ++ (queue ++ now ∷ [])))
              (some-injective now z (sym (last_of_push queue now) ∙ e)) all;
      }

  -- The sweep forgets a key whose newest entry is at least `duration` seconds old.
  pub IsWindow-forget :
      IsWindow limit duration gone queue t
      → All (λ a. a + duration ≤ now) (gone ++ queue)
      → IsWindow limit duration (gone ++ queue) [] now
  IsWindow-forget w old = record {
    short = omega arith;
    past = rw append-nil (IsWindow-later w).past;
    aged = λ _. old;
    newest = λ z e. cc;
  }

module _ (limit duration : ℕ) (gone rest : List ℕ) (oldest : ℕ) {t : ℕ} (now : ℕ)
    (later : t ≤ now) where
  -- A full queue drops its oldest entry.
  pub IsWindow-shift :
      IsWindow limit duration gone (oldest ∷ rest) t
      → length (oldest ∷ rest) ≡ limit
      → IsWindow limit duration (gone ++ oldest ∷ []) (rest ++ now ∷ []) now
  IsWindow-shift w full =
      let whole : All (λ a. a ≤ t) ((gone ++ oldest ∷ []) ++ rest) =
        subst (All (λ a. a ≤ t)) (sym (append_assoc gone (oldest ∷ []) rest)) w.past in
      let all : All (λ a. a ≤ now) ((gone ++ oldest ∷ []) ++ (rest ++ now ∷ [])) =
        subst (All (λ a. a ≤ now)) (append_assoc (gone ++ oldest ∷ []) rest (now ∷ [])) (
          All-append (λ a. a ≤ now) ((gone ++ oldest ∷ []) ++ rest) (now ∷ [])
            (All-map (λ a. a ≤ t) (λ a. a ≤ now) ((gone ++ oldest ∷ []) ++ rest)
              (λ a h. omega arith) whole)
            (omega arith)) in
      record {
        short = omega (arith, length-append rest (now ∷ []));
        past = all;
        aged = λ less. absurd (omega (arith, length-append rest (now ∷ [])));
        newest = λ z e.
            subst (λ (y : ℕ). All (λ a. a ≤ y) ((gone ++ oldest ∷ []) ++ (rest ++ now ∷ [])))
              (some-injective now z (sym (last_of_push rest now) ∙ e)) all;
      }

  -- With a full queue the specification looks at its oldest entry.
  pub window_open-full :
      length (oldest ∷ rest) ≡ limit
      → window_open limit duration (gone ++ oldest ∷ rest) now ≡ leb (oldest + duration) now
  window_open-full full =
      let long : ltb (length (gone ++ oldest ∷ rest)) limit ≡ false =
        ground (arith, length-append gone (oldest ∷ rest)) in
      let at : length (gone ++ oldest ∷ rest) - limit ≡ length gone + 0 =
        omega (arith, length-append gone (oldest ∷ rest)) in
      rw (long, at, window_open, get_elem?-append_right gone (oldest ∷ rest) 0)

-- With room in the queue whatever the specification looks at has aged.
module _ (limit duration : ℕ) (gone queue : List ℕ) (now : ℕ) where
  aged_back :
      (a : ℕ)
      → IsWindow limit duration gone queue now
      → length queue < limit
      → ltb (length (gone ++ queue)) limit ≡ false
      → get_elem? (gone ++ queue) (length (gone ++ queue) - limit) ≡ some a
      → a + duration ≤ now
  aged_back a w less many e =
      let back : ℕ = length (gone ++ queue) - limit in
      let inside : back < length gone = ground (arith, length-append gone queue) in
      All-get_elem? (λ b. b + duration ≤ now) gone back (w.aged less)
        (sym (get_elem?-append_left gone queue back inside) ∙ e)

  pub window_open-room :
      IsWindow limit duration gone queue now
      → length queue < limit
      → window_open limit duration (gone ++ queue) now ≡ true
  window_open-room w less = elim (Bool-cases (ltb (length (gone ++ queue)) limit)) [
    | inl few ↦ rw (few, window_open)
    | inr many ↦ elim (Option-cases (get_elem? (gone ++ queue) (length (gone ++ queue) - limit))) [
      | inl out ↦ rw (many, out, window_open)
      | inr (a, e) ↦ rw (many, e, window_open) (ground (arith, aged_back a w less many e))
    ]
  ]
