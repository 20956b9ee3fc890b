-- ===== src/Routing/Ranked.antt =====
-- Which channel model/cache.go chooses: one of the priority whose turn it is, in proportion to the
-- weights.
use veloera.Base.{
  ℕ, zero, suc, ◌+◌, ◌≤◌, ◌<◌, ◌^◌, ◌≡◌, refl, Bool, true, some, List, [], ◌∷◌, ◌++◌, length,
  get_elem?, get_elem?-ne-none, filter, arith, inl, inr, Bool-cases, Option-cases, ℤ, pos, eqb_ℤ,
  eq_of_parts, In, subst, sym, ◌∙◌, ap,
}
use veloera.Routing.Rows.{Channel, get_priority}
use veloera.Routing.Pick.{
  total_weight, pick_weighted, share, shares, total_weight-shares, pick_weighted-at, place_of,
}
use veloera.Routing.Priority.{
  unique_priorities, insert_falling, sort_falling, class_index, IsClasses, sorted-IsClasses,
}
use veloera.Routing.Select.{chosen, target_channels, draw, draw_class, select_among}

length-insert : (p : ℤ) (ps : List ℤ) → length (insert_falling p ps) ≡ suc (length ps)
unfolding insert_falling
length-insert p [] = refl
length-insert p (q ∷ qs) = ground (arith, length-insert p qs)

length-sort : (ps : List ℤ) → length (sort_falling ps) ≡ length ps
unfolding sort_falling
length-sort [] = refl
length-sort (p ∷ ps) = length-insert p (sort_falling ps) ∙ ap suc (length-sort ps)

In-get_elem? : {A : Type 0} (x : A) (xs : List A) (i : ℕ) → get_elem? xs i ≡ some x → In x xs
In-get_elem? x [] i e = cc
In-get_elem? x (y ∷ ys) zero e = inl (ground arith)
In-get_elem? x (y ∷ ys) (suc i) e = inr (In-get_elem? x ys i e)

In-middle : {A : Type 0} (before : List A) (x : A) (after : List A) → In x (before ++ x ∷ after)
In-middle [] x after = inl refl
In-middle (b ∷ before) x after = inr (In-middle before x after)

pub In-filter :
    {A : Type 0} (p : A → Bool) (x : A) (xs : List A)
    → In x (filter p xs)
    → (In x xs) × (p x ≡ true)
In-filter p x [] h = elim h [ ]
In-filter p x (y ∷ ys) h = elim (Bool-cases (p y)) [
  | inl kept ↦ elim (rw kept at h) as (λ _. (In x (y ∷ ys)) × (p x ≡ true)) [
    | inl e ↦ (inl e, subst (λ z. p z ≡ true) e kept)
    | inr k ↦ let r = In-filter p x ys k in (inr r.0, r.1)
  ]
  | inr dropped ↦ let r = In-filter p x ys (rw dropped at h) in (inr r.0, r.1)
]

pub filter-In :
    {A : Type 0} (p : A → Bool) (x : A) (xs : List A) → In x xs → p x ≡ true → In x (filter p xs)
filter-In p x [] h e = elim h [ ]
filter-In p x (y ∷ ys) (inl same) e = rw (subst (λ z. p z ≡ true) (sym same) e) (inl same)
filter-In p x (y ∷ ys) (inr h) e = elim (Bool-cases (p y)) [
  | inl kept ↦ rw kept (inr (filter-In p x ys h e))
  | inr dropped ↦ rw dropped (filter-In p x ys h e)
]

shares-filter : (p : Channel → Bool) (cs : List Channel) → shares (filter p cs) ≤ shares cs
shares-filter p [] = omega arith
shares-filter p (c ∷ cs) = elim (Bool-cases (p c)) [
  | inl kept ↦ rw kept (omega (arith, shares-filter p cs))
  | inr dropped ↦ rw dropped (omega (arith, shares-filter p cs))
]

In-shares : (c : Channel) (cs : List Channel) → In c cs → 0 < shares cs
In-shares c [] h = elim h [ ]
In-shares c (d ∷ cs) h = ground arith

shares-append :
    (before : List Channel) (c : Channel) (after : List Channel)
    → shares (before ++ c ∷ after) ≡ shares before + (share c + shares after)
shares-append [] c after = omega arith
shares-append (b ∷ before) c after = omega (arith, shares-append before c after)

-- In the loop over the channels of one priority a random number below the sum of their smoothed
-- weights falls to the channel in whose share it lies: each channel's share is its weight plus 10,
-- and the shares lie one after the other in the order of the list. The sum is to be less than 2^63.
pub draw-at :
    (intn : ℕ → ℕ) (before : List Channel) (c : Channel) (after : List Channel)
    → shares (before ++ c ∷ after) < 2 ^ 63
    → shares before ≤ intn (shares (before ++ c ∷ after))
    → intn (shares (before ++ c ∷ after)) < shares before + share c
    → draw intn (before ++ c ∷ after) ≡ chosen c
unfolding draw
draw-at intn before c after fits low high =
    let cs : List Channel = before ++ c ∷ after in
    let total : total_weight cs (pos 0) ≡ pos (shares cs) =
      total_weight-shares cs 0 (omega arith) ∙ ground arith in
    let found : pick_weighted cs (pos (intn (shares cs))) ≡ some c =
      pick_weighted-at before c after (intn (shares cs))
        (omega (arith, shares-append before c after)) low high in
    rw (total, found) (ground (arith, shares-append before c after))

draw-In :
    (intn : ℕ → ℕ) (cs : List Channel)
    → ((n : ℕ) → 0 < n → intn n < n)
    → shares cs < 2 ^ 63
    → 0 < shares cs
    → (c : Channel) × (draw intn cs ≡ chosen c) × (In c cs)
draw-In intn cs law fits some_share =
    let (before, c, after, e, low, high) =
      place_of cs (intn (shares cs)) (law (shares cs) some_share) in
    (c, at before c after e low high, subst (In c) (sym e) (In-middle before c after))
  where
    at :
        (before : List Channel) (c : Channel) (after : List Channel)
        → cs ≡ before ++ c ∷ after
        → shares before ≤ intn (shares cs)
        → intn (shares cs) < shares before + share c
        → draw intn cs ≡ chosen c
    at before c after e low high =
        let s : shares cs ≡ shares (before ++ c ∷ after) = ap shares e in
        rw e (draw-at intn before c after (rw (← s) fits) (rw (← s) low) (rw (← s) high))

-- What is at the index of a round in the classes of some channels.
class_at :
    (cs : List Channel) (ps : List ℤ) (retry : ℕ) (c : Channel)
    → IsClasses cs ps
    → In c cs
    → (p : ℤ) × (get_elem? ps (class_index retry (length ps)) ≡ some p)
class_at cs [] retry c k h = elim (k.covers c h) [ ]
class_at cs (q ∷ qs) retry c k h =
    elim (Option-cases (get_elem? (q ∷ qs) (class_index retry (length (q ∷ qs)))))
      as (λ _. (p : ℤ) × (get_elem? (q ∷ qs) (class_index retry (length (q ∷ qs))) ≡ some p)) [
        | inl out ↦
            absurd
              (get_elem?-ne-none (q ∷ qs) (class_index retry (length (q ∷ qs))) (ground arith) out)
        | inr found ↦ found
      ]

-- The channel is one of those given, and its priority is the one whose turn it is: of their
-- priorities, each taken once, the one with `retry` greater ones, or the least if there are not
-- so many.
pub record IsRanked (cs : List Channel) (retry : ℕ) (c : Channel) : Type 0 where
  pub among : In c cs
  pub classes : List ℤ
  pub are_classes : IsClasses cs classes
  pub turn : get_elem? classes (class_index retry (length classes)) ≡ some (get_priority c)

draw_class-IsRanked :
    (intn : ℕ → ℕ) (cs : List Channel) (retry : ℕ) (ps : List ℤ) (p : ℤ)
    → ((n : ℕ) → 0 < n → intn n < n)
    → shares cs < 2 ^ 63
    → IsClasses cs ps
    → get_elem? ps (class_index retry (length ps)) ≡ some p
    → (c : Channel) × (draw_class intn (some p) cs ≡ chosen c) × IsRanked cs retry c
unfolding draw_class target_channels
draw_class-IsRanked intn cs retry ps p law fits k at =
    let (d, there, of_p) = k.taken p (In-get_elem? p ps (class_index retry (length ps)) at) in
    let test : Channel → Bool = λ (x : Channel). eqb_ℤ (get_priority x) p in
    let passes : test d ≡ true = rw of_p (ground arith) in
    let less : shares (filter test cs) ≤ shares cs = shares-filter test cs in
    let (c, e, h) =
      draw-In intn (filter test cs) law (omega arith)
        (In-shares d (filter test cs) (filter-In test d cs there passes)) in
    let r : (In c cs) × (test c ≡ true) = In-filter test c cs h in
    let same : get_priority c ≡ p = eq_of_parts (get_priority c) p (ground (arith, r.1)) in
    (c, e, record { among = r.0; classes = ps; are_classes = k; turn = at ∙ ap some (sym same) })

-- `CacheGetRandomSatisfiedChannel` chooses a channel if the cache lists any for the group and the
-- model: one of those listed whose priority is the one whose turn it is, the greatest for the first
-- try, the next lower for each retry, and the least from then on. `rand.Intn` is to return a number
-- below its argument, and the weights, each with 10 added, are to sum to less than 2^63.
pub select_among-IsRanked :
    (intn : ℕ → ℕ) (c : Channel) (cs : List Channel) (retry : ℕ)
    → ((n : ℕ) → 0 < n → intn n < n)
    → shares (c ∷ cs) < 2 ^ 63
    → (d : Channel) × (select_among intn (c ∷ cs) retry ≡ chosen d) × IsRanked (c ∷ cs) retry d
unfolding select_among
select_among-IsRanked intn c cs retry law fits =
    let ps : List ℤ = sort_falling (unique_priorities (c ∷ cs)) in
    let k : IsClasses (c ∷ cs) ps = sorted-IsClasses (c ∷ cs) in
    let (p, at) = class_at (c ∷ cs) ps retry c k (inl refl) in
    let (d, e, ranked) = draw_class-IsRanked intn (c ∷ cs) retry ps p law fits k at in
    (d, rw (← length-sort (unique_priorities (c ∷ cs)), at) e, ranked)
