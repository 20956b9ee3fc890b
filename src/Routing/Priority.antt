-- ===== src/Routing/Priority.antt =====
-- model/cache.go: the distinct priorities of the candidates, in falling order. `range` over the map
-- of the priorities may yield them in any order; the sort that follows makes one of them all.
use veloera.Base.{
  ℕ, ◌-◌, ◌≡◌, refl, Bool, true, false, List, [], ◌∷◌, arith, inl, inr, ◌⊎◌, if◌then◌else◌,
  Bool-cases, ltb, ℤ, ◌<ℤ◌, ltb_ℤ, eqb_ℤ, In, All, All-map, subst, ap, eq_of_parts,
}
use veloera.Routing.Rows.{Channel, get_priority}

unfoldable pub occurs : ℤ → List ℤ → Bool
occurs p [] = false
occurs p (q ∷ qs) = if eqb_ℤ p q then true else occurs p qs

-- The keys of `uniquePriorities`.
unfoldable pub unique_priorities : List Channel → List ℤ
unfolding get_priority occurs
unique_priorities [] = []
unique_priorities (c ∷ cs) =
    let rest = unique_priorities cs in
    if occurs (get_priority c) rest then rest else get_priority c ∷ rest

unfoldable pub insert_falling : ℤ → List ℤ → List ℤ
insert_falling p [] = p ∷ []
insert_falling p (q ∷ qs) = if ltb_ℤ p q then q ∷ insert_falling p qs else p ∷ q ∷ qs

-- `sort.Sort(sort.Reverse(sort.IntSlice(…)))`
unfoldable pub sort_falling : List ℤ → List ℤ
unfolding insert_falling
sort_falling [] = []
sort_falling (p ∷ ps) = insert_falling p (sort_falling ps)

-- The index of the priority of a round: past the end it is the last.
abbrev pub class_index : ℕ → ℕ → ℕ
class_index retry n = if ltb retry n then retry else n - 1

-- Each is greater than those that follow it.
abbrev pub Falling : List ℤ → Type 0
Falling [] = Unit
Falling (p ∷ ps) = All (λ q. q <ℤ p) ps × Falling ps

-- The priorities of the channels, each once, from the greatest to the least.
pub record IsClasses (cs : List Channel) (ps : List ℤ) : Type 0 where
  pub falling : Falling ps
  pub covers : (c : Channel) → In c cs → In (get_priority c) ps
  pub taken : (p : ℤ) → In p ps → (c : Channel) × (In c cs) × (get_priority c ≡ p)

insert-All :
    (q p : ℤ) (ps : List ℤ)
    → p <ℤ q
    → All (λ r. r <ℤ q) ps
    → All (λ r. r <ℤ q) (insert_falling p ps)
unfolding insert_falling
insert-All q p [] h a = (h, tt)
insert-All q p (x ∷ ps) h a = ground (arith, insert-All q p ps h a.1)

All-lower : (q p : ℤ) (ps : List ℤ) → q <ℤ p → All (λ r. r <ℤ q) ps → All (λ r. r <ℤ p) ps
All-lower q p ps h a = All-map (λ r. r <ℤ q) (λ r. r <ℤ p) ps (λ r k. omega arith) a

insert-Falling :
    (p : ℤ) (ps : List ℤ)
    → ((q : ℤ) → In q ps → eqb_ℤ p q ≡ false)
    → Falling ps
    → Falling (insert_falling p ps)
unfolding insert_falling
insert-Falling p [] ne f = (tt, tt)
insert-Falling p (x ∷ ps) ne f = elim (Bool-cases (ltb_ℤ p x)) [
  | inl below ↦
      rw below (insert-All x p ps (ground arith) f.0, insert-Falling p ps (λ q h. ne q (inr h)) f.1)
  | inr above ↦
      let higher : x <ℤ p = ground (arith, ne x (inl refl)) in
      rw above ((higher, All-lower x p ps higher f.0), f)
]

-- Insertion adds the one number.
insert-In_head : (p : ℤ) (ps : List ℤ) → In p (insert_falling p ps)
unfolding insert_falling
insert-In_head p [] = inl refl
insert-In_head p (x ∷ ps) = ground (arith, insert-In_head p ps)

insert-In_tail : (p q : ℤ) (ps : List ℤ) → In q ps → In q (insert_falling p ps)
unfolding insert_falling
insert-In_tail p q [] h = elim h [ ]
insert-In_tail p q (x ∷ ps) (inl e) = ground arith
insert-In_tail p q (x ∷ ps) (inr h) = ground (arith, insert-In_tail p q ps h)

In-insert : (p q : ℤ) (ps : List ℤ) → In q (insert_falling p ps) → (p ≡ q) ⊎ In q ps
unfolding insert_falling
In-insert p q [] h = h
In-insert p q (x ∷ ps) h = elim (Bool-cases (ltb_ℤ p x)) [
  | inl below ↦ elim (rw below at h) as (λ _. (p ≡ q) ⊎ In q (x ∷ ps)) [
    | inl e ↦ inr (inl e)
    | inr k ↦ elim (In-insert p q ps k) as (λ _. (p ≡ q) ⊎ In q (x ∷ ps)) [
      | inl e ↦ inl e
      | inr l ↦ inr (inr l)
    ]
  ]
  | inr above ↦ rw above at h
]

In-sort : (q : ℤ) (ps : List ℤ) → In q (sort_falling ps) → In q ps
unfolding sort_falling
In-sort q [] h = h
In-sort q (p ∷ ps) h = elim (In-insert p q (sort_falling ps) h) [
  | inl e ↦ inl e
  | inr k ↦ inr (In-sort q ps k)
]

sort-In : (q : ℤ) (ps : List ℤ) → In q ps → In q (sort_falling ps)
unfolding sort_falling
sort-In q [] h = h
sort-In q (p ∷ ps) (inl e) =
    subst (λ (r : ℤ). In r (insert_falling p (sort_falling ps))) e
      (insert-In_head p (sort_falling ps))
sort-In q (p ∷ ps) (inr h) = insert-In_tail p q (sort_falling ps) (sort-In q ps h)

-- No number twice.
abbrev Distinct : List ℤ → Type 0
Distinct [] = Unit
Distinct (p ∷ ps) = (occurs p ps ≡ false) × Distinct ps

occurs-In : (p q : ℤ) (ps : List ℤ) → occurs p ps ≡ false → In q ps → eqb_ℤ p q ≡ false
unfolding occurs
occurs-In p q [] h k = elim k [ ]
occurs-In p q (x ∷ ps) h (inl e) = ground arith
occurs-In p q (x ∷ ps) h (inr k) = ground (arith, occurs-In p q ps)

In-occurs : (p : ℤ) (ps : List ℤ) → occurs p ps ≡ true → In p ps
unfolding occurs
In-occurs p [] h = cc
In-occurs p (x ∷ ps) h = ground (arith, In-occurs p ps, eq_of_parts p x)

sort-Falling : (ps : List ℤ) → Distinct ps → Falling (sort_falling ps)
unfolding sort_falling
sort-Falling [] d = tt
sort-Falling (p ∷ ps) d =
    insert-Falling p (sort_falling ps) (λ q h. occurs-In p q ps d.0 (In-sort q ps h))
      (sort-Falling ps d.1)

unique-Distinct : (cs : List Channel) → Distinct (unique_priorities cs)
unfolding unique_priorities
unique-Distinct [] = tt
unique-Distinct (c ∷ cs) = ground (arith, unique-Distinct cs)

unique-In : (c : Channel) (cs : List Channel) → In c cs → In (get_priority c) (unique_priorities cs)
unfolding unique_priorities
unique-In c [] h = elim h [ ]
unique-In c (d ∷ cs) (inl e) = elim (Bool-cases (occurs (get_priority d) (unique_priorities cs))) [
  | inl there ↦ rw there (
      subst (λ (x : Channel). In (get_priority x) (unique_priorities cs)) e
        (In-occurs (get_priority d) (unique_priorities cs) there))
  | inr fresh ↦ rw fresh (inl (ap get_priority e))
]
unique-In c (d ∷ cs) (inr h) = elim (Bool-cases (occurs (get_priority d) (unique_priorities cs))) [
  | inl there ↦ rw there (unique-In c cs h)
  | inr fresh ↦ rw fresh (inr (unique-In c cs h))
]

In-unique :
    (p : ℤ) (cs : List Channel)
    → In p (unique_priorities cs)
    → (c : Channel) × (In c cs) × (get_priority c ≡ p)
unfolding unique_priorities
In-unique p [] h = elim h [ ]
In-unique p (d ∷ cs) h = elim (Bool-cases (occurs (get_priority d) (unique_priorities cs))) [
  | inl there ↦ later (In-unique p cs (rw there at h))
  | inr fresh ↦
      elim (rw fresh at h) as (λ _. (c : Channel) × (In c (d ∷ cs)) × (get_priority c ≡ p)) [
        | inl e ↦ (d, inl refl, e)
        | inr k ↦ later (In-unique p cs k)
      ]
]
  where
    later :
        (c : Channel) × (In c cs) × (get_priority c ≡ p)
        → (c : Channel) × (In c (d ∷ cs)) × (get_priority c ≡ p)
    later (c, k, e) = (c, inr k, e)

pub sorted-IsClasses : (cs : List Channel) → IsClasses cs (sort_falling (unique_priorities cs))
sorted-IsClasses cs = record {
  falling = sort-Falling (unique_priorities cs) (unique-Distinct cs);
  covers = λ c h. sort-In (get_priority c) (unique_priorities cs) (unique-In c cs h);
  taken = λ p h. In-unique p cs (In-sort p (unique_priorities cs) h);
}
