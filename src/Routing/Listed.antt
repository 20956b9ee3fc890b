-- ===== src/Routing/Listed.antt =====
-- What `InitChannelCache` of model/cache.go lists for a group and a model.
use Prim.Native.String.{String}
use text.Mathlib.TextEquality.{eq_iff}
use text.Mathlib.Text.{◌==◌ as str_eq}
use veloera.Base.{
  ◌≡◌, refl, sym, Bool, true, false, Option, none, some, List, [], ◌∷◌, ◌++◌, if◌then◌else◌, In,
  ◌⊎◌, inl, inr, arith, ◌↔◌, Option-cases, subst, ◌&&◌, Bool-cases,
}
use veloera.Base.Dict.{Dict, lookup, insert, string_key, lookup-insert}
use veloera.Base.Text.{split_at}
use mathlib.Core.Option.{some-injective}
use veloera.Routing.Rows.{Channel, Ability}
use veloera.Routing.Cache.{
  Groups, list_or_empty, listed, group_maps, add_listed, add_models, add_groups, add_channels,
  and_then,
}

In-append : {A : Type 0} (x : A) (xs ys : List A) → (In x (xs ++ ys)) ↔ (In x xs ⊎ In x ys)
In-append x [] ys = (λ h. inr h, λ h. elim h [ inl e ↦ absurd e | inr k ↦ k ])
In-append x (y ∷ xs) ys = let r = In-append x xs ys in grind (arith, r)

-- Whether a step for one group and one model touches the list of another.
abbrev same_place : String → String → String → String → Bool
same_place h m group model = str_eq h group && str_eq m model

abbrev inserted : Channel → String → String → Groups → Dict String (List Channel) → Groups
inserted c h m g models = insert h (insert m (list_or_empty (lookup m models) ++ c ∷ []) models) g

inserted_lem :
    (c : Channel) (h m : String) (g : Groups) (models : Dict String (List Channel))
    (group model : String)
    → lookup h g ≡ some models
    → listed group model (inserted c h m g models) ≡ (
        if same_place h m group model then listed group model g ++ c ∷ [] else listed group model g)
unfolding listed
inserted_lem c h m g models group model e =
    let v : List Channel = list_or_empty (lookup m models) ++ c ∷ [] in
    elim (Bool-cases (str_eq h group)) [
      | inl same ↦
          let eh : h ≡ group = (eq_iff h group).0 same in
          elim (Bool-cases (str_eq m model)) [
            | inl alike ↦
                let em : m ≡ model = (eq_iff m model).0 alike in
                rw
                  (
                    lookup-insert h group (insert m v models) g,
                    same,
                    lookup-insert m model v models,
                    alike,
                  )
                  (rw (← eh, e, ← em))
            | inr other ↦
                rw
                  (
                    lookup-insert h group (insert m v models) g,
                    same,
                    lookup-insert m model v models,
                    other,
                  )
                  (rw (← eh, e))
          ]
      | inr far ↦ rw (lookup-insert h group (insert m v models) g, far)
    ]

add_listed_lem :
    (c : Channel) (h m : String) (g : Groups) {g' : Groups} (group model : String)
    → add_listed c h m g ≡ some g'
    → listed group model g' ≡ (
        if same_place h m group model then listed group model g ++ c ∷ [] else listed group model g)
unfolding add_listed
add_listed_lem c h m g {g'} group model e = elim (Option-cases (lookup h g)) [
  | inl missing ↦ cc (rw (missing, add_listed) at e)
  | inr (models, found) ↦
      let same : inserted c h m g models ≡ g' = some-injective _ _ (rw (found, add_listed) at e) in
      rw (← same) (inserted_lem c h m g models group model found)
]

-- Listed before, or the channel `c`, in one of the groups and one of the models.
abbrev Gained : Channel → List String → List String → Groups → String → String → Channel → Type 0
Gained c hs ms g group model x = In x (listed group model g) ⊎ ((c ≡ x) × In group hs × In model ms)

add_listed-Gained :
    (c : Channel) (h m : String) (g : Groups) {g' : Groups} (group model : String) (x : Channel)
    → add_listed c h m g ≡ some g'
    → (In x (listed group model g')) ↔ (Gained c (h ∷ []) (m ∷ []) g group model x)
add_listed-Gained c h m g {g'} group model x e =
    rw (add_listed_lem c h m g group model e) (split (Bool-cases (same_place h m group model)))
  where
    split :
        (same_place h m group model ≡ true) ⊎ (same_place h m group model ≡ false)
        → (In x (
            if same_place h m group model
            then listed group model g ++ c ∷ []
            else listed group model g))
          ↔ (Gained c (h ∷ []) (m ∷ []) g group model x)
    split (inl here) =
        let eh : h ≡ group = ground (arith, eq_iff h group) in
        let em : m ≡ model = ground (arith, eq_iff m model) in
        let r : (In x (listed group model g ++ c ∷ []))
            ↔ (In x (listed group model g) ⊎ In x (c ∷ [])) =
          In-append x (listed group model g) (c ∷ []) in
        rw here (
          λ k. elim (r.0 k) as (λ _. Gained c (h ∷ []) (m ∷ []) g group model x) [
            | inl before ↦ inl before
            | inr now ↦ elim now as (λ _. Gained c (h ∷ []) (m ∷ []) g group model x) [
              | inl same ↦ inr (same, inl eh, inl em)
              | inr never ↦ absurd never
            ]
          ],
          λ k. r.1 (elim k as (λ _. In x (listed group model g) ⊎ In x (c ∷ [])) [
            | inl before ↦ inl before
            | inr now ↦ inr (inl now.0)
          ]),
        )
    split (inr away) = rw away (
      λ k. inl k,
      λ k. elim k as (λ _. In x (listed group model g)) [
        | inl before ↦ before
        | inr (same, inl eh, inl em) ↦ absurd (ground (arith, eq_iff h group, eq_iff m model))
        | inr (same, inl eh, inr k) ↦ absurd k
        | inr (same, inr k, l) ↦ absurd k
      ],
    )

pub and_then-inv :
    {A B : Type 0} (o : Option A) (f : A → Option B) {b : B}
    → and_then o f ≡ some b
    → (a : A) × (o ≡ some a) × (f a ≡ some b)
and_then-inv none f e = cc
and_then-inv (some a) f e = (a, refl, e)

-- What two steps add is what either adds.
gained_trans :
    {P0 P1 P2 Q1 Q2 Q : Type 0}
    → P1 ↔ (P0 ⊎ Q1)
    → P2 ↔ (P1 ⊎ Q2)
    → (Q1 → Q)
    → (Q2 → Q)
    → (Q → Q1 ⊎ Q2)
    → P2 ↔ (P0 ⊎ Q)
gained_trans {P0} {P1} {P2} {Q1} {Q2} {Q} one two left right back =
    (λ k. forward (two.0 k), λ k. two.1 (backward k))
  where
    first : P0 ⊎ Q1 → P0 ⊎ Q
    first (inl p) = inl p
    first (inr q) = inr (left q)

    forward : P1 ⊎ Q2 → P0 ⊎ Q
    forward (inl p) = first (one.0 p)
    forward (inr q) = inr (right q)

    last : Q1 ⊎ Q2 → P1 ⊎ Q2
    last (inl q) = inl (one.1 (inr q))
    last (inr q) = inr q

    backward : P0 ⊎ Q → P1 ⊎ Q2
    backward (inl p) = inl (one.1 (inl p))
    backward (inr q) = last (back q)

gained-nothing : {P Q : Type 0} → (Q → ⊥) → P ↔ (P ⊎ Q)
gained-nothing {P} {Q} never = (λ p. inl p, only)
  where
    only : P ⊎ Q → P
    only (inl p) = p
    only (inr q) = absurd (never q)

In-cons : {A : Type 0} (x y : A) (ys : List A) → In x (y ∷ []) → In x (y ∷ ys)
In-cons x y ys (inl e) = inl e
In-cons x y ys (inr k) = absurd k

cons-In : {A : Type 0} (x y : A) (ys : List A) → In x (y ∷ ys) → In x (y ∷ []) ⊎ In x ys
cons-In x y ys (inl e) = inl (inl e)
cons-In x y ys (inr k) = inr k

add_models-Gained :
    (c : Channel) (h : String) (ms : List String) (g : Groups) {g' : Groups} (group model : String)
    (x : Channel)
    → add_models c h ms g ≡ some g'
    → (In x (listed group model g')) ↔ (Gained c (h ∷ []) ms g group model x)
unfolding add_models
add_models-Gained c h [] g {g'} group model x e =
    rw (← some-injective g g' e) (gained-nothing (λ k. k.2))
add_models-Gained c h (m ∷ ms) g {g'} group model x e =
    let (g1, e1, e2) = and_then-inv (add_listed c h m g) (add_models c h ms) e in
    gained_trans (add_listed-Gained c h m g group model x e1)
      (add_models-Gained c h ms g1 group model x e2) (λ q. (q.0, q.1, In-cons model m ms q.2))
      (λ q. (q.0, q.1, inr q.2))
      (λ q.
        elim (cons-In model m ms q.2)
          as (λ _.
            ((c ≡ x) × In group (h ∷ []) × In model (m ∷ []))
            ⊎ ((c ≡ x) × In group (h ∷ []) × In model ms)) [
              | inl k ↦ inl (q.0, q.1, k)
              | inr k ↦ inr (q.0, q.1, k)
            ])

add_groups-Gained :
    (c : Channel) (hs ms : List String) (g : Groups) {g' : Groups} (group model : String)
    (x : Channel)
    → add_groups c hs ms g ≡ some g'
    → (In x (listed group model g')) ↔ (Gained c hs ms g group model x)
unfolding add_groups
add_groups-Gained c [] ms g {g'} group model x e =
    rw (← some-injective g g' e) (gained-nothing (λ k. k.1))
add_groups-Gained c (h ∷ hs) ms g {g'} group model x e =
    let (g1, e1, e2) = and_then-inv (add_models c h ms g) (add_groups c hs ms) e in
    gained_trans (add_models-Gained c h ms g group model x e1)
      (add_groups-Gained c hs ms g1 group model x e2) (λ q. (q.0, In-cons group h hs q.1, q.2))
      (λ q. (q.0, inr q.1, q.2))
      (λ q.
        elim (cons-In group h hs q.1)
          as (λ _.
            ((c ≡ x) × In group (h ∷ []) × In model ms) ⊎ ((c ≡ x) × In group hs × In model ms)) [
              | inl k ↦ inl (q.0, k, q.2)
              | inr k ↦ inr (q.0, k, q.2)
            ])

-- A channel serves the models of its list in the groups of its list.
abbrev pub Serves : Channel → String → String → Type 0
Serves c group model = In group (split_at c.group ",") × In model (split_at c.models ",")

pub add_channels-lists :
    (cs : List Channel) (g : Groups) {g' : Groups} (group model : String) (x : Channel)
    → add_channels cs g ≡ some g'
    → (In x (listed group model g'))
      ↔ (In x (listed group model g) ⊎ (In x cs × Serves x group model))
unfolding add_channels
add_channels-lists [] g {g'} group model x e =
    rw (← some-injective g g' e) (gained-nothing (λ k. k.0))
add_channels-lists (c ∷ cs) g {g'} group model x e =
    let (g1, e1, e2) =
      and_then-inv (add_groups c (split_at c.group ",") (split_at c.models ",") g) (add_channels cs)
        e in
    gained_trans
      (add_groups-Gained c (split_at c.group ",") (split_at c.models ",") g group model x e1)
      (add_channels-lists cs g1 group model x e2) (λ q. (inl q.0, served q)) (λ q. (inr q.0, q.1))
      (λ q.
        elim q.0
          as (λ _.
            ((c ≡ x) × In group (split_at c.group ",") × In model (split_at c.models ","))
            ⊎ (In x cs × Serves x group model)) [
              | inl k ↦
                  let s : Serves c group model =
                    subst (λ (y : Channel). Serves y group model) (sym k) q.1 in
                  inl (k, s.0, s.1)
              | inr k ↦ inr (k, q.1)
            ])
  where
    served :
        (c ≡ x) × In group (split_at c.group ",") × In model (split_at c.models ",")
        → Serves x group model
    served (same, in_group, in_models) =
        subst (λ (y : Channel). Serves y group model) same (in_group, in_models)

pub listed-group_maps :
    (abilities : List Ability) (group model : String)
    → listed group model (group_maps abilities) ≡ []
unfolding listed group_maps lookup
listed-group_maps [] group model = refl
listed-group_maps (a ∷ abilities) group model =
    rw (lookup-insert a.group group [] (group_maps abilities))
      (elim (Bool-cases (str_eq a.group group)) [
        | inl same ↦ rw same
        | inr other ↦ rw other (listed-group_maps abilities group model)
      ])
