-- ===== src/Routing/Panics.antt =====
-- When `InitChannelCache` of model/cache.go panics: a channel that names a group for which the
-- table of abilities has no row.
use Prim.Native.String.{String}
use text.Mathlib.Text.{◌==◌ as str_eq}
use text.Mathlib.TextEquality.{eq_iff}
use mathlib.Core.Option.{some-injective}
use veloera.Base.{
  pos, ◌≡◌, ◌≢◌, refl, sym, subst, ap, ◌∙◌, false, none, some, List, [], ◌∷◌, ◌++◌, In, inl, inr,
  arith, Option-cases, Bool-cases,
}
use veloera.Base.Dict.{Dict, lookup, insert, string_key, lookup-insert}
use veloera.Base.Text.{split_at, split_at-ne-nil}
use veloera.Routing.Rows.{Channel, Ability}
use veloera.Routing.Listed.{and_then-inv}
use veloera.Routing.Synced.{In-enabled_channels}
use veloera.Routing.Cache.{
  Groups, list_or_empty, group_maps, add_listed, add_models, add_groups, add_channels,
  init_channel_cache, enabled_channels,
}

-- A step adds no group.
abbrev Inherits : Groups → Groups → Type 0
Inherits g g' = (i : String) → lookup i g ≡ none → lookup i g' ≡ none

add_listed-none :
    (c : Channel) (h m : String) (g : Groups) → lookup h g ≡ none → add_listed c h m g ≡ none
unfolding add_listed
add_listed-none c h m g e = rw (e, add_listed)

add_listed-Inherits :
    (c : Channel) (h m : String) (g : Groups) {g' : Groups}
    → add_listed c h m g ≡ some g'
    → Inherits g g'
unfolding add_listed
add_listed-Inherits c h m g {g'} e i missing = elim (Option-cases (lookup h g)) [
  | inl out ↦ cc (rw (out, add_listed) at e)
  | inr (models, found) ↦
      let v : Dict String (List Channel) =
        insert m (list_or_empty (lookup m models) ++ c ∷ []) models in
      let same : insert h v g ≡ g' = some-injective _ _ (rw (found, add_listed) at e) in
      rw (← same) (
        rw (lookup-insert h i v g) (elim (Bool-cases (str_eq h i)) [
          | inl here ↦
              let eh : h ≡ i = (eq_iff h i).0 here in
              cc (sym found ∙ ap (λ (j : String). lookup j g) eh ∙ missing)
          | inr other ↦ rw other missing
        ]))
]

add_models-Inherits :
    (c : Channel) (h : String) (ms : List String) (g : Groups) {g' : Groups}
    → add_models c h ms g ≡ some g'
    → Inherits g g'
unfolding add_models
add_models-Inherits c h [] g {g'} e i missing =
    subst (λ (x : Groups). lookup i x ≡ none) (some-injective g g' e) missing
add_models-Inherits c h (m ∷ ms) g {g'} e i missing =
    let (g1, e1, e2) = and_then-inv (add_listed c h m g) (add_models c h ms) e in
    add_models-Inherits c h ms g1 e2 i (add_listed-Inherits c h m g e1 i missing)

add_groups-Inherits :
    (c : Channel) (hs ms : List String) (g : Groups) {g' : Groups}
    → add_groups c hs ms g ≡ some g'
    → Inherits g g'
unfolding add_groups
add_groups-Inherits c [] ms g {g'} e i missing =
    subst (λ (x : Groups). lookup i x ≡ none) (some-injective g g' e) missing
add_groups-Inherits c (h ∷ hs) ms g {g'} e i missing =
    let (g1, e1, e2) = and_then-inv (add_models c h ms g) (add_groups c hs ms) e in
    add_groups-Inherits c hs ms g1 e2 i (add_models-Inherits c h ms g e1 i missing)

add_groups-none :
    (c : Channel) (h : String) (hs ms : List String) (g : Groups)
    → In h hs
    → ms ≢ []
    → lookup h g ≡ none
    → add_groups c hs ms g ≡ none
unfolding add_groups add_models
add_groups-none c h [] ms g here some_model missing = elim here [ ]
add_groups-none c h (i ∷ hs) [] g here some_model missing = absurd (some_model refl)
add_groups-none c h (i ∷ hs) (m ∷ ms) g (inl e) some_model missing =
    rw (add_listed-none c i m g (ap (λ (j : String). lookup j g) e ∙ missing))
add_groups-none c h (i ∷ hs) (m ∷ ms) g (inr k) some_model missing =
    elim (Option-cases (add_models c i (m ∷ ms) g)) [
      | inl fails ↦ rw fails
      | inr (g1, e) ↦ rw e (
          add_groups-none c h hs (m ∷ ms) g1 k some_model
            (add_models-Inherits c i (m ∷ ms) g e h missing))
    ]

add_channels-none :
    (x : Channel) (h : String) (cs : List Channel) (g : Groups)
    → In x cs
    → In h (split_at x.group ",")
    → lookup h g ≡ none
    → add_channels cs g ≡ none
unfolding add_channels
add_channels-none x h [] g here named missing = elim here [ ]
add_channels-none x h (c ∷ cs) g (inl e) named missing = rw (
    add_groups-none c h (split_at c.group ",") (split_at c.models ",") g
      (subst (λ (y : Channel). In h (split_at y.group ",")) (sym e) named)
      (split_at-ne-nil c.models ",") missing)
add_channels-none x h (c ∷ cs) g (inr k) named missing =
    elim (Option-cases (add_groups c (split_at c.group ",") (split_at c.models ",") g)) [
      | inl fails ↦ rw fails
      | inr (g1, e) ↦ rw e (
          add_channels-none x h cs g1 k named
            (add_groups-Inherits c (split_at c.group ",") (split_at c.models ",") g e h missing))
    ]

group_maps-none :
    (h : String) (abilities : List Ability)
    → ((a : Ability) → In a abilities → a.group ≢ h)
    → lookup h (group_maps abilities) ≡ none
unfolding lookup group_maps
group_maps-none h [] no_row = refl
group_maps-none h (a ∷ abilities) no_row =
    let other : str_eq a.group h ≡ false = ground (arith, eq_iff a.group h, no_row a (inl refl)) in
    rw (lookup-insert a.group h [] (group_maps abilities), other)
      (group_maps-none h abilities (λ b k. no_row b (inr k)))

-- `InitChannelCache` panics, whatever else the tables hold, if an enabled channel names a group in
-- its comma-separated list for which no ability has a row: it assigns in a nil map.
pub init_channel_cache-panics :
    (s : List Channel → List Channel) (x : Channel) (h : String) (cs : List Channel)
    (abilities : List Ability)
    → In x cs
    → x.status ≡ pos 1
    → In h (split_at x.group ",")
    → ((a : Ability) → In a abilities → a.group ≢ h)
    → init_channel_cache s cs abilities ≡ none
unfolding init_channel_cache
init_channel_cache-panics s x h cs abilities here on named no_row = rw (
    add_channels-none x h (enabled_channels cs) (group_maps abilities)
      ((In-enabled_channels x cs).1 (here, on)) named (group_maps-none h abilities no_row))
