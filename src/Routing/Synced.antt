-- ===== src/Routing/Synced.antt =====
-- What model/cache.go chooses after `InitChannelCache`, and when that function panics.
use Prim.Native.String.{String}
use text.Mathlib.Text.{◌==◌ as str_eq}
use mathlib.Core.Option
use mathlib.Core.Option.{some-injective}
use veloera.Base.{
  ℕ, ◌≡◌, refl, ap, true, Option, none, some, List, [], ◌∷◌, In, ◌⊎◌, inl, inr, ◌↔◌, ◌<◌, ◌^◌,
  Bool-cases, arith, ℤ, pos, eqb_ℤ,
}
use veloera.Base.Dict.{Dict, lookup, string_key}
use veloera.Routing.Rows.{Channel, Ability, channel_status_enabled}
use veloera.Routing.Pick.{shares}
use veloera.Routing.Select.{Selection, chosen, not_found, select_among}
use veloera.Routing.Ranked.{In-filter, filter-In, IsRanked, select_among-IsRanked}
use veloera.Routing.Listed.{Serves, add_channels-lists, listed-group_maps, and_then-inv}
use veloera.Routing.Cache.{
  Groups, ChannelCache, list_or_empty, models_or_empty, listed, group_maps, add_channels,
  sort_models, sort_groups, by_id, enabled_channels, init_channel_cache, gizmo,
  cache_get_random_satisfied_channel,
}

-- What `sort.Slice` keeps: the elements. The order among equal ones is its own.
abbrev pub KeepsElements : (List Channel → List Channel) → Type 0
KeepsElements s = (x : Channel) (cs : List Channel) → (In x (s cs)) ↔ (In x cs)

lookup-sort_models :
    (s : List Channel → List Channel) (m : String) (ms : Dict String (List Channel))
    → lookup m (sort_models s ms) ≡ Option.map s (lookup m ms)
unfolding lookup sort_models
lookup-sort_models s m [] = refl
lookup-sort_models s m ((n, cs) ∷ ms) = elim (Bool-cases (str_eq n m)) [
  | inl same ↦ rw same
  | inr other ↦ rw other (lookup-sort_models s m ms)
]

lookup-sort_groups :
    (s : List Channel → List Channel) (h : String) (g : Groups)
    → lookup h (sort_groups s g) ≡ Option.map (sort_models s) (lookup h g)
unfolding lookup sort_groups
lookup-sort_groups s h [] = refl
lookup-sort_groups s h ((i, ms) ∷ g) = elim (Bool-cases (str_eq i h)) [
  | inl same ↦ rw same
  | inr other ↦ rw other (lookup-sort_groups s h g)
]

sorted_list :
    (s : List Channel → List Channel) (x : Channel) (o : Option (List Channel))
    → KeepsElements s
    → (In x (list_or_empty (Option.map s o))) ↔ (In x (list_or_empty o))
sorted_list s x none k = (λ h. h, λ h. h)
sorted_list s x (some cs) k = k x cs

sorted_models :
    (s : List Channel → List Channel) (x : Channel) (m : String)
    (o : Option (Dict String (List Channel)))
    → KeepsElements s
    → (In x (list_or_empty (lookup m (models_or_empty (Option.map (sort_models s) o)))))
      ↔ (In x (list_or_empty (lookup m (models_or_empty o))))
sorted_models s x m none k = (λ h. h, λ h. h)
sorted_models s x m (some ms) k = rw (lookup-sort_models s m ms) (sorted_list s x (lookup m ms) k)

listed-sort_groups :
    (s : List Channel → List Channel) (x : Channel) (group model : String) (g : Groups)
    → KeepsElements s
    → (In x (listed group model (sort_groups s g))) ↔ (In x (listed group model g))
unfolding listed
listed-sort_groups s x group model g k =
    rw (lookup-sort_groups s group g) (sorted_models s x model (lookup group g) k)

-- An enabled channel that names the group and the model.
abbrev pub Offers : Channel → String → String → Type 0
Offers x group model = (x.status ≡ pos 1) × Serves x group model

pub In-enabled_channels :
    (x : Channel) (rows : List Channel)
    → (In x (enabled_channels rows)) ↔ (In x rows × (x.status ≡ pos 1))
unfolding enabled_channels
In-enabled_channels x rows = (
  λ h.
      let (there, on) = In-filter (λ c. eqb_ℤ c.status channel_status_enabled) x rows h in
      (there, enabled_lem x.status on),
  λ h.
      filter-In (λ c. eqb_ℤ c.status channel_status_enabled) x rows h.0
        (ap (λ (s : ℤ). eqb_ℤ s channel_status_enabled) h.1),
)
  where
    enabled_lem : (s : ℤ) → eqb_ℤ s (pos 1) ≡ true → s ≡ pos 1
    enabled_lem s e = ground arith

-- After `InitChannelCache` the cache lists for a group and a model exactly the channels of the
-- database that are enabled and name the group and the model in their comma-separated lists,
-- whenever it does not panic.
pub init_channel_cache-lists :
    (s : List Channel → List Channel) (rows : List Channel) (abilities : List Ability)
    {cache : ChannelCache} (group model : String) (x : Channel)
    → KeepsElements s
    → init_channel_cache s rows abilities ≡ some cache
    → (In x (listed group model cache.group2model2channels)) ↔ (In x rows × Offers x group model)
unfolding init_channel_cache
init_channel_cache-lists s rows abilities {cache} group model x k e =
    let cs : List Channel = enabled_channels rows in
    let (g, e1, e2) =
      and_then-inv (add_channels cs (group_maps abilities))
        (λ (g : Groups).
          some (record { group2model2channels = sort_groups s g; channels_id_m = by_id cs [] }))
        e in
    let r = add_channels-lists cs (group_maps abilities) group model x e1 in
    let p = listed-sort_groups s x group model g k in
    let on = In-enabled_channels x rows in
    let same : sort_groups s g ≡ cache.group2model2channels =
      ap (λ (c : ChannelCache). c.group2model2channels) (some-injective _ _ e2) in
    rw (← same) (λ h. offered (r.0 (p.0 h)), λ h. p.1 (r.1 (inr (on.1 (h.0, h.1.0), h.1.1))))
  where
    offered :
        In x (listed group model (group_maps abilities))
          ⊎ (In x (enabled_channels rows) × Serves x group model)
        → In x rows × Offers x group model
    offered (inl h) = absurd (rw (listed-group_maps abilities group model) at h)
    offered (inr h) = let (there, on) = (In-enabled_channels x rows).0 h.0 in (there, (on, h.1))

-- What the gateway is to answer: an enabled channel of the database that serves the group and the
-- model, by its priority and the number of the try, or "channel not found" if there is none.
pub data Answer (cs : List Channel) (group model : String) (retry : ℕ) : Selection → Type 0 where
  one_of :
      (d : Channel) (candidates : List Channel)
      → In d cs × Offers d group model
      → ((x : Channel) → (In x candidates) ↔ (In x cs × Offers x group model))
      → IsRanked candidates retry d
      → Answer cs group model retry (chosen d)
  nobody :
      ((x : Channel) → In x cs → Offers x group model → ⊥) → Answer cs group model retry not_found

answers :
    (intn : ℕ → ℕ) (cs candidates : List Channel) (group model : String) (retry : ℕ)
    → ((n : ℕ) → 0 < n → intn n < n)
    → shares candidates < 2 ^ 63
    → ((x : Channel) → (In x candidates) ↔ (In x cs × Offers x group model))
    → Answer cs group model retry (select_among intn candidates retry)
unfolding select_among
answers intn cs [] group model retry law fits lists = nobody (λ x h serves. (lists x).1 (h, serves))
answers intn cs (c ∷ candidates) group model retry law fits lists =
    let (d, e, ranked) = select_among-IsRanked intn c candidates retry law fits in
    rw e (one_of d (c ∷ candidates) ((lists d).0 ranked.among) lists ranked)

-- After `InitChannelCache`, and with the memory cache enabled, `CacheGetRandomSatisfiedChannel`
-- answers with an enabled channel of the database that serves the model in the group, of the
-- priority whose turn it is among all those that do, and with "channel not found" only if none does.
-- The weights of these, each with 10 added, are to sum to less than 2^63, `rand.Intn` is to answer
-- below its argument, and `sort.Slice` to keep the elements.
pub cache_get-Answer :
    (s : List Channel → List Channel) (cs : List Channel) (abilities : List Ability)
    {cache : ChannelCache} (from_database : String → String → ℕ → Selection) (intn : ℕ → ℕ)
    (group model : String) (retry : ℕ)
    → KeepsElements s
    → ((n : ℕ) → 0 < n → intn n < n)
    → shares (listed group (gizmo model) cache.group2model2channels) < 2 ^ 63
    → init_channel_cache s cs abilities ≡ some cache
    → Answer cs group
        (gizmo model)
        retry
        (cache_get_random_satisfied_channel from_database true intn group model retry cache)
unfolding cache_get_random_satisfied_channel
cache_get-Answer s cs abilities {cache} from_database intn group model retry k law fits e =
    answers intn cs (listed group (gizmo model) cache.group2model2channels) group (gizmo model)
      retry law fits (λ x. init_channel_cache-lists s cs abilities group (gizmo model) x k e)
