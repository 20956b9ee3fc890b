-- ===== src/Routing/Cache.antt =====
-- model/cache.go: the channels in memory. The rows of the two tables, in the order in which the
-- queries yield them, and the order that `sort.Slice` makes, are arguments. The lists
-- and the map share their channels by pointer: what changes in one shows wherever it is listed.
use Prim.Native.String.{String}
use text.Mathlib.Text.{starts_with}
use veloera.Base.{
  ℕ, Bool, Option, none, some, List, [], ◌∷◌, ◌++◌, map, filter, eqb_ℤ, ◌==◌, if◌then◌else◌, ℤ,
}
use veloera.Base.Dict.{Dict, lookup, insert, string_key, nat_key}
use veloera.Base.Text.{split_at}
use veloera.Routing.Rows.{Channel, Ability, channel_status_enabled}
use veloera.Routing.Select.{Selection, select_among}

-- `map[string]map[string][]*Channel`: of a group and a model.
abbrev pub Groups : Type 0
Groups = Dict String (Dict String (List Channel))

pub record ChannelCache : Type 0 where
  pub group2model2channels : Groups
  pub channels_id_m : Dict ℕ Channel

-- A nil map, and a missing key, read as empty.
abbrev pub list_or_empty : Option (List Channel) → List Channel
list_or_empty none = []
list_or_empty (some cs) = cs

abbrev pub models_or_empty : Option (Dict String (List Channel)) → Dict String (List Channel)
models_or_empty none = []
models_or_empty (some m) = m

-- `group2model2channels[group][model]`
unfoldable pub listed : String → String → Groups → List Channel
unfolding lookup
listed group model g = list_or_empty (lookup model (models_or_empty (lookup group g)))

-- The groups that have an ability start with an empty map.
unfoldable pub group_maps : List Ability → Groups
unfolding insert
group_maps [] = []
group_maps (a ∷ abilities) = insert a.group [] (group_maps abilities)

-- `append` to the list of a group and a model: to assign in a nil map is a panic.
unfoldable pub add_listed : Channel → String → String → Groups → Option Groups
unfolding lookup insert
add_listed c group model g = elim (lookup group g) [
  | none ↦ none
  | some models ↦
      some (insert group (insert model (list_or_empty (lookup model models) ++ c ∷ []) models) g)
]

abbrev pub and_then : {A B : Type 0} → Option A → (A → Option B) → Option B
and_then none f = none
and_then (some a) f = f a

unfoldable pub add_models : Channel → String → List String → Groups → Option Groups
unfolding add_listed
add_models c group [] g = some g
add_models c group (m ∷ ms) g = and_then (add_listed c group m g) (add_models c group ms)

unfoldable pub add_groups : Channel → List String → List String → Groups → Option Groups
unfolding add_models
add_groups c [] models g = some g
add_groups c (h ∷ hs) models g = and_then (add_models c h models g) (add_groups c hs models)

unfoldable pub add_channels : List Channel → Groups → Option Groups
unfolding add_groups split_at
add_channels [] g = some g
add_channels (c ∷ cs) g =
    and_then (add_groups c (split_at c.group ",") (split_at c.models ",") g) (add_channels cs)

module _ (sort_slice : List Channel → List Channel) where
  unfoldable pub sort_models : Dict String (List Channel) → Dict String (List Channel)
  sort_models [] = []
  sort_models ((m, cs) ∷ ms) = (m, sort_slice cs) ∷ sort_models ms

  unfoldable pub sort_groups : Groups → Groups
  unfolding sort_models
  sort_groups [] = []
  sort_groups ((h, ms) ∷ g) = (h, sort_models ms) ∷ sort_groups g

unfoldable pub by_id : List Channel → Dict ℕ Channel → Dict ℕ Channel
unfolding insert
by_id [] ids = ids
by_id (c ∷ cs) ids = by_id cs (insert c.id c ids)

-- `Where("status = ?", common.ChannelStatusEnabled)`
unfoldable pub enabled_channels : List Channel → List Channel
enabled_channels rows = filter (λ c. eqb_ℤ c.status channel_status_enabled) rows

-- `InitChannelCache`, of the rows of the table of channels: `none` is a run-time panic, and then the
-- old cache stays.
unfoldable pub init_channel_cache :
    (List Channel → List Channel) → List Channel → List Ability → Option ChannelCache
unfolding add_channels group_maps sort_groups by_id enabled_channels
init_channel_cache sort_slice rows abilities =
    and_then (add_channels (enabled_channels rows) (group_maps abilities)) λ g. some (record {
      group2model2channels = sort_groups sort_slice g;
      channels_id_m = by_id (enabled_channels rows) [];
    })

-- The two families of model names that share one entry each.
unfoldable pub gizmo : String → String
gizmo model =
    let m : String = if starts_with model "gpt-4-gizmo" then "gpt-4-gizmo-*" else model in
    if starts_with m "gpt-4o-gizmo" then "gpt-4o-gizmo-*" else m

-- `CacheGetRandomSatisfiedChannel`; `from_database` is `GetRandomSatisfiedChannel`.
unfoldable pub cache_get_random_satisfied_channel :
    (String → String → ℕ → Selection)
    → Bool
    → (ℕ → ℕ)
    → String
    → String
    → ℕ
    → ChannelCache
    → Selection
unfolding gizmo listed select_among
cache_get_random_satisfied_channel from_database memory_cache_enabled intn group model retry cache =
    if memory_cache_enabled
    then select_among intn (listed group (gizmo model) cache.group2model2channels) retry
    else from_database group (gizmo model) retry

unfoldable pub set_status : ℕ → ℤ → Channel → Channel
set_status id status c = if c.id == id then record c { status = status } else c

unfoldable pub set_listed : ℕ → ℤ → Dict String (List Channel) → Dict String (List Channel)
unfolding set_status
set_listed id status [] = []
set_listed id status ((m, cs) ∷ ms) = (m, map (set_status id status) cs) ∷ set_listed id status ms

unfoldable pub set_groups : ℕ → ℤ → Groups → Groups
unfolding set_listed
set_groups id status [] = []
set_groups id status ((h, ms) ∷ g) = (h, set_listed id status ms) ∷ set_groups id status g

-- `CacheUpdateChannelStatus`, under the lock.
unfoldable pub cache_update_channel_status : Bool → ℕ → ℤ → ChannelCache → ChannelCache
unfolding lookup insert set_groups set_status
cache_update_channel_status memory_cache_enabled id status cache =
    elim (lookup id cache.channels_id_m) [
      | none ↦ cache
      | some c ↦
          if memory_cache_enabled
          then record cache {
            group2model2channels = set_groups id status cache.group2model2channels;
            channels_id_m = insert id (record c { status = status }) cache.channels_id_m;
          }
          else cache
    ]
