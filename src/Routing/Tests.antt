-- ===== src/Routing/Tests.antt =====
-- Tests of the choice of a channel, and the properties at concrete channels.
use Prim.Native.String.{String}
use veloera.Base.{
  ℕ, ◌-◌, ap, ◌∙◌, int64, ◌+ℤ◌, ◌-ℤ◌, ◌%◌, ◌≡◌, ◌≢◌, refl, sym, true, Option, none, some, List, [],
  ◌∷◌, map, length, get_elem?, ◌==◌, ==_iff, if◌then◌else◌, ℤ, pos, arith, In, inl, inr,
}
use veloera.Base.Dict.{lookup, insert, nat_key, string_key}
use veloera.Base.Text.{split_at}
use text.Mathlib.TextEquality.{eq_iff}
use mathlib.Core.Option
use mathlib.Core.Option.{some-injective}
use veloera.Routing.Rows.{Channel, Ability, get_weight}
use veloera.Routing.Select.{chosen, not_found, draw, select_among}
use veloera.Routing.Stored.{
  stored_or_failed, get_random_satisfied_channel, get_random_satisfied_channel-at,
}
use veloera.Routing.Ranked.{draw-at}
use veloera.Routing.Cache.{
  ChannelCache, init_channel_cache, cache_get_random_satisfied_channel, listed, gizmo,
}
use veloera.Routing.Synced.{Answer, cache_get-Answer}
use veloera.Routing.Panics.{init_channel_cache-panics}
use veloera.Routing.Keys.{contains, KeyState, select_key}
use veloera.Routing.Turns.{Turns, fresh, own, select_key-turns}
use veloera.Routing.Status.{
  ChannelTable, ChannelRows, ChannelWorld, at_row, set_enabled, write_status,
  update_channel_status_by_id,
}
use veloera.Routing.Changed.{Wrote, update_channel_status_by_id-Wrote}

abbrev channel_of : ℕ → ℕ → ℤ → Channel
channel_of id weight priority = record {
  id = id;
  channel_type = pos 1;
  key = "a,b,c";
  status = pos 1;
  weight = some weight;
  models = "gpt-4,gpt-4o";
  group = "default,vip";
  priority = some priority;
  tag = none;
  model_prefix = none;
}

abbrev ability_of : String → Ability
ability_of group = record {
  group = group;
  model = "gpt-4";
  channel_id = 1;
  enabled = true;
  priority = some (pos 0);
  weight = 0;
  tag = none;
}

abbrev own_channel : ℕ → Option Channel → Option Channel
own_channel id none = none
own_channel id (some c) = if c.id == id then some c else none

own_channel-found :
    (id : ℕ) (o : Option Channel) {c : Channel}
    → own_channel id o ≡ some c
    → (o ≡ some c) × (c.id ≡ id)
own_channel-found id none e = cc
own_channel-found id (some d) {c} e = ground (arith, ==_iff d.id id)

abbrev affected : Option Channel → ℕ
affected none = 0
affected (some c) = 1

abbrev channels : List Channel
channels = channel_of 1 5 (pos 0) ∷ channel_of 2 0 (pos 7) ∷ channel_of 3 90 (pos 7) ∷ []

-- The table of channels, with one that is disabled.
abbrev rows : List Channel
rows = record (channel_of 4 50 (pos 9)) { status = pos 2 } ∷ channels

-- The greatest random number.
abbrev greatest : ℕ → ℕ
greatest n = n - 1

first_try : select_among greatest channels 0 ≡ chosen (channel_of 3 90 (pos 7))
unfolding select_among int64 ◌+ℤ◌ ◌-ℤ◌ get_weight
first_try = refl

second_try : select_among greatest channels 1 ≡ chosen (channel_of 1 5 (pos 0))
unfolding select_among int64 ◌+ℤ◌ ◌-ℤ◌ get_weight
second_try = refl

draw-at_example :
    draw greatest (channel_of 2 0 (pos 7) ∷ channel_of 3 90 (pos 7) ∷ [])
    ≡ chosen (channel_of 3 90 (pos 7))
draw-at_example =
    draw-at greatest (channel_of 2 0 (pos 7) ∷ []) (channel_of 3 90 (pos 7)) [] (omega arith)
      (omega arith) (omega arith)

abbrev same_order : List Channel → List Channel
same_order cs = cs

abbrev synced : Option ChannelCache
synced = init_channel_cache same_order rows (ability_of "default" ∷ ability_of "vip" ∷ [])

abbrev cache : ChannelCache
cache = elim synced [ none ↦ record { group2model2channels = []; channels_id_m = [] } | some c ↦ c ]

is_synced : synced ≡ some cache
unfolding init_channel_cache lookup insert
is_synced = refl

cache_get-Answer_example :
    Answer rows "vip"
      (gizmo "gpt-4o")
      1
      (cache_get_random_satisfied_channel (λ g m r. not_found) true greatest "vip" "gpt-4o" 1 cache)
unfolding init_channel_cache lookup insert listed gizmo
cache_get-Answer_example =
    cache_get-Answer same_order rows (ability_of "default" ∷ ability_of "vip" ∷ [])
      (λ g m r. not_found) greatest "vip" "gpt-4o" 1 (λ x cs. (λ h. h, λ h. h)) (λ n h. omega arith)
      (omega arith) is_synced

vip_named : In "vip" (split_at "default,vip" ",")
unfolding split_at
vip_named = inr (inl refl)

no_vip : (a : Ability) → In a (ability_of "default" ∷ []) → a.group ≢ "vip"
no_vip a (inl same) e =
    let equal : ◌≡◌ {A = String} "default" "vip" = ap (λ (b : Ability). b.group) same ∙ e in
    ground (arith, eq_iff "default" "vip")
no_vip a (inr h) e = h

init_channel_cache-panics_example :
    init_channel_cache same_order channels (ability_of "default" ∷ []) ≡ none
init_channel_cache-panics_example =
    init_channel_cache-panics same_order (channel_of 1 5 (pos 0)) "vip" channels
      (ability_of "default" ∷ []) (inl refl) refl vip_named no_vip

-- Hash and trim as the identity.
abbrev same : String → String
same s = s

abbrev no_keys : KeyState
no_keys = record { channel_keys_index = []; channel_keys_hash = [] }

abbrev one_key : KeyState
one_key = record { channel_keys_index = (1, 1) ∷ []; channel_keys_hash = (1, "a,b,c") ∷ [] }

first_key : select_key same same (channel_of 1 5 (pos 0)) no_keys ≡ some ("a", one_key)
unfolding select_key lookup insert
first_key = refl

no_hash : lookup 1 no_keys.channel_keys_hash ≢ some "a,b,c"
unfolding lookup
no_hash e = cc

one_turn : Turns same same (channel_of 1 5 (pos 0)) one_key 1
one_turn = own {k = no_keys} "a" (fresh no_hash) first_key

has_comma : contains "a,b,c" "," ≡ true
unfolding contains
has_comma = refl

select_key-turns_example :
    (key : String) × (k' : KeyState) × (get_elem?
        (split_at "a,b,c" ",")
        (1 % length (split_at "a,b,c" ","))
      ≡ some key)
    × (select_key same same (channel_of 1 5 (pos 0)) one_key ≡ some (key, k'))
    × Turns same same (channel_of 1 5 (pos 0)) k' 2
select_key-turns_example =
    select_key-turns same same (channel_of 1 5 (pos 0)) one_key 1 (refl, has_comma) one_turn

-- The tables in memory.
abbrev rows_in_memory : ChannelTable
rows_in_memory = record {
  State = ChannelRows;
  view = λ s. s;
  first_channel = λ id s. own_channel id (s.channels id);
  update_status = λ id status s. some (
    affected (s.channels id),
    record s { channels = at_row id (Option.map (write_status status)) s.channels },
  );
  save_channel = λ c s. some (record s { channels = at_row c.id (λ _. some c) s.channels });
  update_ability_status =
      λ id b s. some (record s { abilities = map (set_enabled id b) s.abilities });
  first_channel-view = λ id s {c} e. own_channel-found id (s.channels id) e;
  update_status-view =
      λ id status s {n} {t} e. sym (ap (λ (p : ℕ × ChannelRows). p.1) (some-injective _ _ e));
  update_status-rows = λ id status s {n} {t} e missing.
      sym (ap (λ (p : ℕ × ChannelRows). p.0) (some-injective _ _ e)) ∙ ap affected missing;
  save_channel-view = λ c s e. sym (some-injective _ _ e);
  update_ability_status-view = λ id b s e. sym (some-injective _ _ e);
}

abbrev two_channels : ℕ → Option Channel
two_channels i = if i == 1 then some (channel_of 1 5 (pos 0)) else none

abbrev before : ChannelWorld rows_in_memory
before = record {
  cache = cache;
  table = record { channels = two_channels; abilities = ability_of "default" ∷ [] };
}

success : (update_channel_status_by_id rows_in_memory true 1 (pos 3) before).0 ≡ true
unfolding update_channel_status_by_id init_channel_cache lookup insert
success = refl

update_channel_status_by_id-Wrote_example :
    Wrote 1
      (pos 3)
      before.table
      (update_channel_status_by_id rows_in_memory true 1 (pos 3) before).1.table
update_channel_status_by_id-Wrote_example =
    update_channel_status_by_id-Wrote rows_in_memory true 1 (pos 3) before success

abbrev weighed : ℕ → ℕ → Ability
weighed id weight = record (ability_of "default") { channel_id = id; weight = weight }

abbrev one_query : Option ℤ → Option (List Ability)
one_query p = some (weighed 1 5 ∷ weighed 2 0 ∷ [])

abbrev stored_channel : ℕ → Option Channel
stored_channel id = some (channel_of id 0 (pos 0))

-- The shares are 15 and 10; 24 is the last number below their sum.
get_random_satisfied_channel-at_example :
    get_random_satisfied_channel (λ n. 24) stored_channel one_query (some (pos 0 ∷ [])) 1
    ≡ stored_or_failed (stored_channel 2)
get_random_satisfied_channel-at_example =
    get_random_satisfied_channel-at (λ n. 24) stored_channel one_query (some (pos 0 ∷ [])) 1
      (weighed 1 5 ∷ []) (weighed 2 0) [] refl (omega arith) (omega arith) (omega arith)
