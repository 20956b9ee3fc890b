-- ===== src/Routing/Status.antt =====
-- model/channel.go: `UpdateChannelStatusById`, over the cache of model/cache.go and the tables of
-- the channels and the abilities; service/channel.go: `DisableChannel` and `EnableChannel`. The
-- statements are a parameter: `none` is one that failed, or a row that was not found. The reason
-- that is written into `OtherInfo` is not a field of the model.
use veloera.Base.{
  ℕ, ◌≡◌, Bool, true, false, not, ◌&&◌, Option, none, some, List, map, ◌==◌, if◌then◌else◌, ℤ, pos,
  eqb_ℤ,
}
use veloera.Base.Dict.{lookup, nat_key}
use mathlib.Core.Option
use veloera.Routing.Rows.{Channel, Ability, channel_status_enabled}
use veloera.Routing.Cache.{ChannelCache, cache_update_channel_status}

pub record ChannelRows : Type 0 where
  pub channels : ℕ → Option Channel
  pub abilities : List Ability

abbrev pub set_enabled : ℕ → Bool → Ability → Ability
set_enabled id b a = if a.channel_id == id then record a { enabled = b } else a

abbrev pub write_status : ℤ → Channel → Channel
write_status status c = record c { status = status }

-- One row is written, the others stay.
abbrev pub at_row :
    ℕ → (Option Channel → Option Channel) → (ℕ → Option Channel) → ℕ → Option Channel
at_row id f rows j = if id == j then f (rows j) else rows j

pub record ChannelTable : Type 1 where
  pub State : Type 0
  pub view : State → ChannelRows
  pub first_channel : ℕ → State → Option Channel
  -- With the number of rows affected.
  pub update_status : ℕ → ℤ → State → Option (ℕ × State)
  pub save_channel : Channel → State → Option State
  pub update_ability_status : ℕ → Bool → State → Option State
  pub first_channel-view :
      (id : ℕ) (s : State) {c : Channel}
      → first_channel id s ≡ some c
      → ((view s).channels id ≡ some c) × (c.id ≡ id)
  pub update_status-view :
      (id : ℕ) (status : ℤ) (s : State) {n : ℕ} {t : State}
      → update_status id status s ≡ some (n, t)
      → view t ≡ record (view s) {
        channels = at_row id (Option.map (write_status status)) (view s).channels;
      }
  pub update_status-rows :
      (id : ℕ) (status : ℤ) (s : State) {n : ℕ} {t : State}
      → update_status id status s ≡ some (n, t)
      → (view s).channels id ≡ none
      → n ≡ 0
  pub save_channel-view :
      (c : Channel) (s : State) {t : State}
      → save_channel c s ≡ some t
      → view t ≡ record (view s) { channels = at_row c.id (λ _. some c) (view s).channels }
  pub update_ability_status-view :
      (id : ℕ) (b : Bool) (s : State) {t : State}
      → update_ability_status id b s ≡ some t
      → view t ≡ record (view s) { abilities = map (set_enabled id b) (view s).abilities }

module _ (T : ChannelTable) where
  pub record ChannelWorld : Type 0 where
    pub cache : ChannelCache
    pub table : T.State

  -- The early returns on the cached channel.
  unfoldable pub skips : Option Channel → ℤ → Bool
  skips none status = not (eqb_ℤ status channel_status_enabled)
  skips (some c) status = eqb_ℤ c.status status

  abbrev pub with_table : ChannelWorld → T.State → ChannelWorld
  with_table w t = record w { table = t }

  unfoldable pub written : ChannelWorld → Option (ℕ × T.State) → Bool × ChannelWorld
  written w none = (false, w)
  written w (some (n, t)) = (not (n == 0), with_table w t)

  unfoldable pub saved : ChannelWorld → Option T.State → Bool × ChannelWorld
  saved w none = (false, w)
  saved w (some t) = (true, with_table w t)

  -- From `GetChannelById` on.
  unfoldable pub update_row : ℕ → ℤ → ChannelWorld → Option Channel → Bool × ChannelWorld
  unfolding written saved
  update_row id status w none = written w (T.update_status id status w.table)
  update_row id status w (some c) =
      if eqb_ℤ c.status status
      then (false, w)
      else saved w (T.save_channel (write_status status c) w.table)

  -- From `UpdateAbilityStatus` on.
  unfoldable pub update_abilities : ℕ → ℤ → ChannelWorld → Option T.State → Bool × ChannelWorld
  unfolding update_row
  update_abilities id status w none = (false, w)
  update_abilities id status w (some t) =
      update_row id status (with_table w t) (T.first_channel id t)

  -- `UpdateChannelStatusById`, under the lock.
  unfoldable pub update_channel_status_by_id : Bool → ℕ → ℤ → ChannelWorld → Bool × ChannelWorld
  unfolding skips update_abilities lookup cache_update_channel_status
  update_channel_status_by_id memory_cache_enabled id status w =
      let w' = record w {
        cache = cache_update_channel_status memory_cache_enabled id status w.cache;
      } in
      if memory_cache_enabled && skips (lookup id w.cache.channels_id_m) status
      then (false, w)
      else update_abilities id status w'
          (T.update_ability_status id (eqb_ℤ status channel_status_enabled) w.table)

  -- The notification that `NotifyRootUser` is called with: the channel and its new status.
  pub record Notice : Type 0 where
    pub channel_id : ℕ
    pub status : ℤ

  unfoldable pub notice_of : ℕ → ℤ → Bool × ChannelWorld → Option Notice × ChannelWorld
  notice_of id status (success, w) =
      (if success then some (record { channel_id = id; status = status }) else none, w)

  -- `DisableChannel`, to `common.ChannelStatusAutoDisabled`
  unfoldable pub disable_channel : Bool → ℕ → ChannelWorld → Option Notice × ChannelWorld
  unfolding update_channel_status_by_id notice_of
  disable_channel memory_cache_enabled id w =
      notice_of id (pos 3) (update_channel_status_by_id memory_cache_enabled id (pos 3) w)

  -- `EnableChannel`
  unfoldable pub enable_channel : Bool → ℕ → ChannelWorld → Option Notice × ChannelWorld
  unfolding update_channel_status_by_id notice_of
  enable_channel memory_cache_enabled id w =
      notice_of id channel_status_enabled
        (update_channel_status_by_id memory_cache_enabled id channel_status_enabled w)
