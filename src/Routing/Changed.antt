-- ===== src/Routing/Changed.antt =====
-- What `UpdateChannelStatusById` of model/channel.go has written when it reports success.
use veloera.Base.{
  ℕ, ◌≡◌, ◌≢◌, refl, sym, subst, ap, ◌∙◌, Bool, true, ◌&&◌, Option, none, some, map, ℤ, eqb_ℤ,
  arith, Option-cases, Bool-cases, inl, inr,
}
use veloera.Base.Dict.{lookup, nat_key}
use mathlib.Core.Option
use veloera.Routing.Rows.{Channel, channel_status_enabled}
use veloera.Routing.Cache.{cache_update_channel_status}
use veloera.Routing.Status.{
  ChannelTable, ChannelRows, ChannelWorld, set_enabled, write_status, at_row, with_table, skips,
  written, saved, update_row, update_abilities, update_channel_status_by_id,
}

-- The one channel has the status, its abilities are enabled exactly if the status is, and no other
-- row has changed.
abbrev pub Wrote : ℕ → ℤ → ChannelRows → ChannelRows → Type 0
Wrote id status a b =
    ((c : Channel) × (b.channels id ≡ some c) × (c.status ≡ status))
    × ((j : ℕ) → j ≢ id → b.channels j ≡ a.channels j)
    × (b.abilities ≡ map (set_enabled id (eqb_ℤ status channel_status_enabled)) a.abilities)

-- The rows after both statements.
abbrev rows_after : ℕ → ℤ → (Option Channel → Option Channel) → ChannelRows → ChannelRows
rows_after id status f a = record {
  channels = at_row id f a.channels;
  abilities = map (set_enabled id (eqb_ℤ status channel_status_enabled)) a.abilities;
}

rows_after-Wrote :
    (id : ℕ) (status : ℤ) (f : Option Channel → Option Channel) (a : ChannelRows) (c : Channel)
    → f (a.channels id) ≡ some c
    → c.status ≡ status
    → Wrote id status a (rows_after id status f a)
rows_after-Wrote id status f a c e s = ((c, ground arith, s), λ j ne. ground arith, refl)

module _ (T : ChannelTable) where
  after_both :
      (id : ℕ) (status : ℤ) (f : Option Channel → Option Channel) (c : Channel) (s s1 t : T.State)
      → T.update_ability_status id (eqb_ℤ status channel_status_enabled) s ≡ some s1
      → T.view t ≡ record (T.view s1) { channels = at_row id f (T.view s1).channels }
      → f ((T.view s1).channels id) ≡ some c
      → c.status ≡ status
      → Wrote id status (T.view s) (T.view t)
  after_both id status f c s s1 t e1 v2 found same =
      let v1 = T.update_ability_status-view id (eqb_ℤ status channel_status_enabled) s e1 in
      let both : T.view t ≡ rows_after id status f (T.view s) =
        v2 ∙ ap (λ (r : ChannelRows). record r { channels = at_row id f r.channels }) v1 in
      subst (Wrote id status (T.view s)) (sym both) (
        rows_after-Wrote id status f (T.view s) c
          (ap (λ (r : ChannelRows). f (r.channels id)) (sym v1) ∙ found) same)

  -- The row is read and saved, or written without a read.
  update_row-Wrote :
      (id : ℕ) (status : ℤ) (w : ChannelWorld T) (s1 : T.State) (o : Option Channel)
      → T.update_ability_status id (eqb_ℤ status channel_status_enabled) w.table ≡ some s1
      → T.first_channel id s1 ≡ o
      → (update_row T id status (with_table T w s1) o).0 ≡ true
      → Wrote id status
          (T.view w.table)
          (T.view (update_row T id status (with_table T w s1) o).1.table)
  unfolding update_row
  update_row-Wrote id status w s1 none e1 read done =
      direct (T.update_status id status s1) refl done
    where
      direct :
          (o : Option (ℕ × T.State))
          → T.update_status id status s1 ≡ o
          → (written T (with_table T w s1) o).0 ≡ true
          → Wrote id status (T.view w.table) (T.view (written T (with_table T w s1) o).1.table)
      direct none e done = cc
      direct (some (n, t)) e done = elim (Option-cases ((T.view s1).channels id)) [
        | inl missing ↦ absurd (ground (arith, T.update_status-rows id status s1 e missing))
        | inr (c, there) ↦
            after_both id status (Option.map (write_status status)) (write_status status c) w.table
              s1 t e1 (T.update_status-view id status s1 e)
              (ap (Option.map (write_status status)) there) refl
      ]
  update_row-Wrote id status w s1 (some c) e1 read done =
      elim (Bool-cases (eqb_ℤ c.status status)) [
        | inl already ↦ cc (rw already at done)
        | inr differs ↦
            rw differs (save (T.save_channel (write_status status c) s1) refl (rw differs at done))
      ]
    where
      save :
          (o : Option T.State)
          → T.save_channel (write_status status c) s1 ≡ o
          → (saved T (with_table T w s1) o).0 ≡ true
          → Wrote id status (T.view w.table) (T.view (saved T (with_table T w s1) o).1.table)
      save none e done = cc
      save (some t) e done =
          let own : c.id ≡ id = (T.first_channel-view id s1 read).1 in
          after_both id status (λ (o : Option Channel). some (write_status status c))
            (write_status status c) w.table s1 t e1
            (T.save_channel-view (write_status status c) s1 e
              ∙ ap
                  (λ (i : ℕ). record (T.view s1) {
                    channels =
                        at_row i (λ (o : Option Channel). some (write_status status c))
                          (T.view s1).channels;
                  })
                  own)
            refl refl

  -- When `UpdateChannelStatusById` reports success, as it does to notify the root user, the row of
  -- the channel has the status, its abilities are enabled exactly if the status is that of an
  -- enabled channel, and no other row has changed.
  pub update_channel_status_by_id-Wrote :
      (memory_cache_enabled : Bool) (id : ℕ) (status : ℤ) (w : ChannelWorld T)
      → (update_channel_status_by_id T memory_cache_enabled id status w).0 ≡ true
      → Wrote id status
          (T.view w.table)
          (T.view (update_channel_status_by_id T memory_cache_enabled id status w).1.table)
  unfolding update_channel_status_by_id
  update_channel_status_by_id-Wrote memory_cache_enabled id status w done =
      elim (Bool-cases (memory_cache_enabled && skips T (lookup id w.cache.channels_id_m) status)) [
        | inl early ↦ cc (rw early at done)
        | inr late ↦ rw late (
            abilities (T.update_ability_status id (eqb_ℤ status channel_status_enabled) w.table)
              refl (rw late at done))
      ]
    where
      w' : ChannelWorld T
      w' = record w { cache = cache_update_channel_status memory_cache_enabled id status w.cache }

      abilities :
          (o : Option T.State)
          → T.update_ability_status id (eqb_ℤ status channel_status_enabled) w.table ≡ o
          → (update_abilities T id status w' o).0 ≡ true
          → Wrote id status (T.view w.table) (T.view (update_abilities T id status w' o).1.table)
      abilities none e done = cc
      abilities (some s1) e done =
          update_row-Wrote id status w' s1 (T.first_channel id s1) e refl done
