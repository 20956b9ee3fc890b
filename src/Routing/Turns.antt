-- ===== src/Routing/Turns.antt =====
-- The rotation of middleware/distributor.go over any run of requests: the keys of a channel in turn.
use Prim.Native.String.{String}
use text.Mathlib.TextEquality.{eq_iff}
use mathlib.Core.Option.{some-injective}
use native.Mathlib.Nat.{mod-add-mod, mod-lt}
use veloera.Base.{
  ℕ, suc, ◌+◌, ◌%◌, ◌<◌, ◌≡◌, ◌≢◌, refl, sym, subst, ap, ◌∙◌, Bool, true, false, Option, none, some,
  List, [], ◌∷◌, length, get_elem?, get_elem?-ne-none, if◌then◌else◌, pos, eqb_ℤ, arith,
  Option-cases, Bool-cases, inl, inr, ◌⊎◌,
}
use veloera.Base.Dict.{
  lookup, insert, nat_key, lookup-insert_self, lookup-insert_ne, lookup-erase_self, lookup-erase,
}
use veloera.Base.Text.{split_at, split_at-ne-nil}
use veloera.Routing.Rows.{Channel}
use veloera.Routing.Keys.{
  KeyState, contains, reset_channel_key_index, same_hash, next_index, advance, select_key,
}

module _ (md5 trim_space : String → String) where
  -- How many keys the channel has taken since its keys were new, or reset: what happens in between
  -- to other channels, in any order.
  pub data Turns (c : Channel) : KeyState → ℕ → Type 0 where
    fresh : {k : KeyState} → lookup c.id k.channel_keys_hash ≢ some (md5 c.key) → Turns c k 0
    own :
        {k k' : KeyState} {n : ℕ} (s : String)
        → Turns c k n
        → select_key md5 trim_space c k ≡ some (s, k')
        → Turns c k' (suc n)
    other :
        {k k' : KeyState} {n : ℕ} (d : Channel) (s : String)
        → Turns c k n
        → d.id ≢ c.id
        → select_key md5 trim_space d k ≡ some (s, k')
        → Turns c k' n
    reset_own :
        {k k' : KeyState} {n : ℕ} → Turns c k n → reset_channel_key_index c.id k ≡ k' → Turns c k' 0
    reset_other :
        {k k' : KeyState} {n : ℕ} (id : ℕ)
        → Turns c k n
        → id ≢ c.id
        → reset_channel_key_index id k ≡ k'
        → Turns c k' n

  -- Where the rotation of the channel stands.
  abbrev Stands : Channel → KeyState → ℕ → Type 0
  Stands c k n =
      ((n ≡ 0) × (lookup c.id k.channel_keys_hash ≢ some (md5 c.key)))
      ⊎ ((lookup c.id k.channel_keys_hash ≡ some (md5 c.key))
          × (lookup c.id k.channel_keys_index ≡ some (n % length (split_at c.key ","))))

  stored_hash : (o : Option String) (h : String) → same_hash o h ≡ true → o ≡ some h
  stored_hash none h e = cc
  stored_hash (some g) h e = ap some ((eq_iff g h).0 e)

  hash_stored : (o : Option String) (h : String) → o ≡ some h → same_hash o h ≡ true
  hash_stored none h e = cc
  hash_stored (some g) h e = (eq_iff g h).1 (some-injective g h e)

  other_hash : (o : Option String) (h : String) → o ≢ some h → same_hash o h ≡ false
  other_hash o h ne = elim (Bool-cases (same_hash o h)) [
    | inl same ↦ absurd (ne (stored_hash o h same))
    | inr differs ↦ differs
  ]

  Stands-index :
      (c : Channel) (k : KeyState) (n : ℕ)
      → 0 < length (split_at c.key ",")
      → Stands c k n
      → next_index c.id (md5 c.key) (length (split_at c.key ",")) k
        ≡ n % length (split_at c.key ",")
  unfolding next_index
  Stands-index c k n some_key (inl (e, ne)) =
      rw (other_hash (lookup c.id k.channel_keys_hash) (md5 c.key) ne) (rw e (grind arith))
  Stands-index c k n some_key (inr (h, i)) =
      rw (hash_stored (lookup c.id k.channel_keys_hash) (md5 c.key) h, i) (grind arith)

  mod_step : (n l : ℕ) → (n % l + 1) % l ≡ suc n % l
  mod_step n l = let e : n + 1 ≡ suc n = omega arith in mod-add-mod n l 1 ∙ ap (λ (x : ℕ). x % l) e

  Stands-advance :
      (c : Channel) (k : KeyState) (n : ℕ)
      → 0 < length (split_at c.key ",")
      → Stands c k n
      → Stands c
          (advance c.id
            (md5 c.key)
            (length (split_at c.key ","))
            (n % length (split_at c.key ","))
            k)
          (suc n)
  unfolding advance
  Stands-advance c k n some_key st = inr (stored, moved)
    where
      hash_after :
          (b : Bool)
          → same_hash (lookup c.id k.channel_keys_hash) (md5 c.key) ≡ b
          → lookup c.id
              (if b then k.channel_keys_hash else insert c.id (md5 c.key) k.channel_keys_hash)
            ≡ some (md5 c.key)
      hash_after true e = stored_hash (lookup c.id k.channel_keys_hash) (md5 c.key) e
      hash_after false e = lookup-insert_self c.id (md5 c.key) k.channel_keys_hash

      stored :
          lookup c.id (
            if same_hash (lookup c.id k.channel_keys_hash) (md5 c.key)
            then k.channel_keys_hash
            else insert c.id (md5 c.key) k.channel_keys_hash)
          ≡ some (md5 c.key)
      stored = hash_after (same_hash (lookup c.id k.channel_keys_hash) (md5 c.key)) refl

      moved :
          lookup c.id (
            insert c.id
              ((n % length (split_at c.key ",") + 1) % length (split_at c.key ","))
              k.channel_keys_index)
          ≡ some (suc n % length (split_at c.key ","))
      moved =
          lookup-insert_self c.id
            ((n % length (split_at c.key ",") + 1) % length (split_at c.key ","))
            k.channel_keys_index
          ∙ ap some (mod_step n (length (split_at c.key ",")))

  -- The entries of one channel.
  abbrev SameEntries : Channel → KeyState → KeyState → Type 0
  SameEntries c k k' =
      (lookup c.id k'.channel_keys_hash ≡ lookup c.id k.channel_keys_hash)
      × (lookup c.id k'.channel_keys_index ≡ lookup c.id k.channel_keys_index)

  Stands-same :
      (c : Channel) (k k' : KeyState) (n : ℕ) → SameEntries c k k' → Stands c k n → Stands c k' n
  Stands-same c k k' n (h, i) (inl (e, ne)) = inl (e, λ x. ne (sym h ∙ x))
  Stands-same c k k' n (h, i) (inr (p, q)) = inr (h ∙ p, i ∙ q)

  advance-SameEntries :
      (c : Channel) (id : ℕ) (hash : String) (l index : ℕ) (k : KeyState)
      → id ≢ c.id
      → SameEntries c k (advance id hash l index k)
  unfolding advance
  advance-SameEntries c id hash l index k ne = (
    hashes (same_hash (lookup id k.channel_keys_hash) hash),
    lookup-insert_ne id c.id ((index + 1) % l) k.channel_keys_index ne,
  )
    where
      hashes :
          (b : Bool)
          → lookup c.id (if b then k.channel_keys_hash else insert id hash k.channel_keys_hash)
            ≡ lookup c.id k.channel_keys_hash
      hashes true = refl
      hashes false = lookup-insert_ne id c.id hash k.channel_keys_hash ne

  reset-SameEntries :
      (c : Channel) (id : ℕ) (k : KeyState)
      → id ≢ c.id
      → SameEntries c k (reset_channel_key_index id k)
  unfolding reset_channel_key_index
  reset-SameEntries c id k ne = (
    ground (arith, nat_key.beq_iff id c.id, lookup-erase id c.id k.channel_keys_hash),
    ground (arith, nat_key.beq_iff id c.id, lookup-erase id c.id k.channel_keys_index),
  )

  reset_hash :
      (id : ℕ) (k : KeyState) → lookup id (reset_channel_key_index id k).channel_keys_hash ≡ none
  unfolding reset_channel_key_index
  reset_hash id k = lookup-erase_self id k.channel_keys_hash

  -- What a selection does to the state, whichever channel it is for.
  abbrev Selected : Channel → KeyState → KeyState → Type 0
  Selected d k k' =
      (k ≡ k')
      ⊎ ((index : ℕ) × (advance d.id (md5 d.key) (length (split_at d.key ",")) index k ≡ k'))

  select_key-Selected :
      (d : Channel) (k k' : KeyState) (s : String)
      → select_key md5 trim_space d k ≡ some (s, k')
      → Selected d k k'
  unfolding select_key
  select_key-Selected d k k' s e =
      rotated (eqb_ℤ d.channel_type (pos 41)) (contains d.key ",")
        (get_elem? (split_at d.key ",")
          (next_index d.id (md5 d.key) (length (split_at d.key ",")) k))
        e
    where
      moved : KeyState
      moved =
          advance d.id (md5 d.key) (length (split_at d.key ","))
            (next_index d.id (md5 d.key) (length (split_at d.key ",")) k) k

      rotated :
          (special several : Bool) (o : Option String)
          → (if special
              then some (d.key, k)
              else if several
              then elim o as (λ _. Option (String × KeyState)) [
                | none ↦ none
                | some key ↦ some (trim_space key, moved)
              ]
              else some (d.key, k))
            ≡ some (s, k')
          → Selected d k k'
      rotated true several o e = inl (ap (λ (p : String × KeyState). p.1) (some-injective _ _ e))
      rotated false false o e = inl (ap (λ (p : String × KeyState). p.1) (some-injective _ _ e))
      rotated false true none e = cc
      rotated false true (some key) e = inr (
        next_index d.id (md5 d.key) (length (split_at d.key ",")) k,
        ap (λ (p : String × KeyState). p.1) (some-injective _ _ e),
      )

  -- A channel whose keys rotate: not of type 41, and with a comma in its key.
  abbrev pub Rotates : Channel → Type 0
  Rotates c = (eqb_ℤ c.channel_type (pos 41) ≡ false) × (contains c.key "," ≡ true)

  some_key : (c : Channel) → 0 < length (split_at c.key ",")
  some_key c = pos_length (split_at c.key ",") (split_at-ne-nil c.key ",")
    where
      pos_length : (l : List String) → l ≢ [] → 0 < length l
      pos_length [] ne = absurd (ne refl)
      pos_length (x ∷ l) ne = omega arith

  -- The key whose turn it is.
  own_turn :
      (c : Channel) (k : KeyState) (n : ℕ)
      → Rotates c
      → Stands c k n
      → (key : String) × (get_elem? (split_at c.key ",") (n % length (split_at c.key ","))
          ≡ some key)
        × (select_key md5 trim_space c k
            ≡ some (
              trim_space key,
              advance c.id
                  (md5 c.key)
                  (length (split_at c.key ","))
                  (n % length (split_at c.key ","))
                  k,
            ))
  unfolding select_key
  own_turn c k n rotates st =
      let l : ℕ = length (split_at c.key ",") in
      let index = Stands-index c k n (some_key c) st in
      elim (Option-cases (get_elem? (split_at c.key ",") (n % l))) [
        | inl out ↦
            absurd (get_elem?-ne-none (split_at c.key ",") (n % l) (mod-lt n (some_key c)) out)
        | inr (key, e) ↦ (key, e, rw (rotates.0, rotates.1) (rw (index, e) (rw index)))
      ]

  pub Turns-Stands : (c : Channel) (k : KeyState) (n : ℕ) → Rotates c → Turns c k n → Stands c k n
  Turns-Stands c k n rotates (fresh ne) = inl (refl, ne)
  Turns-Stands c k' n rotates (own {k} {n = m} s t e) =
      let st = Turns-Stands c k m rotates t in
      let (key, _, r) = own_turn c k m rotates st in
      let same = ap (λ (p : String × KeyState). p.1) (some-injective _ _ (sym r ∙ e)) in
      subst (λ (x : KeyState). Stands c x (suc m)) same (Stands-advance c k m (some_key c) st)
  Turns-Stands c k' n rotates (other {k} d s t ne e) =
      Stands-same c k k' n (same (select_key-Selected d k k' s e)) (Turns-Stands c k n rotates t)
    where
      same : Selected d k k' → SameEntries c k k'
      same (inl u) = subst (λ (x : KeyState). SameEntries c k x) u (refl, refl)
      same (inr (index, u)) =
          subst (λ (x : KeyState). SameEntries c k x) u
            (advance-SameEntries c d.id (md5 d.key) (length (split_at d.key ",")) index k ne)
  Turns-Stands c k' n rotates (reset_own {k} t e) =
      subst (λ (x : KeyState). Stands c x 0) e (inl (refl, λ h. gone h))
    where
      gone : lookup c.id (reset_channel_key_index c.id k).channel_keys_hash ≡ some (md5 c.key) → ⊥
      gone h = cc (sym (reset_hash c.id k) ∙ h)
  Turns-Stands c k' n rotates (reset_other {k} id t ne e) =
      subst (λ (x : KeyState). Stands c x n) e
        (Stands-same c k (reset_channel_key_index id k) n (reset-SameEntries c id k ne)
          (Turns-Stands c k n rotates t))

  -- The keys of a channel take turns: after `n` selections for the channel since its keys were new
  -- or reset, and whatever was selected or reset for others in between, the next one is the key
  -- number `n` modulo their number, and no index is out of range. The channel is not of type 41, and
  -- its key has a comma.
  pub select_key-turns :
      (c : Channel) (k : KeyState) (n : ℕ)
      → Rotates c
      → Turns c k n
      → (key : String) × (k' : KeyState) × (get_elem?
            (split_at c.key ",")
            (n % length (split_at c.key ","))
          ≡ some key)
        × (select_key md5 trim_space c k ≡ some (trim_space key, k'))
        × Turns c k' (suc n)
  select_key-turns c k n rotates t =
      let (key, e, r) = own_turn c k n rotates (Turns-Stands c k n rotates t) in
      let k' : KeyState =
        advance c.id (md5 c.key) (length (split_at c.key ",")) (n % length (split_at c.key ","))
          k in
      (key, k', e, r, own (trim_space key) t r)
