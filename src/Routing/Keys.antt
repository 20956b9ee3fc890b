-- ===== src/Routing/Keys.antt =====
-- middleware/distributor.go: the rotation among the keys of a channel in
-- `SetupContextForSelectedChannel`, and `ResetChannelKeyIndex`. The MD5 hash and `TrimSpace` are
-- parameters.
use Prim.Native.Char.{Char, code}
use Prim.Native.String.{String}
use text.Mathlib.Text.{◌==◌ as str_eq}
use veloera.Base.{
  ℕ, ◌+◌, ◌%◌, Bool, true, false, Option, none, some, length, get_elem?, ◌==◌, ltb, if◌then◌else◌,
  pos, eqb_ℤ,
}
use veloera.Base.Dict.{Dict, lookup, insert, erase, nat_key}
use veloera.Base.Text.{split_at}
use veloera.Routing.Rows.{Channel}

-- `channelKeysIndex` and `channelKeysHash`, under their mutex.
pub record KeyState : Type 0 where
  pub channel_keys_index : Dict ℕ ℕ
  pub channel_keys_hash : Dict ℕ String

-- `strings.Contains` of one character.
unfoldable pub contains : String → Char → Bool
contains String.[] sep = false
contains (String.◌∷◌ c s) sep = if code c == code sep then true else contains s sep

-- `ResetChannelKeyIndex`
unfoldable pub reset_channel_key_index : ℕ → KeyState → KeyState
unfolding erase
reset_channel_key_index id k = record {
  channel_keys_index = erase id k.channel_keys_index;
  channel_keys_hash = erase id k.channel_keys_hash;
}

abbrev pub same_hash : Option String → String → Bool
same_hash none h = false
same_hash (some stored) h = str_eq stored h

abbrev pub index_below : ℕ → Option ℕ → ℕ
index_below n none = 0
index_below n (some i) = if ltb i n then i else 0

-- The index at which the next key is taken.
unfoldable pub next_index : ℕ → String → ℕ → KeyState → ℕ
unfolding lookup
next_index id hash n k =
    if same_hash (lookup id k.channel_keys_hash) hash
    then index_below n (lookup id k.channel_keys_index)
    else 0

-- The hash is stored if it is another, and the index moves on.
unfoldable pub advance : ℕ → String → ℕ → ℕ → KeyState → KeyState
unfolding lookup insert
advance id hash n index k = record {
  channel_keys_index = insert id ((index + 1) % n) k.channel_keys_index;
  channel_keys_hash =
      if same_hash (lookup id k.channel_keys_hash) hash
      then k.channel_keys_hash
      else insert id hash k.channel_keys_hash;
}

module _ (md5 trim_space : String → String) where
  -- The key that goes into the request's header; `none` is an index out of range.
  unfoldable pub select_key : Channel → KeyState → Option (String × KeyState)
  unfolding next_index advance split_at contains
  select_key c k =
      let keys = split_at c.key "," in
      let index = next_index c.id (md5 c.key) (length keys) k in
      if eqb_ℤ c.channel_type (pos 41)
      then some (c.key, k)
      else if contains c.key ","
      then elim (get_elem? keys index) as (λ _. Option (String × KeyState)) [
        | none ↦ none
        | some key ↦ some (trim_space key, advance c.id (md5 c.key) (length keys) index k)
      ]
      else some (c.key, k)
