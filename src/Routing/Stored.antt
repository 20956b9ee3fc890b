-- ===== src/Routing/Stored.antt =====
-- model/ability.go: the choice of a channel from the tables, without the cache. The answers of the
-- queries are arguments, `none` an error; the random number is one as well.
use veloera.Base.{
  ℕ, ◌+◌, ◌-◌, ◌%◌, ◌^◌, ◌≤◌, ◌<◌, ◌≡◌, Option, none, some, List, [], ◌∷◌, ◌++◌, ◌∙◌, ap, refl,
  false, length, get_elem?, ◌==◌, if◌then◌else◌, arith, ℤ, pos, ◌-ℤ◌, leb_ℤ, int64, sub_ℕ,
}
use veloera.Routing.Rows.{Channel, Ability}
use veloera.Routing.Priority.{class_index}

-- `getPriority`, of the distinct priorities in falling order.
unfoldable pub get_priority_at : Option (List ℤ) → ℕ → Option ℤ
get_priority_at none retry = none
get_priority_at (some priorities) retry =
    get_elem? priorities (class_index retry (length priorities))

-- `getChannelQuery`: the priority that the query asks for, `none` for the greatest.
unfoldable pub get_channel_query : Option (List ℤ) → ℕ → Option ℤ
unfolding get_priority_at
get_channel_query priorities retry = if retry == 0 then none else get_priority_at priorities retry

-- The loop that sums the weights, of a 64-bit `uint`.
unfoldable pub weight_sum : List Ability → ℕ → ℕ
weight_sum [] sum = sum
weight_sum (a ∷ rest) sum = weight_sum rest ((sum + (a.weight + 10)) % 2 ^ 64)

-- The loop that looks for the ability at which the weight is used up; no channel has the id 0.
unfoldable pub pick_ability : List Ability → ℤ → ℕ
pick_ability [] weight = 0
pick_ability (a ∷ rest) weight =
    let left = int64 (weight -ℤ int64 (pos (a.weight + 10))) in
    let later = pick_ability rest left in if leb_ℤ left (pos 0) then a.channel_id else later

-- What `GetRandomSatisfiedChannel` returns.
pub data Stored : Type 0 where
  query_failed no_channel : Stored
  stored : Channel → Stored

abbrev pub stored_or_failed : Option Channel → Stored
stored_or_failed none = query_failed
stored_or_failed (some c) = stored c

unfoldable pub pick_stored : (ℕ → ℕ) → (ℕ → Option Channel) → Option (List Ability) → Stored
unfolding weight_sum pick_ability
pick_stored intn first_channel none = query_failed
pick_stored intn first_channel (some []) = no_channel
pick_stored intn first_channel (some (a ∷ rest)) =
    stored_or_failed
      (first_channel (pick_ability (a ∷ rest) (pos (intn (weight_sum (a ∷ rest) 0)))))

-- `GetRandomSatisfiedChannel`, for a sum of weights that an `int` holds.
unfoldable pub get_random_satisfied_channel :
    (ℕ → ℕ)
    → (ℕ → Option Channel)
    → (Option ℤ → Option (List Ability))
    → Option (List ℤ)
    → ℕ
    → Stored
unfolding get_channel_query pick_stored
get_random_satisfied_channel intn first_channel find priorities retry =
    pick_stored intn first_channel (find (get_channel_query priorities retry))

abbrev pub ability_shares : List Ability → ℕ
ability_shares [] = 0
ability_shares (a ∷ rest) = (a.weight + 10) + ability_shares rest

-- The random weight is past the shares of those before, if there are any.
abbrev pub PastAll : List Ability → ℕ → Type 0
PastAll [] r = 0 ≤ r
PastAll (b ∷ before) r = ability_shares (b ∷ before) < r

mod_small : (n : ℕ) → n < 2 ^ 64 → n % 2 ^ 64 ≡ n
mod_small n h = omega arith

weight_sum-shares :
    (abilities : List Ability) (n : ℕ)
    → n + ability_shares abilities < 2 ^ 63
    → weight_sum abilities n ≡ n + ability_shares abilities
unfolding weight_sum
weight_sum-shares [] n h = omega arith
weight_sum-shares (a ∷ rest) n h =
    let small : n + (a.weight + 10) < 2 ^ 64 = omega arith in
    rw (mod_small (n + (a.weight + 10)) small)
      (weight_sum-shares rest (n + (a.weight + 10)) (omega arith) ∙ omega arith)

left_after :
    (a : Ability) (r : ℕ)
    → a.weight + 10 < 2 ^ 63
    → r < 2 ^ 63
    → int64 (pos r -ℤ int64 (pos (a.weight + 10))) ≡ sub_ℕ r (a.weight + 10)
unfolding int64 ◌-ℤ◌
left_after a r small h = ground arith

PastAll-rest :
    (b : Ability) (before : List Ability) (r : ℕ)
    → PastAll (b ∷ before) r
    → PastAll before (r - (b.weight + 10))
PastAll-rest b [] r low = omega arith
PastAll-rest b (x ∷ before) r low = omega arith

pick_ability-at :
    (before : List Ability) (a : Ability) (after : List Ability) (r : ℕ)
    → ability_shares before + (a.weight + 10) < 2 ^ 63
    → PastAll before r
    → r ≤ ability_shares before + (a.weight + 10)
    → pick_ability (before ++ a ∷ after) (pos r) ≡ a.channel_id
unfolding pick_ability
pick_ability-at [] a after r small low high =
    rw (left_after a r (omega arith) (omega arith)) (ground arith)
pick_ability-at (b ∷ before) a after r small low high =
    let e : sub_ℕ r (b.weight + 10) ≡ pos (r - (b.weight + 10)) = ground arith in
    let more : leb_ℤ (pos (r - (b.weight + 10))) (pos 0) ≡ false = ground arith in
    let rest : pick_ability (before ++ a ∷ after) (pos (r - (b.weight + 10))) ≡ a.channel_id =
      pick_ability-at before a after (r - (b.weight + 10)) (omega arith)
        (PastAll-rest b before r low) (omega arith) in
    rw (left_after b r (omega arith) (omega arith) ∙ e, more) rest

ability_shares-append :
    (before : List Ability) (a : Ability) (after : List Ability)
    → ability_shares (before ++ a ∷ after)
      ≡ ability_shares before + ((a.weight + 10) + ability_shares after)
ability_shares-append [] a after = omega arith
ability_shares-append (b ∷ before) a after = omega (arith, ability_shares-append before a after)

pick_stored-some :
    (intn : ℕ → ℕ) (first_channel : ℕ → Option Channel) (abilities : List Ability)
    → 0 < ability_shares abilities
    → pick_stored intn first_channel (some abilities)
      ≡ stored_or_failed
          (first_channel (pick_ability abilities (pos (intn (weight_sum abilities 0)))))
unfolding pick_stored
pick_stored-some intn first_channel [] h = absurd (omega arith)
pick_stored-some intn first_channel (a ∷ rest) h = refl

-- The channel that `GetRandomSatisfiedChannel` draws among the abilities of its query: the one in
-- whose share the random number lies, where the shares, each a weight plus 10, lie one after the
-- other and begin at 1, so that the number 0 falls to the first ability too and the last has one
-- number less than its share. The row is the one that the table answers for the channel's id. The
-- shares' sum is to be less than 2^63.
pub get_random_satisfied_channel-at :
    (intn : ℕ → ℕ) (first_channel : ℕ → Option Channel) (find : Option ℤ → Option (List Ability))
    (priorities : Option (List ℤ)) (retry : ℕ) (before : List Ability) (a : Ability)
    (after : List Ability)
    → find (get_channel_query priorities retry) ≡ some (before ++ a ∷ after)
    → ability_shares (before ++ a ∷ after) < 2 ^ 63
    → PastAll before (intn (ability_shares (before ++ a ∷ after)))
    → intn (ability_shares (before ++ a ∷ after)) ≤ ability_shares before + (a.weight + 10)
    → get_random_satisfied_channel intn first_channel find priorities retry
      ≡ stored_or_failed (first_channel a.channel_id)
unfolding get_random_satisfied_channel
get_random_satisfied_channel-at intn first_channel find priorities retry before a after found small
      low high =
    let whole : List Ability = before ++ a ∷ after in
    let parts = ability_shares-append before a after in
    let sum : weight_sum whole 0 ≡ ability_shares whole =
      weight_sum-shares whole 0 (omega arith) ∙ omega arith in
    let picked : pick_ability whole (pos (intn (ability_shares whole))) ≡ a.channel_id =
      pick_ability-at before a after (intn (ability_shares whole)) (omega (arith, parts)) low
        high in
    ap (pick_stored intn first_channel) found
    ∙ pick_stored-some intn first_channel whole (omega (arith, parts))
    ∙ ap (λ (n : ℕ). stored_or_failed (first_channel (pick_ability whole (pos (intn n))))) sum
    ∙ ap (λ (i : ℕ). stored_or_failed (first_channel i)) picked
