-- ===== src/Routing/Pick.antt =====
-- model/cache.go: the draw among the channels of one priority, by their smoothed weights. The
-- random number is an argument.
use veloera.Base.{
  ℕ, ◌+◌, ◌≤◌, ◌<◌, ◌^◌, ◌≡◌, Option, none, some, List, [], ◌∷◌, ◌++◌, ◌-◌, ◌∙◌, arith,
  if◌then◌else◌, Bool-cases, inl, inr, ltb, ℤ, pos, ◌+ℤ◌, ◌-ℤ◌, ltb_ℤ, int64, int64_id, int_laws,
  sub_ℕ, refl, ap,
}
use veloera.Routing.Rows.{Channel, get_weight}

-- `channel.GetWeight() + smoothingFactor`
unfoldable pub smoothed : Channel → ℤ
smoothed c = int64 (get_weight c +ℤ pos 10)

-- The loop that sums the weights.
unfoldable pub total_weight : List Channel → ℤ → ℤ
unfolding smoothed
total_weight [] total = total
total_weight (c ∷ cs) total = total_weight cs (int64 (total +ℤ smoothed c))

-- The loop that looks for the channel at which the random weight is used up.
unfoldable pub pick_weighted : List Channel → ℤ → Option Channel
unfolding smoothed
pick_weighted [] random_weight = none
pick_weighted (c ∷ cs) random_weight =
    let left = int64 (random_weight -ℤ smoothed c) in
    if ltb_ℤ left (pos 0) then some c else pick_weighted cs left

-- The weight of a channel, with the smoothing factor, as a number.
abbrev pub share : Channel → ℕ
share c = elim c.weight [ none ↦ 10 | some w ↦ w + 10 ]

abbrev pub shares : List Channel → ℕ
shares [] = 0
shares (c ∷ cs) = share c + shares cs

smoothed-share : (c : Channel) → share c < 2 ^ 63 → smoothed c ≡ pos (share c)
unfolding smoothed get_weight int64 ◌+ℤ◌
smoothed-share c h = ground arith

pub total_weight-shares :
    (cs : List Channel) (n : ℕ)
    → n + shares cs < 2 ^ 63
    → total_weight cs (pos n) ≡ pos (n + shares cs)
unfolding total_weight
total_weight-shares [] n h = ground arith
total_weight-shares (c ∷ cs) n h =
    let e : pos n +ℤ smoothed c ≡ pos (n + share c) =
      rw (smoothed-share c (omega arith)) (omega int_laws) in
    rw e (
      rw (int64_id (pos (n + share c)) (omega arith))
        (total_weight-shares cs (n + share c) (omega arith) ∙ ground arith))

-- What is left of the random weight after a channel.
left_lem :
    (c : Channel) (r : ℕ)
    → share c < 2 ^ 63
    → r < 2 ^ 63
    → int64 (pos r -ℤ smoothed c) ≡ sub_ℕ r (share c)
unfolding int64 ◌-ℤ◌
left_lem c r small h = rw (smoothed-share c small) (ground arith)

-- The channel at which the random weight is used up, after those before it.
pub pick_weighted-at :
    (before : List Channel) (c : Channel) (after : List Channel) (r : ℕ)
    → shares before + share c < 2 ^ 63
    → shares before ≤ r
    → r < shares before + share c
    → pick_weighted (before ++ c ∷ after) (pos r) ≡ some c
unfolding pick_weighted
pick_weighted-at [] c after r small low high =
    rw (left_lem c r (omega arith) (omega arith)) (ground arith)
pick_weighted-at (b ∷ before) c after r small low high =
    let e : sub_ℕ r (share b) ≡ pos (r - share b) = ground arith in
    let rest : pick_weighted (before ++ c ∷ after) (pos (r - share b)) ≡ some c =
      pick_weighted-at before c after (r - share b) (omega arith) (omega arith) (omega arith) in
    rw (left_lem b r (omega arith) (omega arith) ∙ e) (ground (arith, rest))

-- Every random weight below the sum of the shares falls to a channel.
pub place_of :
    (cs : List Channel) (r : ℕ)
    → r < shares cs
    → (before : List Channel) × (c : Channel) × (after : List Channel) × (cs ≡ before ++ c ∷ after)
      × (shares before ≤ r)
      × (r < shares before + share c)
place_of [] r h = absurd (omega arith)
place_of (c ∷ cs) r h = elim (Bool-cases (ltb r (share c))) [
  | inl here ↦ ([], c, cs, refl, omega arith, ground arith)
  | inr later ↦
      let (before, d, after, e, low, high) = place_of cs (r - share c) (ground arith) in
      (c ∷ before, d, after, ap (λ l. c ∷ l) e, ground arith, ground arith)
]
