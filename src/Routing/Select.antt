-- ===== src/Routing/Select.antt =====
-- model/cache.go: the choice of `CacheGetRandomSatisfiedChannel` among the channels that the cache
-- lists for a group and a model. `rand.Intn` is a parameter.
use veloera.Base.{
  ℕ, Option, none, some, List, [], ◌∷◌, length, get_elem?, filter, if◌then◌else◌, ℤ, pos, pos_part,
  ltb_ℤ, eqb_ℤ,
}
use veloera.Routing.Rows.{Channel, get_priority}
use veloera.Routing.Pick.{total_weight, pick_weighted}
use veloera.Routing.Priority.{unique_priorities, sort_falling, class_index}

-- A channel, the error "channel not found", or a run-time panic.
pub data Selection : Type 0 where
  chosen : Channel → Selection
  not_found panicked : Selection

abbrev pub selection_of : Option Channel → Selection
selection_of none = not_found
selection_of (some c) = chosen c

-- `targetChannels`
unfoldable pub target_channels : ℤ → List Channel → List Channel
unfolding get_priority
target_channels p cs = filter (λ c. eqb_ℤ (get_priority c) p) cs

module _ (intn : ℕ → ℕ) where
  -- `rand.Intn` panics on a number that is not positive.
  unfoldable pub draw : List Channel → Selection
  unfolding total_weight pick_weighted
  draw cs =
      let total = total_weight cs (pos 0) in
      if ltb_ℤ (pos 0) total
      then selection_of (pick_weighted cs (pos (intn (pos_part total))))
      else panicked

  -- The channels of the priority at an index: Go panics on an index out of range.
  unfoldable pub draw_class : Option ℤ → List Channel → Selection
  unfolding draw target_channels
  draw_class none cs = panicked
  draw_class (some p) cs = draw (target_channels p cs)

  unfoldable pub select_among : List Channel → ℕ → Selection
  unfolding draw_class sort_falling unique_priorities
  select_among [] retry = not_found
  select_among (c ∷ cs) retry =
      let ps = sort_falling (unique_priorities (c ∷ cs)) in
      draw_class (get_elem? ps (class_index retry (length (unique_priorities (c ∷ cs))))) (c ∷ cs)
