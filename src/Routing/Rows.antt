-- ===== src/Routing/Rows.antt =====
-- model/channel.go: the fields of `Channel` that the choice of a channel reads, and their defaults.
-- A nil pointer is `none`. model/ability.go: the rows of the abilities.
use veloera.Base.{ℕ, String, Bool, Option, none, some, ℤ, pos, int64}

pub record Channel : Type 0 where
  pub id : ℕ
  pub channel_type : ℤ
  pub key : String
  pub status : ℤ
  pub weight : Option ℕ
  pub models : String
  pub group : String
  pub priority : Option ℤ
  pub tag : Option String
  pub model_prefix : Option String

pub record Ability : Type 0 where
  pub group : String
  pub model : String
  pub channel_id : ℕ
  pub enabled : Bool
  pub priority : Option ℤ
  pub weight : ℕ
  pub tag : Option String

-- `common.ChannelStatusEnabled`
abbrev pub channel_status_enabled : ℤ
channel_status_enabled = pos 1

abbrev pub priority_or_zero : Option ℤ → ℤ
priority_or_zero none = pos 0
priority_or_zero (some p) = p

-- `GetPriority`
unfoldable pub get_priority : Channel → ℤ
get_priority c = priority_or_zero c.priority

-- `int(*channel.Weight)`
abbrev pub weight_or_zero : Option ℕ → ℤ
weight_or_zero none = pos 0
weight_or_zero (some w) = int64 (pos w)

-- `GetWeight`
unfoldable pub get_weight : Channel → ℤ
get_weight c = weight_or_zero c.weight
