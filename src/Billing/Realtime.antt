-- ===== src/Billing/Realtime.antt =====
-- service/quota.go: `PreWssConsumeQuota`, the charge of one answer of a realtime session.
use Prim.Native.Char.{Char, code}
use Prim.Native.String.{String}
use veloera.Base.{◌≡◌, refl, Bool, false, not, ◌&&◌, ◌||◌, ◌==◌, if◌then◌else◌, ℤ, pos, ltb_ℤ}
use veloera.Store.Rows.{Token}
use veloera.Store.Database.{Database}
use veloera.Quota.World.{
  Config, Action, ◌>>=◌, ◌>>◌, pure, fail_if, insufficient_user_quota, token_quota_not_enough,
}
use veloera.Billing.Info.{RelayInfo, CacheAnswers}
use veloera.Billing.Lookup.{get_user_quota, get_token_by_key}
use veloera.Billing.Consume.{post_consume_quota}

-- The characters of the set `"sk-"`.
abbrev pub is_sk : Char → Bool
is_sk c = code c == code "s" || (code c == code "k" || code c == code "-")

-- `strings.TrimLeft(key, "sk-")`
unfoldable pub trim_left : String → String
trim_left String.[] = String.[]
trim_left (String.◌∷◌ c s) = let rest = trim_left s in if is_sk c then rest else String.◌∷◌ c s

module _ ⦃d : Database⦄ (c : Config) (now : ℤ) (info : RelayInfo) where
  -- The checks of what was read, and the charge.
  unfoldable pub charge : ℤ → ℤ → Token → Action d.State (Unit {0})
  unfolding post_consume_quota
  charge user_quota quota token = do
    fail_if (ltb_ℤ user_quota quota) insufficient_user_quota
    fail_if (not token.unlimited_quota && ltb_ℤ token.remain_quota quota) token_quota_not_enough
    post_consume_quota c now info quota (pos 0) false

  -- `PreWssConsumeQuota`, for the quota that `calculateAudioQuota` has computed.
  unfoldable pub pre_wss_consume_quota : CacheAnswers → Bool → ℤ → Action d.State (Unit {0})
  unfolding trim_left get_user_quota get_token_by_key charge
  pre_wss_consume_quota cache use_price quota = if use_price then pure tt else (do
    user_quota ← get_user_quota c cache info.user_id
    token ← get_token_by_key c cache (trim_left info.token_key)
    charge user_quota quota token)

skipped : trim_left "sk-ks9s" ≡ "9s"
unfolding trim_left
skipped = refl
