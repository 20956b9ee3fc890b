-- ===== src/Billing/Session.antt =====
-- relay/websocket.go: `WssHelper`, a realtime session from its hold to its end. The adaptor's
-- sequence of answers is an argument: what Redis answers at each, and the quota that
-- `calculateAudioQuota` has for it.
use veloera.Base.{
  ◌≡◌, refl, subst, sym, ap, ◌∙◌, Bool, true, false, some, List, [], ◌∷◌, ℤ, pos, ◌-ℤ◌, ltb_ℤ,
  leb_ℤ, int64, hundred,
}
use veloera.Store.Database.{Database}
use veloera.Quota.World.{
  World, Config, Result, ok, err, Action, ◌>>=◌, ◌>>◌, pure, or_log, or_wrap, fail_if,
  get_user_quota_failed, insufficient_user_quota, upstream_failed, fail,
}
use veloera.Quota.Effective.Flush.{Works}
use veloera.Billing.Info.{RelayInfo, CacheAnswers}
use veloera.Billing.Lookup.{get_user_quota}
use veloera.Billing.Text.{pre_consume_quota, held_quota, hold, return_pre_consumed_quota}
use veloera.Billing.Settle.{Charges}
use veloera.Billing.Charged.{Charged}
use veloera.Billing.Conclude.{usage-Charges}
use veloera.Billing.Price.{Numbers, AudioUsage, AudioRatios, quota_info_of, calculate_audio_quota}
use veloera.Billing.Posts.{post_wss_consume_quota}
use veloera.Billing.Realtime.{pre_wss_consume_quota}
use veloera.Billing.Turns.{get_user_quota-direct, query-some, bind-ok}

-- How the adaptor's part ends: an error, or a session that was closed, with the charges it asked
-- for, the sum of its usage, and the ratios.
pub data WssUpstream (F : Type 0) : Type 0 where
  unopened : WssUpstream F
  closed : List (CacheAnswers × ℤ) → AudioUsage → AudioRatios F → F → F → WssUpstream F

module _ ⦃d : Database⦄ (c : Config) (now : ℤ) (info : RelayInfo) (use_price : Bool) where
  -- The calls of `PreWssConsumeQuota`. An error ends the reading, and is logged.
  unfoldable pub consume_answers : List (CacheAnswers × ℤ) → Action d.State (Unit {0})
  unfolding pre_wss_consume_quota
  consume_answers [] = pure tt
  consume_answers ((cache, quota) ∷ answers) =
      or_log (pre_wss_consume_quota c now info cache use_price quota) >> consume_answers answers

  module _ {F : Type 0} (n : Numbers) (new_from_float : F → n.Num) (quota_per_unit : F) where
    -- On an error the deferred refund, and the error; or `PostWssConsumeQuota`.
    unfoldable pub conclude_wss : WssUpstream F → ℤ → Action d.State (Unit {0})
    unfolding return_pre_consumed_quota post_wss_consume_quota consume_answers
    conclude_wss unopened held = do return_pre_consumed_quota c now info held; fail upstream_failed
    conclude_wss (closed answers usage ratios model_ratio group_ratio) held =
        consume_answers answers
        >> post_wss_consume_quota c now info n new_from_float quota_per_unit ratios usage use_price
            model_ratio group_ratio

    -- `WssHelper`, for the quota that it asks `preConsumeQuota` to hold.
    unfoldable pub wss_helper : CacheAnswers → ℤ → ℤ → WssUpstream F → Action d.State (Unit {0})
    unfolding pre_consume_quota conclude_wss
    wss_helper cache token_quota quota upstream = do
      (held, user_quota) ← pre_consume_quota c now info cache token_quota quota
      conclude_wss upstream held

module _ ⦃d : Database⦄ (c : Config) (now : ℤ) (info : RelayInfo) where
  consume_answers-priced :
      (answers : List (CacheAnswers × ℤ)) (w : World d.State)
      → consume_answers c now info true answers w ≡ (ok tt, w)
  unfolding consume_answers pre_wss_consume_quota
  consume_answers-priced [] w = refl
  consume_answers-priced ((cache, quota) ∷ answers) w = consume_answers-priced answers w

  -- The part of `preConsumeQuota` that follows the read.
  abbrev trusting : CacheAnswers → ℤ → ℤ → ℤ → Action d.State (ℤ × ℤ)
  trusting cache token_quota quota user_quota = do
    fail_if (leb_ℤ user_quota (pos 0)) insufficient_user_quota
    fail_if (ltb_ℤ (int64 (user_quota -ℤ quota)) (pos 0)) insufficient_user_quota
    hold c now info cache (held_quota info token_quota user_quota quota)
    pure (held_quota info token_quota user_quota quota, user_quota)

  held_quota-trusted :
      (token_quota user_quota quota : ℤ)
      → ltb_ℤ (int64 (hundred quota)) user_quota ≡ true
      → info.token_unlimited ≡ true
      → held_quota info token_quota user_quota quota ≡ pos 0
  unfolding held_quota
  held_quota-trusted token_quota user_quota quota rich unlimited = rw (rich, unlimited) refl

  abbrev keep : Action d.State (Unit {0}) → ℤ × ℤ → Action d.State (ℤ × ℤ)
  keep m held = m >> pure held

  hold-nothing :
      (cache : CacheAnswers) (held user_quota : ℤ) (w : World d.State)
      → held ≡ pos 0
      → keep (hold c now info cache held) (held, user_quota) w ≡ (ok (pos 0, user_quota), w)
  unfolding hold
  hold-nothing cache held user_quota w e = rw e refl

  trusting-holds_nothing :
      (cache : CacheAnswers) (w : World d.State) (token_quota user_quota quota : ℤ)
      → leb_ℤ user_quota (pos 0) ≡ false
      → ltb_ℤ (int64 (user_quota -ℤ quota)) (pos 0) ≡ false
      → held_quota info token_quota user_quota quota ≡ pos 0
      → trusting cache token_quota quota user_quota w ≡ (ok (pos 0, user_quota), w)
  trusting-holds_nothing cache w token_quota user_quota quota some_left enough e =
      rw (some_left, enough)
        (hold-nothing cache (held_quota info token_quota user_quota quota) user_quota w e)

  pre_consume_quota-trusted :
      (cache : CacheAnswers) (w : World d.State) (token_quota user_quota quota : ℤ)
      → c.redis_enabled ≡ false
      → d.select_user_quota info.user_id w.db ≡ some user_quota
      → leb_ℤ user_quota (pos 0) ≡ false
      → ltb_ℤ (int64 (user_quota -ℤ quota)) (pos 0) ≡ false
      → ltb_ℤ (int64 (hundred quota)) user_quota ≡ true
      → info.token_unlimited ≡ true
      → pre_consume_quota c now info cache token_quota quota w ≡ (ok (pos 0, user_quota), w)
  unfolding pre_consume_quota held_quota hold
  pre_consume_quota-trusted cache w token_quota user_quota quota direct user some_left enough rich
        unlimited =
      let first : get_user_quota c cache info.user_id w ≡ (ok user_quota, w) =
        get_user_quota-direct c cache w direct info.user_id
        ∙ query-some (d.select_user_quota info.user_id) w user_quota user in
      let read : or_wrap (get_user_quota c cache info.user_id) get_user_quota_failed w
          ≡ (ok user_quota, w) =
        ap
          (λ (r : Result ℤ × World d.State). elim r.0 as (λ _. Result ℤ × World d.State) [
            | ok a ↦ (ok a, r.1)
            | err _ ↦ (err get_user_quota_failed, r.1)
          ])
          first in
      bind-ok (or_wrap (get_user_quota c cache info.user_id) get_user_quota_failed)
        (trusting cache token_quota quota) w user_quota read
      ∙ trusting-holds_nothing cache w token_quota user_quota quota some_left enough
          (held_quota-trusted token_quota user_quota quota rich unlimited)

-- A realtime session of a model with a fixed price is free for a trusted user: whose balance, as
-- the database has it, is more than a hundred times the quota to be held, with an unlimited token.
-- However many answers the session has, `WssHelper` succeeds and neither the user nor the token is
-- charged. There is no Redis, and the statements that write are to succeed.
pub wss_helper-is_free :
    {F : Type 0} ⦃d : Database⦄ (n : Numbers) (new_from_float : F → n.Num) (quota_per_unit : F)
    (c : Config) (now : ℤ) (info : RelayInfo) (cache : CacheAnswers) (w : World d.State)
    (token_quota user_quota quota : ℤ) (answers : List (CacheAnswers × ℤ)) (usage : AudioUsage)
    (ratios : AudioRatios F) (model_ratio group_ratio : F)
    → Works
    → c.redis_enabled ≡ false
    → d.select_user_quota info.user_id w.db ≡ some user_quota
    → leb_ℤ user_quota (pos 0) ≡ false
    → ltb_ℤ (int64 (user_quota -ℤ quota)) (pos 0) ≡ false
    → ltb_ℤ (int64 (hundred quota)) user_quota ≡ true
    → info.token_unlimited ≡ true
    → Charges info.user_id info.token_id
        (wss_helper c now info true n new_from_float quota_per_unit cache token_quota quota
          (closed answers usage ratios model_ratio group_ratio))
        w
        (pos 0)
        (pos 0)
        0
unfolding wss_helper conclude_wss post_wss_consume_quota
wss_helper-is_free ⦃d⦄ n new_from_float quota_per_unit c now info cache w token_quota user_quota
      quota answers usage ratios model_ratio group_ratio works direct user some_left enough rich
      unlimited =
    let held : pre_consume_quota c now info cache token_quota quota w
        ≡ (ok (pos 0, user_quota), w) =
      pre_consume_quota-trusted c now info cache w token_quota user_quota quota direct user
        some_left enough rich unlimited in
    let settle_wss : Action d.State (Unit {0}) =
      post_wss_consume_quota c now info n new_from_float quota_per_unit ratios usage true
        model_ratio group_ratio in
    let run : wss_helper c now info true n new_from_float quota_per_unit cache token_quota quota
          (closed answers usage ratios model_ratio group_ratio) w
        ≡ settle_wss w =
      bind-ok (pre_consume_quota c now info cache token_quota quota)
        (λ (h : ℤ × ℤ).
          conclude_wss c now info true n new_from_float quota_per_unit
            (closed answers usage ratios model_ratio group_ratio) h.0)
        w (pos 0, user_quota) held
      ∙ bind-ok (consume_answers c now info true answers) (λ _. settle_wss) w tt
          (consume_answers-priced c now info answers w) in
    subst
      (λ (r : Result (Unit {0}) × World d.State).
        (r.0 ≡ ok tt) × Charged info.user_id info.token_id w r.1 (pos 0) (pos 0) 0)
      (sym run)
      (usage-Charges works c now info w usage.total_tokens (
        calculate_audio_quota n new_from_float quota_per_unit
          (quota_info_of ratios usage true model_ratio group_ratio)))
