-- ===== src/Billing/Turns.antt =====
-- `PreWssConsumeQuota` of service/quota.go: what an answer of a realtime session charges, and the
-- keys for which it finds no token.
use Prim.Native.Char.{Char}
use Prim.Native.String.{String}
use mathlib.Core.Logic.{◌≢◌}
use Prim.Native.String.{count}
use text.Mathlib.TextLemmas.{length-cons}
use veloera.Base.{
  ℕ, ◌+◌, ◌∙◌, ◌≤◌, ◌<◌, ◌^◌, ◌≡◌, refl, sym, subst, ap, Bool, true, false, not, ◌&&◌,
  if◌then◌else◌, Option, some, none, ℤ, pos, ltb_ℤ, arith,
}
use veloera.Store.Rows.{Token}
use veloera.Store.Database.{Database}
use veloera.Quota.World.{World, Config, Error, Result, ok, err, Action, ◌>>=◌, db_error, query}
use veloera.Quota.Effective.Flush.{Works}
use veloera.Billing.Info.{RelayInfo, CacheAnswers}
use veloera.Billing.Consume.{post_consume_quota}
use veloera.Billing.Lookup.{get_user_quota, get_token_by_key}
use veloera.Billing.Charged.{IsCalm, Charged, size}
use veloera.Billing.Settle.{Charges, token_share, post_consume_quota-Charges}
use veloera.Billing.Realtime.{is_sk, trim_left, charge, pre_wss_consume_quota}

count-if :
    (b : Bool) (x y : String) (n : ℕ) → count x ≤ n → count y ≤ n → count (if b then x else y) ≤ n
count-if true x y n h k = h
count-if false x y n h k = k

count-trim_left : (s : String) → count (trim_left s) ≤ count s
unfolding trim_left
count-trim_left String.[] = omega arith
count-trim_left (String.◌∷◌ c s) =
    let shorter : count (trim_left s) ≤ count s = count-trim_left s in
    count-if (is_sk c) (trim_left s) (String.◌∷◌ c s) (count (String.◌∷◌ c s))
      (omega (arith, length-cons c s)) (omega arith)

if-true : (b : Bool) (x y : String) → b ≡ true → (if b then x else y) ≡ x
if-true b x y e = rw e refl

-- A key that starts with one of the characters is trimmed to another.
trim_left-ne :
    (c : Char) (s : String) → is_sk c ≡ true → trim_left (String.◌∷◌ c s) ≢ String.◌∷◌ c s
unfolding trim_left
trim_left-ne c s sk same =
    let shorter : count (trim_left s) ≤ count s = count-trim_left s in
    let trimmed : trim_left (String.◌∷◌ c s) ≡ trim_left s =
      if-true (is_sk c) (trim_left s) (String.◌∷◌ c s) sk in
    let longer : count (trim_left s) ≡ count (String.◌∷◌ c s) = ap count (sym trimmed ∙ same) in
    omega (arith, length-cons c s)

-- Two reads that find a row, and what follows.
pub bind-ok :
    {S A B : Type 0} (m : Action S A) (f : A → Action S B) (w : World S) (a : A)
    → m w ≡ (ok a, w)
    → (m >>= f) w ≡ f a w
bind-ok {S} {A} {B} m f w a e =
    ap
      (λ (r : Result A × World S). elim r.0 as (λ _. Result B × World S) [
        | ok x ↦ f x r.1
        | err er ↦ (err er, r.1)
      ])
      e

bind-err :
    {S A B : Type 0} (m : Action S A) (f : A → Action S B) (w : World S) (er : Error)
    → m w ≡ (err er, w)
    → (m >>= f) w ≡ (err er, w)
bind-err {S} {A} {B} m f w er e =
    ap
      (λ (r : Result A × World S). elim r.0 as (λ _. Result B × World S) [
        | ok x ↦ f x r.1
        | err er ↦ (err er, r.1)
      ])
      e

module _ {S A : Type 0} (f : S → Option A) (w : World S) where
  pub query-some : (a : A) → f w.db ≡ some a → query f w ≡ (ok a, w)
  query-some a e = rw (query, e) refl

  query-none : f w.db ≡ none → query f w ≡ (err db_error, w)
  query-none e = rw (query, e) refl

module _ ⦃d : Database⦄ (c : Config) (cache : CacheAnswers) (w : World d.State)
    (direct : c.redis_enabled ≡ false) where
  pub get_user_quota-direct :
      (id : ℕ) → get_user_quota c cache id w ≡ query (d.select_user_quota id) w
  unfolding get_user_quota
  get_user_quota-direct id = rw direct refl

  get_token_by_key-direct :
      (key : String) → get_token_by_key c cache key w ≡ query (d.first_token key) w
  unfolding get_token_by_key
  get_token_by_key-direct key = rw direct refl

module _ ⦃d : Database⦄ (c : Config) (now : ℤ) (info : RelayInfo) where
  charge-enough :
      (w : World d.State) (user_quota quota : ℤ) (token : Token)
      → ltb_ℤ user_quota quota ≡ false
      → (not token.unlimited_quota && ltb_ℤ token.remain_quota quota) ≡ false
      → charge c now info user_quota quota token w
        ≡ post_consume_quota c now info quota (pos 0) false w
  unfolding charge
  charge-enough w user_quota quota token enough left = rw (enough, left) refl

-- An answer of a realtime session, priced by the tokens, is charged exactly: if the user and a token
-- of the trimmed key are found in the database, hold the quota, or the token is unlimited, then
-- `PreWssConsumeQuota` succeeds, the user pays the quota, and so does the request's own token unless
-- it is the playground's. There is no Redis, the statements that write are to succeed, and what is
-- pending, with the quota twice, is less than 2^63.
pub pre_wss_consume_quota-Charges :
    ⦃d : Database⦄ (c : Config) (now : ℤ) (info : RelayInfo) (cache : CacheAnswers)
    (w : World d.State) (user_quota quota : ℤ) (token : Token) (k : ℕ)
    → Works
    → c.redis_enabled ≡ false
    → d.select_user_quota info.user_id w.db ≡ some user_quota
    → d.first_token (trim_left info.token_key) w.db ≡ some token
    → ltb_ℤ user_quota quota ≡ false
    → (not token.unlimited_quota && ltb_ℤ token.remain_quota quota) ≡ false
    → IsCalm info.user_id info.token_id w k
    → k + size quota + size quota < 2 ^ 63
    → Charges info.user_id info.token_id
        (pre_wss_consume_quota c now info cache false quota)
        w
        quota
        (token_share info quota)
        (size quota + (size quota + 0))
unfolding pre_wss_consume_quota
pre_wss_consume_quota-Charges ⦃d⦄ c now info cache w user_quota quota token k works direct user row
      enough left calm small =
    let first : get_user_quota c cache info.user_id w ≡ (ok user_quota, w) =
      get_user_quota-direct c cache w direct info.user_id
      ∙ query-some (d.select_user_quota info.user_id) w user_quota user in
    let second : get_token_by_key c cache (trim_left info.token_key) w ≡ (ok token, w) =
      get_token_by_key-direct c cache w direct (trim_left info.token_key)
      ∙ query-some (d.first_token (trim_left info.token_key)) w token row in
    let rest : ℤ → Action d.State (Unit {0}) = λ found.
      get_token_by_key c cache (trim_left info.token_key) >>= λ t.
      charge c now info found quota t in
    let run : pre_wss_consume_quota c now info cache false quota w
        ≡ post_consume_quota c now info quota (pos 0) false w =
      bind-ok (get_user_quota c cache info.user_id) rest w user_quota first
      ∙ bind-ok (get_token_by_key c cache (trim_left info.token_key))
          (charge c now info user_quota quota) w token second
      ∙ charge-enough c now info w user_quota quota token enough left in
    subst
      (λ (r : Result (Unit {0}) × World d.State).
        (r.0 ≡ ok tt)
        × Charged info.user_id info.token_id w r.1 quota (token_share info quota)
            (size quota + (size quota + 0)))
      (sym run) (post_consume_quota-Charges works c now info w k quota (pos 0) false calm small)

-- An answer of a session that is priced by its tokens, not at a fixed price, whose key starts with
-- one of the characters s, k and -: the key that `PreWssConsumeQuota` looks up is another, and if no
-- row has that one, then the call fails and the world is as it was, whatever row the request's own
-- key has. There is no Redis.
pub pre_wss_consume_quota-misses :
    ⦃d : Database⦄ (c : Config) (now : ℤ) (info : RelayInfo) (cache : CacheAnswers)
    (w : World d.State) (quota : ℤ) (first : Char) (rest : String)
    → is_sk first ≡ true
    → info.token_key ≡ String.◌∷◌ first rest
    → c.redis_enabled ≡ false
    → d.first_token (trim_left info.token_key) w.db ≡ none
    → (trim_left info.token_key ≢ info.token_key)
      × (pre_wss_consume_quota c now info cache false quota w ≡ (err db_error, w))
unfolding pre_wss_consume_quota
pre_wss_consume_quota-misses ⦃d⦄ c now info cache w quota first rest sk starts direct missing =
    (rw starts (trim_left-ne first rest sk), at (d.select_user_quota info.user_id w.db) refl)
  where
    second : get_token_by_key c cache (trim_left info.token_key) w ≡ (err db_error, w)
    second =
        get_token_by_key-direct c cache w direct (trim_left info.token_key)
        ∙ query-none (d.first_token (trim_left info.token_key)) w missing

    rest_of : ℤ → Action d.State (Unit {0})
    rest_of found =
        get_token_by_key c cache (trim_left info.token_key) >>= λ t. charge c now info found quota t

    first_is :
        (r : Result ℤ × World d.State)
        → query (d.select_user_quota info.user_id) w ≡ r
        → get_user_quota c cache info.user_id w ≡ r
    first_is r e = get_user_quota-direct c cache w direct info.user_id ∙ e

    at :
        (o : Option ℤ)
        → d.select_user_quota info.user_id w.db ≡ o
        → (get_user_quota c cache info.user_id >>= rest_of) w ≡ (err db_error, w)
    at none e =
        bind-err (get_user_quota c cache info.user_id) rest_of w db_error
          (first_is (err db_error, w) (query-none (d.select_user_quota info.user_id) w e))
    at (some q) e =
        bind-ok (get_user_quota c cache info.user_id) rest_of w q
          (first_is (ok q, w) (query-some (d.select_user_quota info.user_id) w q e))
        ∙ bind-err (get_token_by_key c cache (trim_left info.token_key)) (charge c now info q quota)
            w db_error second
