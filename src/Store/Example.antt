-- ===== src/Store/Example.antt =====
-- A database that keeps its tables in memory and never fails: the interface of Database can be met.
use veloera.Base.{
  ℕ, zero, suc, String, ◌≡◌, sym, ◌∙◌, false, Option, none, some, ◌==◌, if◌then◌else◌, ◌&&◌, pos,
  arith, Option-cases, inl, inr, subst, ==_iff,
}
use veloera.Base.Dict.{string_key}
use mathlib.Core.Option.{some-injective}
use text.Mathlib.Text.{◌==◌ as str_eq}
use text.Mathlib.TextEquality.{eq_iff}
use veloera.Store.Rows.{User, Token, Redemption}
use veloera.Store.Database.{Database, Tables, adjust, save_key, count_one, quota_or_zero}

-- A row that is filed under its own id and key.
abbrev own_token : String → ℕ → Option Token → Option Token
own_token k i none = none
own_token k i (some t) = if str_eq t.key k && t.id == i then some t else none

abbrev own_redemption : String → Option Redemption → Option Redemption
own_redemption k none = none
own_redemption k (some r) = if str_eq r.key k then some r else none

-- The first token with a key among the ids below a bound.
abbrev find_token : ℕ → String → (ℕ → Option Token) → Option Token
find_token zero k rows = none
find_token (suc i) k rows = elim (own_token k i (rows i)) [
  | some t ↦ some t
  | none ↦ find_token i k rows
]

own_token-found :
    (k : String) (i : ℕ) (o : Option Token) {t : Token}
    → own_token k i o ≡ some t
    → (o ≡ some t) × (t.id ≡ i) × (t.key ≡ k)
own_token-found k i none e = ground arith
own_token-found k i (some t) e = ground (arith, eq_iff t.key k, ==_iff t.id i)

pub own_redemption-found :
    (k : String) (o : Option Redemption) {r : Redemption}
    → own_redemption k o ≡ some r
    → (o ≡ some r) × (r.key ≡ k)
own_redemption-found k none e = ground arith
own_redemption-found k (some r) e = ground (arith, eq_iff r.key k)

pub find_token-found :
    (n : ℕ) (k : String) (rows : ℕ → Option Token) {t : Token}
    → find_token n k rows ≡ some t
    → (rows t.id ≡ some t) × (t.key ≡ k)
find_token-found zero k rows e = ground arith
find_token-found (suc i) k rows {t} e = elim (Option-cases (own_token k i (rows i))) [
  | inl missing ↦ find_token-found i k rows (sym (rw (missing, find_token)) ∙ e)
  | inr (u, found) ↦
      let same : u ≡ t = some-injective u t (sym (rw (found, find_token)) ∙ e) in
      let (a, b, c) = own_token-found k i (rows i) found in
      subst (λ (v : Token). (rows v.id ≡ some v) × (v.key ≡ k)) same
        (subst (λ (j : ℕ). rows j ≡ some u) (sym b) a, c)
]

instance abbrev pub in_memory : Database
in_memory = record {
  State = Tables;
  view = λ s. s;
  first_user = λ i s. s.users i;
  select_user_quota = λ i s. some (quota_or_zero (s.users i));
  first_token = λ k s. find_token 100 k s.tokens;
  first_redemption = λ k s. own_redemption k (s.redemptions k);
  count_redemption_logs = λ i u s. some (s.redemption_logs i u);
  update_user = λ i f s. some (record s { users = adjust i f s.users });
  update_token = λ i f s. some (record s { tokens = adjust i f s.tokens });
  update_channel = λ i f s. some (record s { channels = adjust i f s.channels });
  save_redemption = λ r s. some (record s { redemptions = save_key r.key r s.redemptions });
  create_redemption_log =
      λ i u s. some (record s { redemption_logs = count_one i u s.redemption_logs });
  commit = some;
  first_user-view = λ i s e. e;
  select_user_quota-view = λ i s e. sym (some-injective _ _ e);
  first_token-view = λ k s e. find_token-found 100 k s.tokens e;
  first_redemption-view = λ k s e. own_redemption-found k (s.redemptions k) e;
  count_redemption_logs-view = λ i u s e. some-injective _ _ e;
  update_user-view = λ i f s e. sym (some-injective _ _ e);
  update_token-view = λ i f s e. sym (some-injective _ _ e);
  update_channel-view = λ i f s e. sym (some-injective _ _ e);
  save_redemption-view = λ r s e. sym (some-injective _ _ e);
  create_redemption_log-view = λ i u s e. sym (some-injective _ _ e);
  commit-view = λ s e. sym (some-injective _ _ e);
}

abbrev pub alice : User
alice = record {
  username = "alice";
  role = pos 1;
  status = pos 1;
  group = "default";
  quota = pos 100;
  used_quota = pos 0;
  request_count = pos 0;
  aff_count = pos 0;
  aff_quota = pos 0;
  aff_history_quota = pos 0;
  inviter_id = 0;
  last_check_in_day = none;
}

abbrev pub alice_token : Token
alice_token = record {
  id = 3;
  user_id = 1;
  key = "sk";
  status = pos 1;
  name = "main";
  accessed_time = pos 0;
  expired_time = pos 0;
  remain_quota = pos 50;
  unlimited_quota = false;
  used_quota = pos 5;
  model_limits_enabled = false;
  model_limits = "";
  group = "";
}

-- One user with one token, and a channel.
abbrev pub tables : Tables
tables = record {
  users = λ i. if i == 1 then some alice else none;
  tokens = λ i. if i == 3 then some alice_token else none;
  channels = λ i. if i == 9 then some (record { used_quota = pos 0 }) else none;
  redemptions = λ k. none;
  redemption_logs = λ i u. 0;
}
