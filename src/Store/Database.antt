-- ===== src/Store/Database.antt =====
-- The database behind gorm, which the repository does not implement: the statements that the
-- modelled code runs, as a parameter. `none` is a statement that failed, or that found no row where
-- the code asks for one. The laws are those of SQL: a statement that succeeds has changed the
-- rows that it names, and nothing else.
use veloera.Base.{ℕ, suc, String, ◌≡◌, Option, none, some, ◌==◌, if◌then◌else◌, ◌&&◌, ℤ, pos}
use veloera.Base.Dict.{string_key}
use text.Mathlib.Text.{◌==◌ as str_eq}
use mathlib.Core.Option
use veloera.Store.Rows.{User, Token, ChannelUsage, Redemption}

-- What the tables hold.
pub record Tables : Type 0 where
  pub users : ℕ → Option User
  pub tokens : ℕ → Option Token
  pub channels : ℕ → Option ChannelUsage
  pub redemptions : String → Option Redemption
  -- The number of rows of `redemption_logs` for a redemption and a user.
  pub redemption_logs : ℕ → ℕ → ℕ

-- `UPDATE … WHERE id = i`: without such a row it changes nothing, and that is no error.
abbrev pub adjust : {R : Type 0} → ℕ → (R → R) → (ℕ → Option R) → ℕ → Option R
adjust i f rows j = if i == j then Option.map f (rows j) else rows j

abbrev pub save_key : {R : Type 0} → String → R → (String → Option R) → String → Option R
save_key k r rows j = if str_eq k j then some r else rows j

abbrev pub count_one : ℕ → ℕ → (ℕ → ℕ → ℕ) → ℕ → ℕ → ℕ
count_one i u logs j v = if i == j && u == v then suc (logs j v) else logs j v

abbrev pub quota_or_zero : Option User → ℤ
quota_or_zero none = pos 0
quota_or_zero (some u) = u.quota

pub record Database : Type 1 where
  pub State : Type 0
  pub view : State → Tables
  pub first_user : ℕ → State → Option User
  -- `Select("quota").Find(&quota)`: 0 without such a row.
  pub select_user_quota : ℕ → State → Option ℤ
  pub first_token : String → State → Option Token
  pub first_redemption : String → State → Option Redemption
  pub count_redemption_logs : ℕ → ℕ → State → Option ℕ
  pub update_user : ℕ → (User → User) → State → Option State
  pub update_token : ℕ → (Token → Token) → State → Option State
  pub update_channel : ℕ → (ChannelUsage → ChannelUsage) → State → Option State
  pub save_redemption : Redemption → State → Option State
  pub create_redemption_log : ℕ → ℕ → State → Option State
  pub commit : State → Option State
  pub first_user-view :
      (i : ℕ) (s : State) {u : User} → first_user i s ≡ some u → (view s).users i ≡ some u
  pub select_user_quota-view :
      (i : ℕ) (s : State) {q : ℤ}
      → select_user_quota i s ≡ some q
      → q ≡ quota_or_zero ((view s).users i)
  pub first_token-view :
      (k : String) (s : State) {t : Token}
      → first_token k s ≡ some t
      → ((view s).tokens t.id ≡ some t) × (t.key ≡ k)
  pub first_redemption-view :
      (k : String) (s : State) {r : Redemption}
      → first_redemption k s ≡ some r
      → ((view s).redemptions k ≡ some r) × (r.key ≡ k)
  pub count_redemption_logs-view :
      (i u : ℕ) (s : State) {n : ℕ}
      → count_redemption_logs i u s ≡ some n
      → (view s).redemption_logs i u ≡ n
  pub update_user-view :
      (i : ℕ) (f : User → User) (s : State) {t : State}
      → update_user i f s ≡ some t
      → view t ≡ record (view s) { users = adjust i f (view s).users }
  pub update_token-view :
      (i : ℕ) (f : Token → Token) (s : State) {t : State}
      → update_token i f s ≡ some t
      → view t ≡ record (view s) { tokens = adjust i f (view s).tokens }
  pub update_channel-view :
      (i : ℕ) (f : ChannelUsage → ChannelUsage) (s : State) {t : State}
      → update_channel i f s ≡ some t
      → view t ≡ record (view s) { channels = adjust i f (view s).channels }
  pub save_redemption-view :
      (r : Redemption) (s : State) {t : State}
      → save_redemption r s ≡ some t
      → view t ≡ record (view s) { redemptions = save_key r.key r (view s).redemptions }
  pub create_redemption_log-view :
      (i u : ℕ) (s : State) {t : State}
      → create_redemption_log i u s ≡ some t
      → view t ≡ record (view s) { redemption_logs = count_one i u (view s).redemption_logs }
  pub commit-view : (s : State) {t : State} → commit s ≡ some t → view t ≡ view s
