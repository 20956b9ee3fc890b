-- ===== src/Quota/Effective/Flush.antt =====
-- `batchUpdate` of model/utils.go on the tables: what each round of its loop writes.
use mathlib.Core.Option
use veloera.Base.{
  ℕ, ◌≡◌, refl, ◌==◌, if◌then◌else◌, Option, none, some, List, [], ◌∷◌, arith, ℤ, pos, ◌+ℤ◌, ◌-ℤ◌,
  ◌∙◌, ap, sym, ==_iff, Bool-cases, inl, inr, subst,
}
use veloera.Base.Dict.{Dict, lookup, insert, nat_key, lookup-insert_ne}
use veloera.Store.Rows.{User, Token, ChannelUsage}
use veloera.Store.Database.{Database, Tables, adjust}
use veloera.Quota.World.{
  BatchUpdateType, type_user_quota, type_token_quota, type_used_quota, type_channel_used_quota,
  type_request_count, World, exec-some, Result, exec,
}
use veloera.Quota.Batch.{flush_entry, flush_entries}
use veloera.Quota.Effective.{pending}

-- A map of the updater has each key once, as a Go map does.
abbrev pub IsMap : Dict ℕ ℤ → Type 0
IsMap [] = Unit
IsMap ((k, v) ∷ m) = (lookup k m ≡ none) × IsMap m

pub insert-IsMap : (k : ℕ) (v : ℤ) (m : Dict ℕ ℤ) → IsMap m → IsMap (insert k v m)
unfolding insert lookup
insert-IsMap k v [] h = (refl, tt)
insert-IsMap k v ((j, x) ∷ m) h = elim (Bool-cases (j == k)) [
  | inl same ↦ rw same (subst (λ (i : ℕ). lookup i m ≡ none) ((==_iff j k).0 same) h.0, h.1)
  | inr other ↦
      rw other
        (lookup-insert_ne k j v m (λ e. ground (arith, ==_iff j k)) ∙ h.0, insert-IsMap k v m h.1)
]

-- The rows after one update for each entry.
abbrev pub rows_after : {R : Type 0} → (ℤ → R → R) → List (ℕ × ℤ) → (ℕ → Option R) → ℕ → Option R
rows_after f [] rows = rows
rows_after f ((k, v) ∷ es) rows = rows_after f es (adjust k (f v) rows)

module _ {R : Type 0} (read : ℤ → R → ℤ) (f : ℤ → R → R) where
  -- What was pending for a row is in the row.
  pub rows_after-moved :
      (es : List (ℕ × ℤ)) (rows : ℕ → Option R) (j : ℕ)
      → ((v : ℤ) (r : R) → read (pos 0) (f v r) ≡ read v r)
      → IsMap es
      → Option.map (read (pos 0)) (rows_after f es rows j)
        ≡ Option.map (read (pending es j)) (rows j)
  unfolding lookup
  rows_after-moved [] rows j step h = refl
  rows_after-moved ((k, v) ∷ es) rows j step h =
      rows_after-moved es (adjust k (f v) rows) j step h.1 ∙ one
    where
      moved :
          (row : Option R)
          → Option.map (read (pos 0)) (Option.map (f v) row) ≡ Option.map (read v) row
      moved none = refl
      moved (some r) = ap some (step v r)

      one :
          Option.map (read (pending es j)) (adjust k (f v) rows j)
          ≡ Option.map (read (pending ((k, v) ∷ es) j)) (rows j)
      one = elim (Bool-cases (k == j)) [
        | inl same ↦
            let gone : lookup j es ≡ none =
              subst (λ (i : ℕ). lookup i es ≡ none) ((==_iff k j).0 same) h.0 in
            rw same (rw gone (moved (rows j)))
        | inr other ↦ rw other
      ]

  -- A counter that the updates do not touch.
  pub rows_after-same :
      (es : List (ℕ × ℤ)) (rows : ℕ → Option R) (j : ℕ) (p : ℤ)
      → ((v : ℤ) (r : R) → read p (f v r) ≡ read p r)
      → Option.map (read p) (rows_after f es rows j) ≡ Option.map (read p) (rows j)
  rows_after-same [] rows j p step = refl
  rows_after-same ((k, v) ∷ es) rows j p step =
      rows_after-same es (adjust k (f v) rows) j p step ∙ one (rows j)
    where
      one :
          (row : Option R)
          → Option.map (read p) (if k == j then Option.map (f v) row else row)
            ≡ Option.map (read p) row
      one none = ground arith
      one (some r) = ground (arith, step v r)

-- The updates of the statements.
abbrev pub add_quota : ℤ → User → User
add_quota v u = record u { quota = u.quota +ℤ v }

abbrev pub add_used : ℤ → User → User
add_used v u = record u { used_quota = u.used_quota +ℤ v }

abbrev pub add_requests : ℤ → User → User
add_requests v u = record u { request_count = u.request_count +ℤ v }

abbrev pub add_token : ℤ → ℤ → Token → Token
add_token now v t = record t {
  remain_quota = t.remain_quota +ℤ v;
  used_quota = t.used_quota -ℤ v;
  accessed_time = now;
}

abbrev pub add_channel : ℤ → ChannelUsage → ChannelUsage
add_channel v c = record c { used_quota = c.used_quota +ℤ v }

-- The tables after one round.
abbrev pub changes : ℤ → BatchUpdateType → List (ℕ × ℤ) → Tables → Tables
changes now type_user_quota es tb = record tb { users = rows_after add_quota es tb.users }
changes now type_token_quota es tb = record tb { tokens = rows_after (add_token now) es tb.tokens }
changes now type_used_quota es tb = record tb { users = rows_after add_used es tb.users }
changes now type_request_count es tb = record tb { users = rows_after add_requests es tb.users }
changes now type_channel_used_quota es tb = record tb {
  channels = rows_after add_channel es tb.channels;
}

-- Every statement succeeds.
pub record Works ⦃d : Database⦄ : Type 0 where
  pub users :
      (i : ℕ) (f : User → User) (s : d.State) → (t : d.State) × (d.update_user i f s ≡ some t)
  pub tokens :
      (i : ℕ) (f : Token → Token) (s : d.State) → (t : d.State) × (d.update_token i f s ≡ some t)
  pub channels :
      (i : ℕ) (f : ChannelUsage → ChannelUsage) (s : d.State)
      → (t : d.State) × (d.update_channel i f s ≡ some t)

-- The world after a call that only changes the database.
module _ ⦃d : Database⦄ where
  abbrev pub Writes : Tables → World d.State → World d.State → Type 0
  Writes tb w w' = (d.view w'.db ≡ tb) × (w'.stores ≡ w.stores)

  exec-Writes :
      (f : d.State → Option d.State) (tb : Tables) (w : World d.State) {t : d.State}
      → f w.db ≡ some t
      → d.view t ≡ tb
      → Writes tb w (exec f w).1
  exec-Writes f tb w e v =
      subst (λ (r : Result (Unit {0}) × World d.State). Writes tb w r.1) (sym (exec-some f w e))
        (v, refl)

module _ ⦃d : Database⦄ (works : Works) (now : ℤ) where
  flush_entry-Writes :
      (type : BatchUpdateType) (k : ℕ) (v : ℤ) (w : World d.State)
      → Writes (changes now type ((k, v) ∷ []) (d.view w.db)) w (flush_entry now type k v w).1
  unfolding flush_entry
  flush_entry-Writes type_user_quota k v w =
      let (t, e) = works.users k (add_quota v) w.db in
      exec-Writes (d.update_user k (add_quota v)) _ w e (d.update_user-view k (add_quota v) w.db e)
  flush_entry-Writes type_token_quota k v w =
      let (t, e) = works.tokens k (add_token now v) w.db in
      exec-Writes (d.update_token k (add_token now v)) _ w e
        (d.update_token-view k (add_token now v) w.db e)
  flush_entry-Writes type_used_quota k v w =
      let (t, e) = works.users k (add_used v) w.db in
      exec-Writes (d.update_user k (add_used v)) _ w e (d.update_user-view k (add_used v) w.db e)
  flush_entry-Writes type_request_count k v w =
      let (t, e) = works.users k (add_requests v) w.db in
      exec-Writes (d.update_user k (add_requests v)) _ w e
        (d.update_user-view k (add_requests v) w.db e)
  flush_entry-Writes type_channel_used_quota k v w =
      let (t, e) = works.channels k (add_channel v) w.db in
      exec-Writes (d.update_channel k (add_channel v)) _ w e
        (d.update_channel-view k (add_channel v) w.db e)

  changes-cons :
      (type : BatchUpdateType) (k : ℕ) (v : ℤ) (es : List (ℕ × ℤ)) (tb : Tables)
      → changes now type es (changes now type ((k, v) ∷ []) tb) ≡ changes now type ((k, v) ∷ es) tb
  changes-cons type_user_quota k v es tb = refl
  changes-cons type_token_quota k v es tb = refl
  changes-cons type_used_quota k v es tb = refl
  changes-cons type_request_count k v es tb = refl
  changes-cons type_channel_used_quota k v es tb = refl

  changes-nil : (type : BatchUpdateType) (tb : Tables) → tb ≡ changes now type [] tb
  changes-nil type_user_quota tb = refl
  changes-nil type_token_quota tb = refl
  changes-nil type_used_quota tb = refl
  changes-nil type_request_count tb = refl
  changes-nil type_channel_used_quota tb = refl

  pub flush_entries-Writes :
      (type : BatchUpdateType) (es : List (ℕ × ℤ)) (w : World d.State)
      → Writes (changes now type es (d.view w.db)) w (flush_entries now type es w)
  unfolding flush_entries
  flush_entries-Writes type [] w = (changes-nil type (d.view w.db), refl)
  flush_entries-Writes type ((k, v) ∷ es) w =
      let w1 : World d.State = (flush_entry now type k v w).1 in
      let one : Writes (changes now type ((k, v) ∷ []) (d.view w.db)) w w1 =
        flush_entry-Writes type k v w in
      let rest : Writes (changes now type es (d.view w1.db)) w1 (flush_entries now type es w1) =
        flush_entries-Writes type es w1 in
      (
        rest.0 ∙ (ap (changes now type es) one.0 ∙ changes-cons type k v es (d.view w.db)),
        rest.1 ∙ one.1,
      )
