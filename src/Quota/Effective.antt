-- ===== src/Quota/Effective.antt =====
-- The abstract view of the accounts: the counters as they will stand when the batch updater of
-- model/utils.go has written what it holds.
pub mod Users
pub mod Tokens
pub mod Flush
pub mod Conserved
pub mod Drift
use mathlib.Core.Option
use veloera.Base.{
  ℕ, ◌≡◌, refl, ◌==◌, if◌then◌else◌, Bool, Option, none, some, arith, ℤ, pos, ◌+ℤ◌, ◌-ℤ◌, int64,
  IsInt64, int64_id, int_laws, eq_of_parts, Option-cases, Bool-cases, inl, inr, ap, ◌∙◌, ==_iff,
}
use veloera.Base.Dict.{Dict, lookup, insert, nat_key, lookup-insert}
use veloera.Store.Rows.{User, Token, ChannelUsage}
use veloera.Store.Database.{Database, adjust}
use veloera.Quota.World.{Stores}
use veloera.Quota.Batch.{merge}

-- What a map of the updater will add to a counter.
abbrev pub value_of : Option ℤ → ℤ
value_of none = pos 0
value_of (some v) = v

abbrev pub pending : Dict ℕ ℤ → ℕ → ℤ
pending m id = value_of (lookup id m)

module _ ⦃d : Database⦄ (s : d.State) (st : Stores) (id : ℕ) where
  abbrev pub user_balance : Option ℤ
  user_balance =
      Option.map (λ (u : User). u.quota +ℤ pending st.user_quota id) ((d.view s).users id)

  abbrev pub user_used : Option ℤ
  user_used =
      Option.map (λ (u : User). u.used_quota +ℤ pending st.used_quota id) ((d.view s).users id)

  abbrev pub user_requests : Option ℤ
  user_requests =
      Option.map (λ (u : User). u.request_count +ℤ pending st.request_count id)
        ((d.view s).users id)

  abbrev pub token_remain : Option ℤ
  token_remain =
      Option.map (λ (t : Token). t.remain_quota +ℤ pending st.token_quota id) ((d.view s).tokens id)

  abbrev pub token_used : Option ℤ
  token_used =
      Option.map (λ (t : Token). t.used_quota -ℤ pending st.token_quota id) ((d.view s).tokens id)

  abbrev pub channel_used : Option ℤ
  channel_used =
      Option.map (λ (c : ChannelUsage). c.used_quota +ℤ pending st.channel_used_quota id)
        ((d.view s).channels id)

-- A counter moves by `delta` at `id`, and the others stay.
abbrev pub Moves : (ℕ → Option ℤ) → (ℕ → Option ℤ) → ℕ → ℤ → Type 0
Moves before after id delta =
    (j : ℕ) → after j ≡ (if id == j then Option.map (λ b. b +ℤ delta) (before j) else before j)

module _ ⦃d : Database⦄ (s : d.State) (st : Stores) (s' : d.State) (st' : Stores) where
  -- No token's counters have changed.
  abbrev pub SameTokens : Type 0
  SameTokens =
      (j : ℕ)
      → (token_remain s' st' j ≡ token_remain s st j) × (token_used s' st' j ≡ token_used s st j)

  -- No user's balance has changed.
  abbrev pub SameBalances : Type 0
  SameBalances = (j : ℕ) → user_balance s' st' j ≡ user_balance s st j

-- `addNewRecord` on a map.
merge-value_of : (o : Option ℤ) (v : ℤ) → IsInt64 (value_of o +ℤ v) → merge o v ≡ value_of o +ℤ v
merge-value_of none v fits = omega int_laws
merge-value_of (some old) v fits = int64_id (old +ℤ v) fits

pub pending-merge :
    (m : Dict ℕ ℤ) (id : ℕ) (v : ℤ) (j : ℕ)
    → IsInt64 (pending m id +ℤ v)
    → pending (insert id (merge (lookup id m) v) m) j
      ≡ (if id == j then pending m j +ℤ v else pending m j)
pending-merge m id v j fits = elim (Bool-cases (id == j)) [
  | inl same ↦ rw (lookup-insert id j (merge (lookup id m) v) m) (
      rw same (
        merge-value_of (lookup id m) v fits
        ∙ ap (λ (i : ℕ). pending m i +ℤ v) ((==_iff id j).0 same)))
  | inr other ↦ rw (lookup-insert id j (merge (lookup id m) v) m) (rw other)
]

-- A counter reads a row and what is pending for it. It moves with what is pending, or with the row.
module _ {R : Type 0} (read : ℤ → R → ℤ) (id j : ℕ) (delta : ℤ) where
  pub counter-pending :
      (row : Option R) (v p p' : ℤ)
      → ((r : R) → read (p +ℤ v) r ≡ read p r +ℤ delta)
      → p' ≡ (if id == j then p +ℤ v else p)
      → Option.map (read p') row ≡ (
          if id == j
          then Option.map (λ b. b +ℤ delta) (Option.map (read p) row)
          else Option.map (read p) row)
  counter-pending none v p p' step e = ground arith
  counter-pending (some r) v p p' step e = rw e (ground (arith, step r))

  pub counter-row :
      (rows : ℕ → Option R) (f : R → R) (p : ℤ)
      → ((r : R) → read p (f r) ≡ read p r +ℤ delta)
      → Option.map (read p) (adjust id f rows j) ≡ (
          if id == j
          then Option.map (λ b. b +ℤ delta) (Option.map (read p) (rows j))
          else Option.map (read p) (rows j))
  counter-row rows f p step = counter-row_at (rows j) f p step
    where
      counter-row_at :
          (row : Option R) (f : R → R) (p : ℤ)
          → ((r : R) → read p (f r) ≡ read p r +ℤ delta)
          → Option.map (read p) (if id == j then Option.map f row else row) ≡ (
              if id == j
              then Option.map (λ b. b +ℤ delta) (Option.map (read p) row)
              else Option.map (read p) row)
      counter-row_at none f p step = ground arith
      counter-row_at (some r) f p step = ground (arith, step r)
