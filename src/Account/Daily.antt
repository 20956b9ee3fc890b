-- ===== src/Account/Daily.antt =====
-- The check-in of a user whose row nobody writes between the read and the transaction: it pays a
-- reward within the bounds, once a day.
use veloera.Base.{
  ℕ, ◌≡◌, ◌≢◌, Option, not, refl, sym, ap, ◌∙◌, true, false, some, ℤ, pos, ◌+ℤ◌, ◌-ℤ◌, ◌≤ℤ◌, ◌<ℤ◌,
  ltb_ℤ, int64, negsuc, ◌-◌, arith, ◌+◌, ◌<◌, ◌^◌, ◌==◌, ==_iff, Bool-cases, inl, inr, ◌⊎◌,
}
use mathlib.Core.Option.{some-injective}
use veloera.Store.Rows.{User}
use veloera.Store.Database.{Database, Tables, adjust}
use veloera.Quota.World.{World, Result, ok, err}
use veloera.Redemption.Steps.{query_then}
use veloera.Billing.Lookup.{get_user_by_id}
use veloera.Account.CheckIn.{can_check_in_today, same_day, reward_between, check_in, check_in_user}
use veloera.Account.Rewarded.{CheckInOutcome, check_in-overwrites}

-- `rand.Intn` answers below its argument.
abbrev pub DrawsBelow : (ℤ → ℤ) → Type 0
DrawsBelow random_int =
    (n : ℕ) → 0 < n → (pos 0 ≤ℤ random_int (pos n)) × (random_int (pos n) <ℤ pos n)

spans : (a b : ℕ) → a < b → b < 2 ^ 62 → int64 (int64 (pos b -ℤ pos a) +ℤ pos 1) ≡ pos (b - a + 1)
unfolding int64 ◌+ℤ◌ ◌-ℤ◌
spans a b h large = ground arith

added :
    (a b : ℕ) (r : ℤ)
    → b < 2 ^ 62
    → pos 0 ≤ℤ r
    → r <ℤ pos (b - a + 1)
    → a < b
    → (pos a ≤ℤ int64 (pos a +ℤ r)) × (int64 (pos a +ℤ r) ≤ℤ pos b)
unfolding int64 ◌+ℤ◌
added a b (pos r) large low high less = ground arith
added a b (negsuc r) large low high less = absurd (omega arith)

reward_bounds :
    (random_int : ℤ → ℤ) (a b : ℕ)
    → DrawsBelow random_int
    → b < 2 ^ 62
    → (pos a ≤ℤ reward_between random_int (pos a) (pos b))
      × ((reward_between random_int (pos a) (pos b) ≤ℤ pos b)
          ⊎ (reward_between random_int (pos a) (pos b) ≡ pos a))
unfolding reward_between
reward_bounds random_int a b law large = elim (Bool-cases (ltb_ℤ (pos a) (pos b))) [
  | inl less ↦
      let n : ℕ = b - a + 1 in
      let span : int64 (int64 (pos b -ℤ pos a) +ℤ pos 1) ≡ pos n = spans a b (ground arith) large in
      let (low, high) = law n (omega arith) in
      let (from, to) = added a b (random_int (pos n)) large low high (ground arith) in
      rw (less, span) (from, inl to)
  | inr equal ↦ rw equal (omega arith, inr refl)
]

module _ ⦃d : Database⦄ (random_int : ℤ → ℤ) (id today a b : ℕ) (law : DrawsBelow random_int)
    (large : b < 2 ^ 62) where
  -- The row that was there had no check-in on this day; it gets a reward between the bounds and the
  -- day, and nothing else changes. Or the database is as it was.
  abbrev pub Paid : World d.State → Result ℤ × World d.State → Type 0
  Paid w (ok reward, w') =
      (user : User) × ((d.view w.db).users id ≡ some user)
      × (can_check_in_today user today ≡ true)
      × (pos a ≤ℤ reward)
      × ((reward ≤ℤ pos b) ⊎ (reward ≡ pos a))
      × (d.view w'.db ≡ record (d.view w.db) {
        users =
            adjust id
              (λ _. record user {
                quota = int64 (user.quota +ℤ reward);
                last_check_in_day = some today;
              })
              (d.view w.db).users;
      })
      × (w'.stores ≡ w.stores)
  Paid w (err e, w') = (w'.db ≡ w.db) × (w'.stores ≡ w.stores)

  read_then :
      (w : World d.State) (user : User)
      → d.first_user id w.db ≡ some user
      → Paid w (check_in random_int id user today (pos a) (pos b) w)
  unfolding can_check_in_today
  read_then w user e =
      outcome (check_in random_int id user today (pos a) (pos b) w)
        (check_in-overwrites random_int id user today (pos a) (pos b) w)
    where
      outcome :
          (r : Result ℤ × World d.State)
          → CheckInOutcome random_int id user today (pos a) (pos b) w r
          → Paid w r
      outcome (ok reward, w') (can, is, v, st) =
          let (low, high) = reward_bounds random_int a b law large in
          (
            user,
            d.first_user-view id w.db e,
            rw can,
            rw is low,
            rw is high,
            v
                ∙ ap
                    (λ (r : ℤ). record (d.view w.db) {
                      users =
                          adjust id
                            (λ _. record user {
                              quota = int64 (user.quota +ℤ r);
                              last_check_in_day = some today;
                            })
                            (d.view w.db).users;
                    })
                    (sym is),
            st,
          )
      outcome (err _, w') o = o

  -- The check-in of controller/user.go, with valid settings and no other write to the user between
  -- its statements, pays a user who has not checked in on this day a reward that is at least the
  -- least and at most the greatest setting, or the least where that is the greater; it changes the
  -- one row, in its quota and its day; or it fails, and leaves the database as it was. The settings
  -- are to be less than 2^62, and `RandomInt` is to answer below its argument.
  pub check_in_user-Paid :
      (w : World d.State) → Paid w (check_in_user random_int id today (pos a, pos b) w)
  unfolding check_in_user get_user_by_id
  check_in_user-Paid w = elim (Bool-cases (id == 0)) [
    | inl nobody ↦ rw nobody (refl, refl)
    | inr somebody ↦ rw somebody (
        query_then (Paid w) (d.first_user id)
          (λ (user : User). check_in random_int id user today (pos a) (pos b)) w (λ _. (refl, refl))
          (read_then w))
  ]

  day_after :
      (w : World d.State) (r : Result ℤ × World d.State) {reward : ℤ}
      → r.0 ≡ ok reward
      → Paid w r
      → (u : User) × ((d.view r.1.db).users id ≡ some u) × (can_check_in_today u today ≡ false)
  unfolding can_check_in_today
  day_after w (ok reward, w') e (user, there, can, low, high, v, st) = (
    record user { quota = int64 (user.quota +ℤ reward); last_check_in_day = some today },
    ap (λ (t : Tables). t.users id) v ∙ (ground (arith, there)),
    ground (arith, ==_iff today today),
  )
  day_after w (err _, w') e o = cc

  blocked :
      (w : World d.State) (r : Result ℤ × World d.State) {reward : ℤ} (u v : User)
      → (d.view w.db).users id ≡ some u
      → u.last_check_in_day ≡ v.last_check_in_day
      → can_check_in_today v today ≡ false
      → Paid w r
      → r.0 ≢ ok reward
  unfolding can_check_in_today
  blocked w (ok _, w') u v there same_day_read cannot (user, found, can, low, high, tables, st) e =
      let same : user ≡ u = some-injective user u (sym found ∙ there) in
      let today_read : can_check_in_today user today ≡ can_check_in_today v today =
        ap (λ (x : User). can_check_in_today x today) same
        ∙ ap (λ (day : Option ℕ). not (same_day day today)) same_day_read in
      cc (sym can ∙ today_read ∙ cannot)
  blocked w (err _, w') u v there same_day_read cannot o e = cc

  -- After a check-in has paid, no second one pays on this day to a row whose day of the last
  -- check-in is still the one that the first has left, whatever else of the row, its quota for one,
  -- or of the database has changed since. A second check-in that has read the row before the first
  -- one's write is another matter, `check_in-overwrites`.
  pub check_in_user-once :
      (w later : World d.State) (u v : User) {reward second : ℤ}
      → (check_in_user random_int id today (pos a, pos b) w).0 ≡ ok reward
      → (d.view (check_in_user random_int id today (pos a, pos b) w).1.db).users id ≡ some v
      → (d.view later.db).users id ≡ some u
      → u.last_check_in_day ≡ v.last_check_in_day
      → (check_in_user random_int id today (pos a, pos b) later).0 ≢ ok second
  check_in_user-once w later u v paid after there kept =
      let first = check_in_user random_int id today (pos a, pos b) w in
      let (x, is, cannot) = day_after w first paid (check_in_user-Paid w) in
      let same : x ≡ v = some-injective x v (sym is ∙ after) in
      blocked later (check_in_user random_int id today (pos a, pos b) later) u v there kept
        (sym (ap (λ (y : User). can_check_in_today y today) same) ∙ cannot)
        (check_in_user-Paid later)
