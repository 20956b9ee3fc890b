-- ===== src/Billing/Charged.antt =====
-- What a part of a request has charged to its user and its token, and how the parts add up.
use mathlib.Core.Option
use veloera.Base.{
  ℕ, String, false, ◌≡◌, sym, ap, ◌∙◌, subst, ◌+◌, ◌≤◌, ◌<◌, ◌^◌, inl, inr, some, none, ℤ, pos,
  negsuc, ◌+ℤ◌, ◌-ℤ◌, ltb_ℤ, pos_part, neg_part, IsInt64, int_laws, arith, if◌then◌else◌, ◌==◌,
  Option, fits_of_parts,
}
use veloera.Base.Dict.{Dict}
use veloera.Store.Database.{Database}
use veloera.Quota.World.{World, Config, Result, ok, err, type_user_quota, type_token_quota}
use veloera.Quota.Users.{increase_user_quota, decrease_user_quota}
use veloera.Quota.Tokens.{increase_token_quota, decrease_token_quota}
use veloera.Quota.Effective.{user_balance, token_remain, token_used, Moves, pending}
use veloera.Quota.Effective.Users.{
  UserMoves, increase-UserMoves, decrease-UserMoves, Moves-zero, double,
}
use veloera.Quota.Effective.Tokens.{
  TokenMoves, increase_token_quota-moves, decrease_token_quota-moves,
}
use veloera.Quota.Effective.Flush.{Works}
use veloera.Quota.Effective.Drift.{
  Near, Booked, Succeeds, Near-insert, sum_fits, increase_user_quota-Succeeds,
  decrease_user_quota-Succeeds, increase_token_quota-Succeeds, decrease_token_quota-Succeeds,
}

twice :
    (o : Option ℤ) (id j : ℕ) (x y : ℤ)
    → (let p = (if id == j then Option.map (λ v. v +ℤ x) o else o) in
        if id == j then Option.map (λ v. v +ℤ y) p else p)
      ≡ (if id == j then Option.map (λ v. v +ℤ (x +ℤ y)) o else o)
twice none id j x y = ground arith
twice (some v) id j x y =
    let e : (v +ℤ x) +ℤ y ≡ v +ℤ (x +ℤ y) = omega int_laws in ground (arith, e)

Moves-trans :
    (f g h : ℕ → Option ℤ) (id : ℕ) (x y z : ℤ)
    → x +ℤ y ≡ z
    → Moves f g id x
    → Moves g h id y
    → Moves f h id z
Moves-trans f g h id x y z e a b j =
    b j
    ∙ ap (λ (o : Option ℤ). if id == j then Option.map (λ v. v +ℤ y) o else o) (a j)
    ∙ twice (f j) id j x y
    ∙ ap (λ (u : ℤ). if id == j then Option.map (λ v. v +ℤ u) (f j) else f j) e

pub nothing_paid :
    (b : Option ℤ) (id j : ℕ)
    → b ≡ (if id == j then Option.map (λ x. x +ℤ (pos 0 -ℤ pos 0)) b else b)
unfolding ◌-ℤ◌
nothing_paid b id j = Moves-zero b id j

pub Near-more : (m : Dict ℕ ℤ) (id n k : ℕ) → Near m id n → Near m id (n + k)
Near-more m id n k (a, b) = (omega arith, omega arith)

module _ ⦃d : Database⦄ (uid tid : ℕ) where
  -- What is pending for the user and for the token stays within `n`.
  abbrev pub IsCalm : World d.State → ℕ → Type 0
  IsCalm w n = Near w.stores.user_quota uid n × Near w.stores.token_quota tid n

  -- The user has paid `u` and the token `t`, and what is pending has grown by at most `k`.
  pub record Charged (w w' : World d.State) (u t : ℤ) (k : ℕ) : Type 0 where
    pub user : Moves (user_balance w.db w.stores) (user_balance w'.db w'.stores) uid (pos 0 -ℤ u)
    pub remain : Moves (token_remain w.db w.stores) (token_remain w'.db w'.stores) tid (pos 0 -ℤ t)
    pub used : Moves (token_used w.db w.stores) (token_used w'.db w'.stores) tid t
    pub drift : (n : ℕ) → IsCalm w n → n + k < 2 ^ 63 → IsCalm w' (n + k)

  pub Charged-trans :
      {w w' w'' : World d.State} {u t u' t' x y : ℤ} {k l : ℕ}
      → u +ℤ u' ≡ x
      → t +ℤ t' ≡ y
      → Charged w w' u t k
      → Charged w' w'' u' t' l
      → Charged w w'' x y (k + l)
  Charged-trans {u} {t} {u'} {t'} {x} {y} {k} {l} e e' a b = record {
    user =
        Moves-trans _ _ _ uid (pos 0 -ℤ u) (pos 0 -ℤ u') (pos 0 -ℤ x) (rw (sym e) (omega int_laws))
          a.user b.user;
    remain =
        Moves-trans _ _ _ tid (pos 0 -ℤ t) (pos 0 -ℤ t') (pos 0 -ℤ y) (rw (sym e') (omega int_laws))
          a.remain b.remain;
    used = Moves-trans _ _ _ tid t t' y e' a.used b.used;
    drift = λ n calm small.
        let e'' : n + (k + l) ≡ n + k + l = omega arith in
        rw e'' (b.drift (n + k) (a.drift n calm (omega arith)) (omega arith));
  }

  pub Charged-same :
      {w w' : World d.State} (k : ℕ)
      → w'.db ≡ w.db
      → w'.stores.user_quota ≡ w.stores.user_quota
      → w'.stores.token_quota ≡ w.stores.token_quota
      → Charged w w' (pos 0) (pos 0) k
  unfolding ◌-ℤ◌
  Charged-same {w} {w'} k e f g = record {
    user = λ j. rw (e, f) (Moves-zero (user_balance w.db w.stores j) uid j);
    remain = λ j. rw (e, g) (Moves-zero (token_remain w.db w.stores j) tid j);
    used = λ j. rw (e, g) (Moves-zero (token_used w.db w.stores j) tid j);
    drift = λ n calm small.
        rw (f, g)
          (
            Near-more w.stores.user_quota uid n k calm.0,
            Near-more w.stores.token_quota tid n k calm.1,
          );
  }

  IsCalm-user :
      (w w' : World d.State) (v : ℤ) (n k : ℕ)
      → pos_part v ≤ k
      → neg_part v ≤ k
      → IsCalm w n
      → n + k < 2 ^ 63
      → Booked type_user_quota w.stores w'.stores uid v
      → IsCalm w' (n + k)
  IsCalm-user w w' v n k a b (x, y) small (inl same) =
      rw same (Near-more w.stores.user_quota uid n k x, Near-more w.stores.token_quota tid n k y)
  IsCalm-user w w' v n k a b (x, y) small (inr booked) = rw booked (
    Near-insert w.stores.user_quota uid v n k x a b small,
    Near-more w.stores.token_quota tid n k y,
  )

  IsCalm-token :
      (w w' : World d.State) (v : ℤ) (n k : ℕ)
      → pos_part v ≤ k
      → neg_part v ≤ k
      → IsCalm w n
      → n + k < 2 ^ 63
      → Booked type_token_quota w.stores w'.stores tid v
      → IsCalm w' (n + k)
  IsCalm-token w w' v n k a b (x, y) small (inl same) =
      rw same (Near-more w.stores.user_quota uid n k x, Near-more w.stores.token_quota tid n k y)
  IsCalm-token w w' v n k a b (x, y) small (inr booked) = rw booked (
    Near-more w.stores.user_quota uid n k x,
    Near-insert w.stores.token_quota tid v n k y a b small,
  )

  -- A call that has taken `u` from the user's balance.
  UserMoves-Charged :
      (w : World d.State) (u : ℤ) (k : ℕ) (r : Result (Unit {0}) × World d.State)
      → pos_part (pos 0 -ℤ u) ≤ k
      → neg_part (pos 0 -ℤ u) ≤ k
      → UserMoves w.db w.stores uid (pos 0 -ℤ u) r
      → Succeeds type_user_quota uid (pos 0 -ℤ u) w r
      → (r.0 ≡ ok tt) × Charged w r.1 u (pos 0) k
  unfolding ◌-ℤ◌
  UserMoves-Charged w u k (err e, w') a b m (bad, booked) = (bad, cc)
  UserMoves-Charged w u k (ok o, w') a b (m, same) (fine, booked) = (
    fine,
    record {
      user = m;
      remain = λ j. rw (same j).0 (Moves-zero (token_remain w.db w.stores j) tid j);
      used = λ j. rw (same j).1 (Moves-zero (token_used w.db w.stores j) tid j);
      drift = λ n calm small. IsCalm-user w w' (pos 0 -ℤ u) n k a b calm small booked;
    },
  )

  -- A call that has taken `t` from what remains to the token.
  TokenMoves-Charged :
      (w : World d.State) (t : ℤ) (k : ℕ) (r : Result (Unit {0}) × World d.State)
      → pos_part (pos 0 -ℤ t) ≤ k
      → neg_part (pos 0 -ℤ t) ≤ k
      → TokenMoves w.db w.stores tid (pos 0 -ℤ t) r
      → Succeeds type_token_quota tid (pos 0 -ℤ t) w r
      → (r.0 ≡ ok tt) × Charged w r.1 (pos 0) t k
  TokenMoves-Charged w t k (err e, w') a b m (bad, booked) = (bad, cc)
  TokenMoves-Charged w t k (ok o, w') a b (m, u, same) (fine, booked) = (
    fine,
    record {
      user = λ j. rw (same j) (nothing_paid (user_balance w.db w.stores j) uid j);
      remain = m;
      used =
          subst (λ (x : ℤ). Moves (token_used w.db w.stores) (token_used w'.db w'.stores) tid x)
            (double t) u;
      drift = λ n calm small. IsCalm-token w w' (pos 0 -ℤ t) n k a b calm small booked;
    },
  )

abbrev pub size : ℤ → ℕ
size q = pos_part q + neg_part q

neg_parts : (q : ℤ) → (pos_part (pos 0 -ℤ q) ≡ neg_part q) × (neg_part (pos 0 -ℤ q) ≡ pos_part q)
unfolding ◌-ℤ◌
neg_parts (pos n) = ground arith
neg_parts (negsuc n) = ground arith

pub neg_fits : (q : ℤ) → size q < 2 ^ 63 → IsInt64 (pos 0 -ℤ q)
neg_fits q h = fits_of_parts (pos 0 -ℤ q) (omega (arith, neg_parts q)) (omega (arith, neg_parts q))

module _ ⦃d : Database⦄ (works : Works) (c : Config) (now : ℤ) (uid tid : ℕ) (key : String)
    (w : World d.State) (n : ℕ) (calm : IsCalm uid tid w n) (q : ℤ)
    (small : n + size q < 2 ^ 63) where
  user_fits : IsInt64 (pending w.stores.user_quota uid +ℤ (pos 0 -ℤ q))
  user_fits =
      sum_fits w.stores.user_quota uid (pos 0 -ℤ q) n (size q) calm.0 (omega (arith, neg_parts q))
        (omega (arith, neg_parts q)) small

  token_fits : IsInt64 (pending w.stores.token_quota tid +ℤ (pos 0 -ℤ q))
  token_fits =
      sum_fits w.stores.token_quota tid (pos 0 -ℤ q) n (size q) calm.1 (omega (arith, neg_parts q))
        (omega (arith, neg_parts q)) small

  fits : IsInt64 (pos 0 -ℤ q)
  fits = neg_fits q (omega arith)

  pub decrease_user_quota-Charged :
      ltb_ℤ q (pos 0) ≡ false
      → ((decrease_user_quota c uid q w).0 ≡ ok tt)
        × Charged uid tid w (decrease_user_quota c uid q w).1 q (pos 0) (size q)
  decrease_user_quota-Charged natural =
      UserMoves-Charged uid tid w q (size q) (decrease_user_quota c uid q w)
        (omega (arith, neg_parts q)) (omega (arith, neg_parts q))
        (decrease-UserMoves c w uid q fits user_fits)
        (decrease_user_quota-Succeeds works c w uid q natural fits)

  pub increase_user_quota-Charged :
      ltb_ℤ (pos 0 -ℤ q) (pos 0) ≡ false
      → ((increase_user_quota c uid (pos 0 -ℤ q) false w).0 ≡ ok tt)
        × Charged uid tid w (increase_user_quota c uid (pos 0 -ℤ q) false w).1 q (pos 0) (size q)
  increase_user_quota-Charged natural =
      UserMoves-Charged uid tid w q (size q) (increase_user_quota c uid (pos 0 -ℤ q) false w)
        (omega (arith, neg_parts q)) (omega (arith, neg_parts q))
        (increase-UserMoves c w uid (pos 0 -ℤ q) false user_fits)
        (increase_user_quota-Succeeds works c w uid (pos 0 -ℤ q) natural)

  pub decrease_token_quota-Charged :
      ltb_ℤ q (pos 0) ≡ false
      → ((decrease_token_quota c now tid key q w).0 ≡ ok tt)
        × Charged uid tid w (decrease_token_quota c now tid key q w).1 (pos 0) q (size q)
  decrease_token_quota-Charged natural =
      TokenMoves-Charged uid tid w q (size q) (decrease_token_quota c now tid key q w)
        (omega (arith, neg_parts q)) (omega (arith, neg_parts q))
        (decrease_token_quota-moves c now w tid key q fits token_fits)
        (decrease_token_quota-Succeeds works c now w tid key q natural fits)

  pub increase_token_quota-Charged :
      ltb_ℤ (pos 0 -ℤ q) (pos 0) ≡ false
      → ((increase_token_quota c now tid key (pos 0 -ℤ q) w).0 ≡ ok tt)
        × Charged uid tid w (increase_token_quota c now tid key (pos 0 -ℤ q) w).1 (pos 0) q (size q)
  increase_token_quota-Charged natural =
      TokenMoves-Charged uid tid w q (size q) (increase_token_quota c now tid key (pos 0 -ℤ q) w)
        (omega (arith, neg_parts q)) (omega (arith, neg_parts q))
        (increase_token_quota-moves c now w tid key (pos 0 -ℤ q) token_fits)
        (increase_token_quota-Succeeds works c now w tid key (pos 0 -ℤ q) natural)
