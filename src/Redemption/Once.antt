-- ===== src/Redemption/Once.antt =====
-- What `Redeem` of model/redemption.go promises: an ordinary code once, a gift once for each user,
-- and at most as often as its limit says.
use veloera.Base.{
  ℕ, String, Bool, true, false, not, ◌&&◌, ◌≡◌, ◌≢◌, refl, sym, ap, ◌∙◌, subst, some, ℤ, suc, pos,
  negsuc, ◌+ℤ◌, ◌≤ℤ◌, leb_ℤ, eqb_ℤ, int64, int64_id, IsInt64, ltb, ◌≤◌, Bool-cases, inl, inr, arith,
}
use mathlib.Core.Option.{some-injective}
use text.Mathlib.TextEquality.{eq_iff}
use text.Mathlib.Text.{◌==◌ as str_eq}
use veloera.Base.Dict.{string_key}
use veloera.Store.Rows.{Redemption}
use veloera.Store.Database.{Database, Tables, save_key, count_one}
use veloera.Quota.World.{World, Result, ok, err}
use veloera.Redemption.Redeem.{transaction, redeem_row, is_unlimited, status_enabled}
use veloera.Redemption.Spec.{Redeemed, redeemed_row, gift_row, is_redeemable}
use veloera.Redemption.Transaction.{
  if_gift, TransactionOutcome, redeem_transaction-TransactionOutcome,
}

-- The transaction of `Redeem`, for a key, a user and a time, either fails and leaves the database
-- and the updater's maps as they were; or the key's row was in its period of validity and was an
-- enabled code, or a gift with uses left that the user had not used; the user then has its quota
-- more, its row is used once more, a gift's use is logged, and no other row has changed.
pub redeem-transaction :
    ⦃d : Database⦄ (key : String) (user_id : ℕ) (now : ℤ) (w : World d.State)
    → TransactionOutcome key user_id now w (transaction (redeem_row key user_id now) w)
redeem-transaction key user_id now w = redeem_transaction-TransactionOutcome key user_id now w

redeemed_row-fixed :
    (u : ℕ) (now : ℤ) (r : Redemption)
    → ((redeemed_row u now r).is_gift ≡ r.is_gift)
      × ((redeemed_row u now r).key ≡ r.key)
      × ((redeemed_row u now r).id ≡ r.id)
redeemed_row-fixed u now r = elim (Bool-cases (not r.is_gift)) [
  | inl code ↦ rw code (refl, refl, refl)
  | inr gift ↦ rw gift (refl, refl, refl)
]

module _ ⦃d : Database⦄ (key : String) (user_id : ℕ) (now : ℤ) (w w' : World d.State)
    (saved : Redemption) (run : transaction (redeem_row key user_id now) w ≡ (ok saved, w')) where
  went_through : Redeemed key user_id now w.db w'.db saved
  went_through =
      (subst (TransactionOutcome key user_id now w) run (redeem-transaction key user_id now w)).0

  is_filed : (d.view w'.db).redemptions key ≡ some saved
  is_filed =
      let h = went_through in
      let keyed : saved.key ≡ key =
        ap (λ (r : Redemption). r.key) h.is_saved
        ∙ (redeemed_row-fixed user_id now h.row).1
        ∙ h.keyed in
      let found : str_eq saved.key key ≡ true = (eq_iff saved.key key).1 keyed in
      ap (λ (t : Tables). t.redemptions key) h.written
      ∙ ap (λ (r : Redemption). save_key r.key r (d.view w.db).redemptions key) (sym h.is_saved)
      ∙ rw found

code_status :
    (u : ℕ) (now : ℤ) (r : Redemption)
    → r.is_gift ≡ false
    → eqb_ℤ (redeemed_row u now r).status status_enabled ≡ false
code_status u now r ordinary = rw (ap not ordinary) refl

refuses :
    ⦃d : Database⦄ (key : String) (user_id : ℕ) (now : ℤ) (w : World d.State) (r : Redemption)
    → (d.view w.db).redemptions key ≡ some r
    → is_redeemable (d.view w.db) user_id r ≡ false
    → (s : Redemption) → (transaction (redeem_row key user_id now) w).0 ≢ ok s
refuses ⦃d⦄ key user_id now w r filed barred s e =
    at (transaction (redeem_row key user_id now) w) e (redeem-transaction key user_id now w)
  where
    at :
        (x : Result Redemption × World d.State)
        → x.0 ≡ ok s
        → TransactionOutcome key user_id now w x
        → ⊥
    at (err er, w') eq o = cc
    at (ok s', w') eq (h, same) =
        let is : r ≡ h.row = some-injective r h.row (sym filed ∙ h.found) in
        let allowed : is_redeemable (d.view w.db) user_id r ≡ true = rw is h.allowed in cc

counted : (i j u : ℕ) (logs : ℕ → ℕ → ℕ) → i ≡ j → count_one i u logs j u ≡ suc (logs j u)
counted i j u logs e = ground arith

barred : (b : Bool) (n : ℕ) → 1 ≤ n → (b && not (ltb 0 n)) ≡ false
barred b n e = ground arith

next_fits :
    (used max : ℤ) → leb_ℤ max used ≡ false → IsInt64 max → IsInt64 used → IsInt64 (used +ℤ pos 1)
unfolding ◌+ℤ◌
next_fits (pos a) (pos b) = ground arith
next_fits (pos a) (negsuc b) = ground arith
next_fits (negsuc a) (pos b) = ground arith
next_fits (negsuc a) (negsuc b) = ground arith

next_within : (used max : ℤ) → leb_ℤ max used ≡ false → (used +ℤ pos 1) ≤ℤ max
unfolding ◌+ℤ◌
next_within (pos a) (pos b) = ground arith
next_within (pos a) (negsuc b) = ground arith
next_within (negsuc a) (pos b) = ground arith
next_within (negsuc a) (negsuc b) = ground arith

left : (b x y : Bool) → b ≡ false → (not (not b && x) && not y) ≡ true → x ≡ false
left b x y e h = ground arith

within :
    (used max : ℤ)
    → leb_ℤ max used ≡ false
    → IsInt64 max
    → IsInt64 used
    → int64 (used +ℤ pos 1) ≤ℤ max
within used max room fits fits' =
    let sum : IsInt64 (used +ℤ pos 1) = next_fits used max room fits fits' in
    rw (int64_id (used +ℤ pos 1) sum) (next_within used max room)

module _ ⦃d : Database⦄ (key : String) (user_id : ℕ) (now : ℤ) (w w' : World d.State)
    (saved : Redemption) (run : transaction (redeem_row key user_id now) w ≡ (ok saved, w')) where
  -- After the transaction of `Redeem` has gone through for an ordinary code, none goes through for
  -- this key again, whoever asks and whenever, on a database in which the code's row has not been
  -- changed since.
  pub code-redeemed_once :
      (later : World d.State) (user_id' : ℕ) (now' : ℤ) (s : Redemption)
      → saved.is_gift ≡ false
      → (d.view later.db).redemptions key ≡ (d.view w'.db).redemptions key
      → (transaction (redeem_row key user_id' now') later).0 ≢ ok s
  code-redeemed_once later user_id' now' s ordinary kept =
      let h = went_through key user_id now w w' saved run in
      let plain : h.row.is_gift ≡ false =
        sym (redeemed_row-fixed user_id now h.row).0
        ∙ sym (ap (λ (r : Redemption). r.is_gift) h.is_saved)
        ∙ ordinary in
      let used : eqb_ℤ saved.status status_enabled ≡ false =
        ap (λ (r : Redemption). eqb_ℤ r.status status_enabled) h.is_saved
        ∙ code_status user_id now h.row plain in
      refuses key user_id' now' later saved (kept ∙ is_filed key user_id now w w' saved run)
        (rw (ap not ordinary) used) s

  -- After the transaction of `Redeem` has gone through for a gift, none goes through for this user
  -- again, as long as the key has a gift of the same id and the log of its uses has not shrunk.
  pub gift-redeemed_once :
      (later : World d.State) (now' : ℤ) (r s : Redemption)
      → saved.is_gift ≡ true
      → (d.view later.db).redemptions key ≡ some r
      → r.is_gift ≡ true
      → r.id ≡ saved.id
      → (d.view w'.db).redemption_logs saved.id user_id
        ≤ (d.view later.db).redemption_logs saved.id user_id
      → (transaction (redeem_row key user_id now') later).0 ≢ ok s
  gift-redeemed_once later now' r s gift filed gift' same grown =
      let h = went_through key user_id now w w' saved run in
      let ids : saved.id ≡ h.row.id =
        ap (λ (x : Redemption). x.id) h.is_saved ∙ (redeemed_row-fixed user_id now h.row).2 in
      let was_gift : h.row.is_gift ≡ true =
        sym (redeemed_row-fixed user_id now h.row).0
        ∙ sym (ap (λ (x : Redemption). x.is_gift) h.is_saved)
        ∙ gift in
      let logged : (d.view w'.db).redemption_logs saved.id user_id
          ≡ suc ((d.view w.db).redemption_logs saved.id user_id) =
        ap (λ (t : Tables). t.redemption_logs saved.id user_id) h.written
        ∙ ap (λ (logs : ℕ → ℕ → ℕ). logs saved.id user_id)
            (if_gift h.row.is_gift (d.view w.db).redemption_logs
              (count_one h.row.id user_id (d.view w.db).redemption_logs) was_gift)
        ∙ counted h.row.id saved.id user_id (d.view w.db).redemption_logs (sym ids) in
      refuses key user_id now' later r filed
        (if_gift r.is_gift _ _ gift'
          ∙ ap
              (λ (i : ℕ).
                not (not (is_unlimited r) && leb_ℤ r.max_uses r.used_count)
                && not (ltb 0 ((d.view later.db).redemption_logs i user_id)))
              same
          ∙ barred (not (not (is_unlimited r) && leb_ℤ r.max_uses r.used_count))
              ((d.view later.db).redemption_logs saved.id user_id) (omega (arith, logged, grown)))
        s

  -- When the transaction of `Redeem` lets a gift through whose row limits its uses, the row that
  -- it saves has at most as many uses as the limit says, this use included.
  pub gift-within_limit :
      (r : Redemption)
      → (d.view w.db).redemptions key ≡ some r
      → r.is_gift ≡ true
      → is_unlimited r ≡ false
      → IsInt64 r.max_uses
      → IsInt64 r.used_count
      → saved.used_count ≤ℤ saved.max_uses
  gift-within_limit r filed gift limited fits fits' =
      let h = went_through key user_id now w w' saved run in
      let is : h.row ≡ r = some-injective h.row r (sym h.found ∙ filed) in
      let allowed : is_redeemable (d.view w.db) user_id r ≡ true = rw⁻¹ is h.allowed in
      let room : leb_ℤ r.max_uses r.used_count ≡ false =
        left (is_unlimited r) _ _ limited (sym (if_gift r.is_gift _ _ gift) ∙ allowed) in
      let is_saved : saved ≡ gift_row r =
        h.is_saved ∙ ap (redeemed_row user_id now) is ∙ if_gift r.is_gift _ _ gift in
      rw is_saved (within r.used_count r.max_uses room fits fits')
