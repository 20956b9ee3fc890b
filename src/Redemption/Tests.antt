-- ===== src/Redemption/Tests.antt =====
-- An ordinary code and a gift of two uses.
use veloera.Base.{
  ◌≡◌, ◌≢◌, refl, ℕ, true, false, none, some, [], pos, negsuc, arith, ◌+ℤ◌, ◌≤ℤ◌, int64,
  if◌then◌else◌, ◌≤◌,
}
use text.Mathlib.Text.{◌==◌ as str_eq}
use veloera.Store.Rows.{Redemption}
use veloera.Store.Database.{Tables}
use veloera.Store.Example.{in_memory, tables}
use veloera.Quota.World.{World, ok}
use veloera.Quota.Effective.Conserved.{no_stores}
use veloera.Redemption.Redeem.{transaction, redeem_row, use_code, use_gift}
use veloera.Redemption.Transaction.{TransactionOutcome}
use veloera.Redemption.Once.{
  redeem-transaction, code-redeemed_once, gift-redeemed_once, gift-within_limit,
}

abbrev code : Redemption
code = record {
  id = 4;
  key = "C";
  status = pos 1;
  quota = pos 10;
  redeemed_time = pos 0;
  valid_from = pos 0;
  valid_until = pos 0;
  used_user_id = 0;
  is_gift = false;
  max_uses = negsuc 0;
  used_count = pos 0;
}

abbrev gift : Redemption
gift = record code { id = 5; key = "G"; is_gift = true; max_uses = pos 2 }

abbrev shop : Tables
shop = record tables {
  redemptions = λ k. if str_eq k "C" then some code else if str_eq k "G" then some gift else none;
}

abbrev world : World Tables
world = record { db = shop; stores = no_stores; jobs = [] }

abbrev after_code : World Tables
after_code = (transaction (redeem_row "C" 1 (pos 100)) world).1

abbrev after_gift : World Tables
after_gift = (transaction (redeem_row "G" 1 (pos 100)) world).1

abbrev used_code : Redemption
used_code = use_code 1 (pos 100) code

code_run :
    transaction (redeem_row "C" 1 (pos 100)) world ≡ (ok (use_code 1 (pos 100) code), after_code)
unfolding transaction redeem_row
code_run = refl

gift_run : transaction (redeem_row "G" 1 (pos 100)) world ≡ (ok (use_gift gift), after_gift)
unfolding transaction redeem_row
gift_run = refl

redeem-transaction_example :
    TransactionOutcome "C" 1 (pos 100) world (transaction (redeem_row "C" 1 (pos 100)) world)
redeem-transaction_example = redeem-transaction "C" 1 (pos 100) world

code-redeemed_once_example : (transaction (redeem_row "C" 2 (pos 200)) after_code).0 ≢ ok code
unfolding use_code
code-redeemed_once_example =
    code-redeemed_once "C" 1 (pos 100) world after_code (use_code 1 (pos 100) code) code_run
      after_code 2 (pos 200) code refl refl

gift_filed : (after_gift.db).redemptions "G" ≡ some (use_gift gift)
unfolding transaction redeem_row use_gift int64 ◌+ℤ◌
gift_filed = refl

same_le : (n : ℕ) → n ≤ n
same_le n = omega arith

gift-redeemed_once_example : (transaction (redeem_row "G" 1 (pos 200)) after_gift).0 ≢ ok gift
unfolding use_gift int64 ◌+ℤ◌
gift-redeemed_once_example =
    gift-redeemed_once "G" 1 (pos 100) world after_gift (use_gift gift) gift_run after_gift
      (pos 200) (use_gift gift) gift refl gift_filed refl refl (same_le _)

gift-within_limit_example : (use_gift gift).used_count ≤ℤ (use_gift gift).max_uses
gift-within_limit_example =
    gift-within_limit "G" 1 (pos 100) world after_gift (use_gift gift) gift_run gift refl refl refl
      (omega arith) (omega arith)
