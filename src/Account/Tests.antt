-- ===== src/Account/Tests.antt =====
-- Tests of check-in and of the transfer, and the properties at a concrete user.
use veloera.Base.{
  ◌≡◌, ◌≢◌, refl, subst, false, none, some, [], ℤ, pos, arith, ◌+ℤ◌, ◌-ℤ◌, int64, IsInt64,
  if◌then◌else◌, ◌==◌,
}
use mathlib.Core.Option.{some-injective}
use veloera.Store.Rows.{User}
use veloera.Store.Database.{Tables}
use veloera.Store.Example.{in_memory, tables, alice}
use veloera.Quota.World.{World, ok}
use veloera.Account.CheckIn.{check_in, check_in_user, transfer_aff_quota_to_quota}
use veloera.Account.Rewarded.{CheckInOutcome, check_in-overwrites}
use veloera.Account.Daily.{Paid, check_in_user-Paid, check_in_user-once}
use veloera.Account.Transfer.{Conserved, Fits, transfer-Conserved}

-- Alice has been invited to invite.
abbrev rich : User
rich = record alice { aff_quota = pos 80 }

abbrev bank : Tables
bank = record tables { users = λ i. if i == 1 then some rich else none }

abbrev world : World Tables
world = record {
  db = bank;
  stores = record {
    user_quota = [];
    token_quota = [];
    used_quota = [];
    channel_used_quota = [];
    request_count = [];
  };
  jobs = [];
}

-- It draws 0.
abbrev least : ℤ → ℤ
least n = pos 0

first_day : (check_in_user least 1 20000 (pos 5, pos 9) world).0 ≡ ok (pos 5)
unfolding check_in_user ◌+ℤ◌ ◌-ℤ◌ int64
first_day = refl

abbrev after : World Tables
after = (check_in_user least 1 20000 (pos 5, pos 9) world).1

check_in-overwrites_example :
    CheckInOutcome least 1 rich 20000
      (pos 5)
      (pos 9)
      world
      (check_in least 1 rich 20000 (pos 5) (pos 9) world)
check_in-overwrites_example = check_in-overwrites least 1 rich 20000 (pos 5) (pos 9) world

check_in_user-Paid_example :
    Paid least 1 20000 5 9
      (λ n h. (omega arith, omega arith))
      (omega arith)
      world
      (check_in_user least 1 20000 (pos 5, pos 9) world)
check_in_user-Paid_example =
    check_in_user-Paid least 1 20000 5 9 (λ n h. (omega arith, omega arith)) (omega arith) world

-- Alice after the first check-in, and after a charge of 3 on the same day.
abbrev paid_rich : User
paid_rich = record rich { quota = pos 105; last_check_in_day = some 20000 }

abbrev charged_rich : User
charged_rich = record paid_rich { quota = pos 102 }

abbrev charged_world : World Tables
charged_world = record world {
  db = record tables { users = λ i. if i == 1 then some charged_rich else none };
}

paid_row : after.db.users 1 ≡ some paid_rich
unfolding check_in_user int64 ◌+ℤ◌
paid_row = refl

check_in_user-once_example :
    (check_in_user least 1 20000 (pos 5, pos 9) charged_world).0 ≢ ok (pos 5)
check_in_user-once_example =
    check_in_user-once least 1 20000 5 9 (λ n h. (omega arith, omega arith)) (omega arith) world
      charged_world charged_rich paid_rich first_day paid_row refl refl

rich-Fits : Fits (λ q. false) 1 (pos 30) world
unfolding ◌+ℤ◌ ◌-ℤ◌
rich-Fits u e =
    let same : rich ≡ u = some-injective rich u e in
    subst (λ (v : User). IsInt64 (v.quota +ℤ pos 30) × IsInt64 (v.aff_quota -ℤ pos 30)) same
      (omega arith)

transfer-Conserved_example :
    Conserved
      (λ q. false)
      1
      (pos 30)
      world
      (transfer_aff_quota_to_quota (λ q. false) 1 (pos 30) world)
transfer-Conserved_example = transfer-Conserved (λ q. false) 1 (pos 30) world rich-Fits
