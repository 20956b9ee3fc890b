-- ===== src/Billing/SessionTests.antt =====
-- A realtime session of one user with a balance of 1000.
use veloera.Base.{
  ◌≡◌, refl, true, some, none, [], ◌∷◌, ◌==◌, if◌then◌else◌, pos, ◌-ℤ◌, int64, ltb_ℤ, false,
}
use veloera.Store.Database.{Tables}
use veloera.Store.Example.{in_memory, tables, alice}
use veloera.Quota.World.{World}
use veloera.Billing.Info.{RelayInfo}
use veloera.Billing.Settle.{Charges}
use veloera.Billing.Session.{closed, wss_helper, wss_helper-is_free}
use veloera.Billing.PriceTests.{audio_ratios, audio_usage}
use veloera.Billing.Whole.{whole}
use veloera.Billing.Tests.{batching, misses, info, world, works}

abbrev rich_world : World Tables
rich_world = record world {
  db = record tables {
    users = λ i. if i == 1 then some (record alice { quota = pos 1000 }) else none;
  };
}

abbrev unlimited_info : RelayInfo
unlimited_info = record info { token_unlimited = true }

enough : ltb_ℤ (int64 (pos 1000 -ℤ pos 5)) (pos 0) ≡ false
unfolding int64 ◌-ℤ◌
enough = refl

rich : ltb_ℤ (int64 (pos 500)) (pos 1000) ≡ true
unfolding int64
rich = refl

wss_helper-is_free_example :
    Charges 1 3
      (wss_helper batching
        (pos 0)
        unlimited_info
        true
        whole
        (λ x. x)
        (pos 7)
        misses
        (pos 50)
        (pos 5)
        (closed
          ((misses, pos 20) ∷ (misses, pos 30) ∷ [])
          audio_usage
          audio_ratios
          (pos 2)
          (pos 1)))
      rich_world
      (pos 0)
      (pos 0)
      0
wss_helper-is_free_example =
    wss_helper-is_free whole (λ x. x) (pos 7) batching (pos 0) unlimited_info misses rich_world
      (pos 50) (pos 1000) (pos 5) ((misses, pos 20) ∷ (misses, pos 30) ∷ []) audio_usage
      audio_ratios (pos 2) (pos 1) works refl refl refl enough rich refl
