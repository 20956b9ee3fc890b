-- ===== src/Billing/Usage.antt =====
-- The counts of what was used, `UpdateUserUsedQuotaAndRequestCount` and `UpdateChannelUsedQuota`,
-- charge nobody.
use veloera.Base.{ℕ, ◌≡◌, refl, ℤ, pos, ◌+ℤ◌, ◌-ℤ◌, int_laws, Bool-cases, inl, inr}
use veloera.Store.Rows.{User, ChannelUsage}
use veloera.Store.Database.{Database}
use veloera.Quota.World.{World, Config, Result, exec, exec-induction, or_log}
use veloera.Quota.Batch.{
  add_new_record, db_update_user_used_quota_and_request_count, db_update_channel_used_quota,
}
use veloera.Quota.Users.{update_user_used_quota_and_request_count, update_channel_used_quota}
use veloera.Quota.Effective.{user_balance, token_remain, token_used}
use veloera.Quota.Effective.Users.{UserMoves, db_update-UserMoves, Moves-zero}
use veloera.Billing.Charged.{Charged, Charged-same, Near-more}
use veloera.Billing.Settle.{Charges}

module _ ⦃d : Database⦄ (uid tid : ℕ) where
  logged_user-Charges :
      (f : User → User) (w : World d.State)
      → ((u : User) → (f u).quota ≡ u.quota +ℤ pos 0)
      → Charges uid tid (or_log (exec (d.update_user uid f))) w (pos 0) (pos 0) 0
  unfolding ◌-ℤ◌
  logged_user-Charges f w same = (refl, charged (db_update-UserMoves w uid f (pos 0) same))
    where
      charged :
          UserMoves w.db w.stores uid (pos 0) (exec (d.update_user uid f) w)
          → Charged uid tid w (exec (d.update_user uid f) w).1 (pos 0) (pos 0) 0
      charged =
          exec-induction
            (λ (r : Result (Unit {0}) × World d.State).
              UserMoves w.db w.stores uid (pos 0) r → Charged uid tid w r.1 (pos 0) (pos 0) 0)
            (d.update_user uid f) w (λ _ _. Charged-same uid tid 0 refl refl refl)
            λ t e m. record {
              user = m.0;
              remain = λ j. rw (m.1 j).0 (Moves-zero (token_remain w.db w.stores j) tid j);
              used = λ j. rw (m.1 j).1 (Moves-zero (token_used w.db w.stores j) tid j);
              drift = λ n calm small. (
                Near-more w.stores.user_quota uid n 0 calm.0,
                Near-more w.stores.token_quota tid n 0 calm.1,
              );
            }

  logged_channel-Charges :
      (id : ℕ) (f : ChannelUsage → ChannelUsage) (w : World d.State)
      → Charges uid tid (or_log (exec (d.update_channel id f))) w (pos 0) (pos 0) 0
  unfolding ◌-ℤ◌
  logged_channel-Charges id f w = (
    refl,
    exec-induction
        (λ (r : Result (Unit {0}) × World d.State). Charged uid tid w r.1 (pos 0) (pos 0) 0)
        (d.update_channel id f) w (λ _. Charged-same uid tid 0 refl refl refl)
        λ t e. record {
          user = λ j.
              rw (d.update_channel-view id f w.db e)
                (Moves-zero (user_balance w.db w.stores j) uid j);
          remain = λ j.
              rw (d.update_channel-view id f w.db e)
                (Moves-zero (token_remain w.db w.stores j) tid j);
          used = λ j.
              rw (d.update_channel-view id f w.db e)
                (Moves-zero (token_used w.db w.stores j) tid j);
          drift = λ n calm small. (
            Near-more w.stores.user_quota uid n 0 calm.0,
            Near-more w.stores.token_quota tid n 0 calm.1,
          );
        },
  )

  pub update_user_used_quota_and_request_count-Charges :
      (c : Config) (q : ℤ) (w : World d.State)
      → Charges uid tid (update_user_used_quota_and_request_count c uid q) w (pos 0) (pos 0) 0
  unfolding update_user_used_quota_and_request_count add_new_record
      db_update_user_used_quota_and_request_count
  update_user_used_quota_and_request_count-Charges c q w =
      elim (Bool-cases c.batch_update_enabled) [
        | inl batched ↦ rw batched (refl, Charged-same uid tid 0 refl refl refl)
        | inr plain ↦ rw plain (logged_user-Charges _ w (λ u. omega int_laws))
      ]

  pub update_channel_used_quota-Charges :
      (c : Config) (id : ℕ) (q : ℤ) (w : World d.State)
      → Charges uid tid (update_channel_used_quota c id q) w (pos 0) (pos 0) 0
  unfolding update_channel_used_quota add_new_record db_update_channel_used_quota
  update_channel_used_quota-Charges c id q w = elim (Bool-cases c.batch_update_enabled) [
    | inl batched ↦ rw batched (refl, Charged-same uid tid 0 refl refl refl)
    | inr plain ↦ rw plain (logged_channel-Charges id _ w)
  ]
