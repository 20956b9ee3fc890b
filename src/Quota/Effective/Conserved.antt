-- ===== src/Quota/Effective/Conserved.antt =====
-- `batchUpdate` of model/utils.go conserves the abstract view of the accounts.
use mathlib.Core.Option
use veloera.Base.{ℕ, ◌≡◌, refl, ◌∙◌, ap, [], ℤ, ◌+ℤ◌, ◌-ℤ◌, int_laws}
use veloera.Base.Dict.{lookup}
use veloera.Store.Rows.{User, Token, ChannelUsage}
use veloera.Store.Database.{Database, Tables}
use veloera.Quota.World.{
  BatchUpdateType, type_user_quota, type_token_quota, type_used_quota, type_channel_used_quota,
  type_request_count, World, Stores,
}
use veloera.Quota.Batch.{flush, batch_update, store_of, with_store}
use veloera.Quota.Effective.{pending}
use veloera.Quota.Effective.Flush.{
  IsMap, Works, changes, rows_after-moved, rows_after-same, add_quota, add_used, add_requests,
  add_token, add_channel, flush_entries-Writes,
}

-- The counters of all accounts agree.
pub record SameCounters (tb : Tables) (st : Stores) (tb' : Tables) (st' : Stores) (j : ℕ)
    : Type 0 where
  pub balance :
      Option.map (λ (u : User). u.quota +ℤ pending st'.user_quota j) (tb'.users j)
      ≡ Option.map (λ (u : User). u.quota +ℤ pending st.user_quota j) (tb.users j)
  pub used :
      Option.map (λ (u : User). u.used_quota +ℤ pending st'.used_quota j) (tb'.users j)
      ≡ Option.map (λ (u : User). u.used_quota +ℤ pending st.used_quota j) (tb.users j)
  pub requests :
      Option.map (λ (u : User). u.request_count +ℤ pending st'.request_count j) (tb'.users j)
      ≡ Option.map (λ (u : User). u.request_count +ℤ pending st.request_count j) (tb.users j)
  pub remain :
      Option.map (λ (t : Token). t.remain_quota +ℤ pending st'.token_quota j) (tb'.tokens j)
      ≡ Option.map (λ (t : Token). t.remain_quota +ℤ pending st.token_quota j) (tb.tokens j)
  pub spent :
      Option.map (λ (t : Token). t.used_quota -ℤ pending st'.token_quota j) (tb'.tokens j)
      ≡ Option.map (λ (t : Token). t.used_quota -ℤ pending st.token_quota j) (tb.tokens j)
  pub channel :
      Option.map
        (λ (c : ChannelUsage). c.used_quota +ℤ pending st'.channel_used_quota j)
        (tb'.channels j)
      ≡ Option.map
          (λ (c : ChannelUsage). c.used_quota +ℤ pending st.channel_used_quota j)
          (tb.channels j)

SameCounters-trans :
    {a b c : Tables} {s t u : Stores} {j : ℕ}
    → SameCounters a s b t j
    → SameCounters b t c u j
    → SameCounters a s c u j
SameCounters-trans p q = record {
  balance = q.balance ∙ p.balance;
  used = q.used ∙ p.used;
  requests = q.requests ∙ p.requests;
  remain = q.remain ∙ p.remain;
  spent = q.spent ∙ p.spent;
  channel = q.channel ∙ p.channel;
}

changes-SameCounters :
    (now : ℤ) (type : BatchUpdateType) (tb : Tables) (st : Stores) (j : ℕ)
    → IsMap (store_of type st)
    → SameCounters tb st (changes now type (store_of type st) tb) (with_store type [] st) j
unfolding lookup
changes-SameCounters now type_user_quota tb st j m = record {
  balance =
      rows_after-moved (λ q (u : User). u.quota +ℤ q) add_quota st.user_quota tb.users j
        (λ v r. omega int_laws) m;
  used =
      rows_after-same (λ q (u : User). u.used_quota +ℤ q) add_quota st.user_quota tb.users j
        (pending st.used_quota j) (λ v r. refl);
  requests =
      rows_after-same (λ q (u : User). u.request_count +ℤ q) add_quota st.user_quota tb.users j
        (pending st.request_count j) (λ v r. refl);
  remain = refl;
  spent = refl;
  channel = refl;
}
changes-SameCounters now type_token_quota tb st j m = record {
  balance = refl;
  used = refl;
  requests = refl;
  remain =
      rows_after-moved (λ q (t : Token). t.remain_quota +ℤ q) (add_token now) st.token_quota
        tb.tokens j (λ v r. omega int_laws) m;
  spent =
      rows_after-moved (λ q (t : Token). t.used_quota -ℤ q) (add_token now) st.token_quota tb.tokens
        j (λ v r. omega int_laws) m;
  channel = refl;
}
changes-SameCounters now type_used_quota tb st j m = record {
  balance =
      rows_after-same (λ q (u : User). u.quota +ℤ q) add_used st.used_quota tb.users j
        (pending st.user_quota j) (λ v r. refl);
  used =
      rows_after-moved (λ q (u : User). u.used_quota +ℤ q) add_used st.used_quota tb.users j
        (λ v r. omega int_laws) m;
  requests =
      rows_after-same (λ q (u : User). u.request_count +ℤ q) add_used st.used_quota tb.users j
        (pending st.request_count j) (λ v r. refl);
  remain = refl;
  spent = refl;
  channel = refl;
}
changes-SameCounters now type_request_count tb st j m = record {
  balance =
      rows_after-same (λ q (u : User). u.quota +ℤ q) add_requests st.request_count tb.users j
        (pending st.user_quota j) (λ v r. refl);
  used =
      rows_after-same (λ q (u : User). u.used_quota +ℤ q) add_requests st.request_count tb.users j
        (pending st.used_quota j) (λ v r. refl);
  requests =
      rows_after-moved (λ q (u : User). u.request_count +ℤ q) add_requests st.request_count tb.users
        j (λ v r. omega int_laws) m;
  remain = refl;
  spent = refl;
  channel = refl;
}
changes-SameCounters now type_channel_used_quota tb st j m = record {
  balance = refl;
  used = refl;
  requests = refl;
  remain = refl;
  spent = refl;
  channel =
      rows_after-moved (λ q (c : ChannelUsage). c.used_quota +ℤ q) add_channel st.channel_used_quota
        tb.channels j (λ v r. omega int_laws) m;
}

module _ ⦃d : Database⦄ (works : Works) (now : ℤ) where
  -- The counters of two worlds agree.
  abbrev pub SameAccounts : World d.State → World d.State → ℕ → Type 0
  SameAccounts w w' = SameCounters (d.view w.db) w.stores (d.view w'.db) w'.stores

  flush-stores :
      (type : BatchUpdateType) (w : World d.State)
      → (flush now type w).stores ≡ with_store type [] w.stores
  unfolding flush
  flush-stores type w =
      (flush_entries-Writes works now type (store_of type w.stores)
        (record w { stores = with_store type [] w.stores })).1

  flush-SameAccounts :
      (type : BatchUpdateType) (w : World d.State) (j : ℕ)
      → IsMap (store_of type w.stores)
      → SameAccounts w (flush now type w) j
  unfolding flush
  flush-SameAccounts type w j m =
      let (v, s) =
        flush_entries-Writes works now type (store_of type w.stores)
          (record w { stores = with_store type [] w.stores }) in
      rw (v, s) (changes-SameCounters now type (d.view w.db) w.stores j m)

-- The maps of the updater have each key once.
pub record AreMaps (st : Stores) : Type 0 where
  pub user_quota : IsMap st.user_quota
  pub token_quota : IsMap st.token_quota
  pub used_quota : IsMap st.used_quota
  pub channel_used_quota : IsMap st.channel_used_quota
  pub request_count : IsMap st.request_count

abbrev pub no_stores : Stores
no_stores = record {
  user_quota = [];
  token_quota = [];
  used_quota = [];
  channel_used_quota = [];
  request_count = [];
}

-- `batchUpdate` leaves every balance, used quota and request count of a user, what remains and what
-- is used of a token, and the used quota of a channel as they were, each with what is pending for
-- it, and leaves nothing pending, if every statement succeeds and the updater's maps have each key
-- once.
pub batch_update-conserves :
    ⦃d : Database⦄ (now : ℤ) (w : World d.State) (j : ℕ)
    → Works
    → AreMaps w.stores
    → SameCounters
        (d.view w.db)
        w.stores
        (d.view (batch_update now w).db)
        (batch_update now w).stores
        j
      × ((batch_update now w).stores ≡ no_stores)
unfolding batch_update
batch_update-conserves ⦃d⦄ now w j works maps =
    let w1 : World d.State = flush now type_user_quota w in
    let w2 : World d.State = flush now type_token_quota w1 in
    let w3 : World d.State = flush now type_used_quota w2 in
    let w4 : World d.State = flush now type_channel_used_quota w3 in
    let s1 : w1.stores ≡ with_store type_user_quota [] w.stores =
      flush-stores works now type_user_quota w in
    let s2 : w2.stores ≡ with_store type_token_quota [] (with_store type_user_quota [] w.stores) =
      flush-stores works now type_token_quota w1 ∙ ap (with_store type_token_quota []) s1 in
    let s3 : w3.stores
        ≡ with_store type_used_quota []
            (with_store type_token_quota [] (with_store type_user_quota [] w.stores)) =
      flush-stores works now type_used_quota w2 ∙ ap (with_store type_used_quota []) s2 in
    let s4 : w4.stores
        ≡ with_store type_channel_used_quota [] (
            with_store type_used_quota []
              (with_store type_token_quota [] (with_store type_user_quota [] w.stores))) =
      flush-stores works now type_channel_used_quota w3
      ∙ ap (with_store type_channel_used_quota []) s3 in
    (
      SameCounters-trans (flush-SameAccounts works now type_user_quota w j maps.user_quota) (
          SameCounters-trans
            (flush-SameAccounts works now type_token_quota w1 j (rw s1 maps.token_quota))
            (SameCounters-trans
              (flush-SameAccounts works now type_used_quota w2 j (rw s2 maps.used_quota))
              (SameCounters-trans
                (flush-SameAccounts works now type_channel_used_quota w3 j
                  (rw s3 maps.channel_used_quota))
                (flush-SameAccounts works now type_request_count w4 j
                  (rw s4 maps.request_count))))),
      flush-stores works now type_request_count w4 ∙ ap (with_store type_request_count []) s4,
    )
