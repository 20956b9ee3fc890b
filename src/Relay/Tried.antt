-- ===== src/Relay/Tried.antt =====
-- Which channels the loop of `Relay` in controller/relay.go tries, and which errors it reports.
use veloera.Base.{ℕ, ◌+◌, ◌≤◌, Bool, ◌≡◌, Option, some, List, [], ◌∷◌, ◌++◌, map, length, All}
use veloera.Relay.Retry.{RelayError, RelayChannel, RelayState, Round, no_channel, served, failed_on}
use veloera.Relay.Attempts.{answers}

abbrev pub failed_id : RelayChannel × RelayError → ℕ
failed_id (channel, e) = channel.id

module _ {S : Type 0} (is_specific : Bool) (get_channel : ℕ → S → Option RelayChannel × S)
    (attempt : RelayChannel → S → Option RelayError × S) (get_channel_failed : RelayError) where
  -- The error is what the request to the channel came to, in some state.
  abbrev pub Answers : RelayChannel → RelayError → Type 0
  Answers channel e = (s : S) × ((attempt channel s).0 ≡ some e)

  -- What a round adds: a channel tried, and its error if it has one.
  abbrev RoundTried : RelayState S → Round × RelayState S → Type 0
  RoundTried st (no_channel, st') =
      (st'.use_channel ≡ st.use_channel) × (st'.channel_errors ≡ st.channel_errors)
  RoundTried st (served, st') =
      (id : ℕ) × (st'.use_channel ≡ st.use_channel ++ id ∷ [])
      × (st'.channel_errors ≡ st.channel_errors)
  RoundTried st (failed_on channel e, st') =
      (st'.use_channel ≡ st.use_channel ++ channel.id ∷ [])
      × (st'.channel_errors ≡ st.channel_errors ++ (channel, e) ∷ [])
      × Answers channel e

  -- The channels that failed, each with its error, in the order in which they were tried, and
  -- after them the one that answered, if one did; `n` at most.
  pub record Tried (n : ℕ) (st : RelayState S) (r : Option RelayError × RelayState S) : Type 0 where
    pub failures : List (RelayChannel × RelayError)
    pub last : List ℕ
    pub used : r.1.use_channel ≡ st.use_channel ++ (map failed_id failures ++ last)
    pub reported : r.1.channel_errors ≡ st.channel_errors ++ failures
    pub own : All (λ (f : RelayChannel × RelayError). Answers f.0 f.1) failures
    pub few : length failures + length last ≤ n
    pub answered : length last ≡ answers r.0
