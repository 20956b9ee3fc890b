-- ===== src/Relay/Retry.antt =====
-- controller/relay.go: `shouldRetry`, `shouldRetryTaskRelay` and the loop of `Relay`. What a channel
-- makes of a request, and which channel a retry gets, are parameters; both may change the state `S`.
use veloera.Base.{
  ℕ, zero, suc, ◌/◌, String, Bool, true, false, not, ◌||◌, if◌then◌else◌, ◌==◌, Option, none, some,
  List, [], ◌∷◌, ◌++◌,
}

-- `OpenAIErrorWithStatusCode` of dto/error.go. The code is compared with strings only.
pub record RelayError : Type 0 where
  pub message : String
  pub kind : String
  pub code : String
  pub status_code : ℕ
  pub local_error : Bool

-- The fields of a channel that the loop reads.
pub record RelayChannel : Type 0 where
  pub id : ℕ
  pub type : ℕ
  pub auto_ban : Bool

abbrev pub channel_type_anthropic : ℕ
channel_type_anthropic = 14

-- `shouldRetry` on an error, with `specific_channel_id` set or not and the times that are left.
unfoldable pub should_retry : Bool → ℕ → RelayError → ℕ → Bool
should_retry is_specific channel_type e retry_times =
    if e.local_error
    then false
    else if retry_times == 0
    then false
    else if is_specific
    then false
    else if e.status_code == 429
    then true
    else if e.status_code == 307
    then true
    else if e.status_code / 100 == 5
    then not (e.status_code == 504 || e.status_code == 524)
    else if e.status_code == 400
    then channel_type == channel_type_anthropic
    else if e.status_code == 408
    then false
    else not (e.status_code / 100 == 2)

-- `shouldRetryTaskRelay`: the local errors come last.
unfoldable pub should_retry_task_relay : Bool → RelayError → ℕ → Bool
should_retry_task_relay is_specific e retry_times =
    if retry_times == 0
    then false
    else if is_specific
    then false
    else if e.status_code == 429
    then true
    else if e.status_code == 307
    then true
    else if e.status_code / 100 == 5
    then not (e.status_code == 504 || e.status_code == 524)
    else if e.status_code == 400
    then false
    else if e.status_code == 408
    then false
    else if e.local_error
    then false
    else not (e.status_code / 100 == 2)

-- The state around the loop, `use_channel` of the context, and the goroutines
-- `processChannelError` that were started.
pub record RelayState (S : Type 0) : Type 0 where
  pub outer : S
  pub use_channel : List ℕ
  pub channel_errors : List (RelayChannel × RelayError)

-- How a round of the loop ends.
pub data Round : Type 0 where
  no_channel : Round
  served : Round
  failed_on : RelayChannel → RelayError → Round

module _ {S : Type 0} (is_specific : Bool) (get_channel : ℕ → S → Option RelayChannel × S)
    (attempt : RelayChannel → S → Option RelayError × S) (get_channel_failed : RelayError) where
  -- `addUsedChannel`, then the request itself.
  unfoldable pub relay_request : RelayChannel → RelayState S → Option RelayError × RelayState S
  relay_request channel st =
      let (e, outer) = attempt channel st.outer in
      (e, record st { outer = outer; use_channel = st.use_channel ++ channel.id ∷ [] })

  unfoldable pub report_error : RelayChannel → RelayError → RelayState S → RelayState S
  report_error channel e st = record st { channel_errors = st.channel_errors ++ (channel, e) ∷ [] }

  -- One round: the channel, the request, and the goroutine for its error.
  unfoldable pub relay_round : ℕ → RelayState S → Round × RelayState S
  unfolding relay_request report_error
  relay_round i st =
      let (found, outer) = get_channel i st.outer in
      elim found [
        | none ↦ (no_channel, record st { outer = outer })
        | some channel ↦
            let (e, st') = relay_request channel (record st { outer = outer }) in
            elim e [
              | none ↦ (served, st')
              | some e ↦ (failed_on channel e, report_error channel e st')
            ]
      ]

  -- The loop, from the round `i` with `left` rounds after it; an error, or none.
  unfoldable pub relay_loop : ℕ → ℕ → RelayState S → Option RelayError × RelayState S
  unfolding relay_round
  relay_loop zero i st =
      let (round, st') = relay_round i st in
      elim round [
        | no_channel ↦ (some get_channel_failed, st')
        | served ↦ (none, st')
        | failed_on channel e ↦ (some e, st')
      ]
  relay_loop (suc left) i st =
      let (round, st') = relay_round i st in
      elim round [
        | no_channel ↦ (some get_channel_failed, st')
        | served ↦ (none, st')
        | failed_on channel e ↦ elim (should_retry is_specific channel.type e (suc left)) [
          | true ↦ relay_loop left (suc i) st'
          | false ↦ (some e, st')
        ]
      ]

  -- The loop of `Relay`, with `common.RetryTimes`.
  unfoldable pub relay : ℕ → RelayState S → Option RelayError × RelayState S
  unfolding relay_loop
  relay retry_times st = relay_loop retry_times 0 st
