-- ===== src/Relay/Attempts.antt =====
-- How often the loop of `Relay` in controller/relay.go tries a channel.
use veloera.Base.{
  ℕ, zero, suc, ◌+◌, ◌≤◌, Bool, true, false, ◌≡◌, refl, Option, none, some, List, [], ◌∷◌, ◌++◌,
  length, length-append, arith, Bool-cases, inl, inr, ◌==◌,
}
use veloera.Relay.Retry.{
  RelayError, RelayChannel, RelayState, Round, no_channel, served, failed_on, should_retry,
  relay_request, report_error, relay_round, relay_loop, relay,
}

-- One for an answer, none for an error.
abbrev pub answers : Option RelayError → ℕ
answers none = 1
answers (some e) = 0

-- The channels tried since, and the errors reported for them.
abbrev pub tried : {S : Type 0} → RelayState S → ℕ
tried st = length st.use_channel

abbrev pub reported : {S : Type 0} → RelayState S → ℕ
reported st = length st.channel_errors

module _ {S : Type 0} (is_specific : Bool) (get_channel : ℕ → S → Option RelayChannel × S)
    (attempt : RelayChannel → S → Option RelayError × S) (get_channel_failed : RelayError) where
  -- How many channels a round tries, and how many errors it reports.
  abbrev RoundCounts : RelayState S → Round × RelayState S → Type 0
  RoundCounts st (no_channel, st') = (tried st' ≡ tried st) × (reported st' ≡ reported st)
  RoundCounts st (served, st') = (tried st' ≡ tried st + 1) × (reported st' ≡ reported st)
  RoundCounts st (failed_on channel e, st') =
      (tried st' ≡ tried st + 1) × (reported st' ≡ reported st + 1)

  relay_round-RoundCounts :
      (i : ℕ) (st : RelayState S)
      → RoundCounts st (relay_round is_specific get_channel attempt get_channel_failed i st)
  unfolding relay_round relay_request report_error
  relay_round-RoundCounts i st = found (get_channel i st.outer)
    where
      one : {A : Type 0} (l : List A) (x : A) → length (l ++ x ∷ []) ≡ length l + 1
      one l x = length-append l (x ∷ [])

      ends :
          (channel : RelayChannel) (r : Option RelayError × S)
          → RoundCounts st (elim r.0 as (λ _. Round × RelayState S) [
            | none ↦
                (served, record st { outer = r.1; use_channel = st.use_channel ++ channel.id ∷ [] })
            | some e ↦ (
              failed_on channel e,
              report_error is_specific get_channel attempt get_channel_failed channel e
                  (record st { outer = r.1; use_channel = st.use_channel ++ channel.id ∷ [] }),
            )
          ])
      ends channel (none, s) = (one st.use_channel channel.id, refl)
      ends channel (some e, s) = (one st.use_channel channel.id, one st.channel_errors (channel, e))

      found :
          (r : Option RelayChannel × S)
          → RoundCounts st (elim r.0 as (λ _. Round × RelayState S) [
            | none ↦ (no_channel, record st { outer = r.1 })
            | some channel ↦
                let (e, st') =
                  relay_request is_specific get_channel attempt get_channel_failed channel
                    (record st { outer = r.1 }) in
                elim e as (λ _. Round × RelayState S) [
                  | none ↦ (served, st')
                  | some e ↦ (
                    failed_on channel e,
                    report_error is_specific get_channel attempt get_channel_failed channel e st',
                  )
                ]
          ])
      found (none, s) = (refl, refl)
      found (some channel, s) = ends channel (attempt channel s)

  -- The counts after the loop: `n` channels at most, one error for each that did not answer.
  abbrev pub LoopCounts : ℕ → RelayState S → Option RelayError × RelayState S → Type 0
  LoopCounts n st r =
      (tried r.1 ≤ tried st + n) × (tried r.1 + reported st ≡ tried st + reported r.1 + answers r.0)

  relay_loop-LoopCounts :
      (left i : ℕ) (st : RelayState S)
      → LoopCounts
          (suc left)
          st
          (relay_loop is_specific get_channel attempt get_channel_failed left i st)
  unfolding relay_loop
  relay_loop-LoopCounts zero i st =
      ends (relay_round is_specific get_channel attempt get_channel_failed i st)
        (relay_round-RoundCounts i st)
    where
      ends :
          (r : Round × RelayState S)
          → RoundCounts st r
          → LoopCounts 1 st (elim r.0 as (λ _. Option RelayError × RelayState S) [
            | no_channel ↦ (some get_channel_failed, r.1)
            | served ↦ (none, r.1)
            | failed_on channel e ↦ (some e, r.1)
          ])
      ends (no_channel, st') h = omega arith
      ends (served, st') h = omega arith
      ends (failed_on channel e, st') h = omega arith
  relay_loop-LoopCounts (suc left) i st =
      ends (λ st'. relay_loop-LoopCounts left (suc i) st')
        (relay_round is_specific get_channel attempt get_channel_failed i st)
        (relay_round-RoundCounts i st)
    where
      again :
          (b : Bool) (e : RelayError) (st' : RelayState S)
          → LoopCounts
              (suc left)
              st'
              (relay_loop is_specific get_channel attempt get_channel_failed left (suc i) st')
          → tried st' ≡ tried st + 1
          → reported st' ≡ reported st + 1
          → LoopCounts (suc (suc left)) st (elim b as (λ _. Option RelayError × RelayState S) [
            | true ↦ relay_loop is_specific get_channel attempt get_channel_failed left (suc i) st'
            | false ↦ (some e, st')
          ])
      again true e st' (a, b) x y = (omega arith, omega arith)
      again false e st' later x y = omega arith

      ends :
          ((st' : RelayState S)
            → LoopCounts
                (suc left)
                st'
                (relay_loop is_specific get_channel attempt get_channel_failed left (suc i) st'))
          → (r : Round × RelayState S) → RoundCounts st r
          → LoopCounts (suc (suc left)) st (elim r.0 as (λ _. Option RelayError × RelayState S) [
            | no_channel ↦ (some get_channel_failed, r.1)
            | served ↦ (none, r.1)
            | failed_on channel e ↦
                elim (should_retry is_specific channel.type e (suc left))
                  as (λ _. Option RelayError × RelayState S) [
                    | true ↦
                        relay_loop is_specific get_channel attempt get_channel_failed left
                          (suc i)
                          r.1
                    | false ↦ (some e, r.1)
                  ]
          ])
      ends later (no_channel, st') h = omega arith
      ends later (served, st') h = omega arith
      ends later (failed_on channel e, st') h =
          again (should_retry is_specific channel.type e (suc left)) e st' (later st') h.0 h.1

specific_once : (type times : ℕ) (e : RelayError) → should_retry true type e times ≡ false
unfolding should_retry
specific_once type times e = elim (Bool-cases e.local_error) [
  | inl local ↦ rw local
  | inr remote ↦ elim (Bool-cases (times == 0)) [
    | inl last ↦ rw (remote, last)
    | inr more ↦ rw (remote, more)
  ]
]

module _ {S : Type 0} (get_channel : ℕ → S → Option RelayChannel × S)
    (attempt : RelayChannel → S → Option RelayError × S) (get_channel_failed : RelayError) where
  -- A request that names its channel is tried at most once, however many retries are configured.
  pub relay-specific_once :
      (retry_times : ℕ) (st : RelayState S)
      → LoopCounts true get_channel attempt get_channel_failed 1 st
          (relay true get_channel attempt get_channel_failed retry_times st)
  unfolding relay relay_loop
  relay-specific_once zero st =
      relay_loop-LoopCounts true get_channel attempt get_channel_failed zero 0 st
  relay-specific_once (suc left) st =
      ends (relay_round true get_channel attempt get_channel_failed 0 st)
        (relay_round-RoundCounts true get_channel attempt get_channel_failed 0 st)
    where
      stops :
          (b : Bool) (e : RelayError) (st' : RelayState S)
          → b ≡ false
          → tried st' ≡ tried st + 1
          → reported st' ≡ reported st + 1
          → LoopCounts true get_channel attempt get_channel_failed 1 st
              (elim b as (λ _. Option RelayError × RelayState S) [
                | true ↦ relay_loop true get_channel attempt get_channel_failed left 1 st'
                | false ↦ (some e, st')
              ])
      stops true e st' no_retry x y = cc
      stops false e st' no_retry x y = omega arith

      ends :
          (r : Round × RelayState S)
          → RoundCounts true get_channel attempt get_channel_failed st r
          → LoopCounts true get_channel attempt get_channel_failed 1 st
              (elim r.0 as (λ _. Option RelayError × RelayState S) [
                | no_channel ↦ (some get_channel_failed, r.1)
                | served ↦ (none, r.1)
                | failed_on channel e ↦
                    elim (should_retry true channel.type e (suc left))
                      as (λ _. Option RelayError × RelayState S) [
                        | true ↦ relay_loop true get_channel attempt get_channel_failed left 1 r.1
                        | false ↦ (some e, r.1)
                      ]
              ])
      ends (no_channel, st') h = omega arith
      ends (served, st') h = omega arith
      ends (failed_on channel e, st') h =
          stops (should_retry true channel.type e (suc left)) e st'
            (specific_once channel.type (suc left) e) h.0 h.1
