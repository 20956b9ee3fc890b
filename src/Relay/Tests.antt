-- ===== src/Relay/Tests.antt =====
-- Two channels that fail and one that answers.
use veloera.Base.{
  ◌≡◌, ◌≢◌, refl, ℕ, Bool, true, false, suc, Option, none, some, [], ◌∷◌, if◌then◌else◌, ◌==◌,
}
use text.Mathlib.Text.{◌==◌ as str_eq}
use veloera.Relay.Mode.{
  path_to_relay_mode_midjourney, midjourney_simple_change, simple_change-unreachable,
}
use veloera.Relay.Retry.{RelayError, RelayChannel, RelayState, should_retry, relay}
use veloera.Relay.Attempts.{LoopCounts, relay-specific_once}
use veloera.Relay.Tried.{Tried}

abbrev error_of : ℕ → Bool → RelayError
error_of status is_local = record {
  message = "";
  kind = "";
  code = "invalid_api_key";
  status_code = status;
  local_error = is_local;
}

abbrev channel : ℕ → RelayChannel
channel i = record { id = i; type = 1; auto_ban = true }

-- The channels 10, 11, …; the first two answer 429 and 503, the third answers.
abbrev pick : ℕ → ℕ → Option RelayChannel × ℕ
pick i n = (some (channel n), suc n)

abbrev ask : RelayChannel → ℕ → Option RelayError × ℕ
ask c n =
    if c.id == 10
    then (some (error_of 429 false), n)
    else if c.id == 11
    then (some (error_of 503 false), n)
    else (none, n)

abbrev start : RelayState ℕ
start = record { outer = 10; use_channel = []; channel_errors = [] }

third_answers :
    let (e, st) = relay false pick ask (error_of 500 true) 5 start in
    (e ≡ none) × (st.use_channel ≡ 10 ∷ 11 ∷ 12 ∷ [])
unfolding relay should_retry
third_answers = (refl, refl)

relay-specific_once_example :
    LoopCounts true pick ask
      (error_of 500 true)
      1
      start
      (relay true pick ask (error_of 500 true) 5 start)
relay-specific_once_example = relay-specific_once pick ask (error_of 500 true) 5 start

simple_change-unreachable_example :
    path_to_relay_mode_midjourney str_eq str_eq str_eq "/mj/submit/simple-change"
    ≢ midjourney_simple_change
simple_change-unreachable_example =
    simple_change-unreachable str_eq str_eq str_eq "/mj/submit/simple-change"
