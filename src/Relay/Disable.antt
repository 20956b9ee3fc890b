-- ===== src/Relay/Disable.antt =====
-- service/channel.go: `ShouldDisableChannel` and `ShouldEnableChannel`. The search for keywords in
-- the lower-cased message is a parameter.
use veloera.Base.{
  ℕ, String, Bool, true, false, not, ◌&&◌, ◌||◌, if◌then◌else◌, ◌==◌, Option, none, some, List, [],
  ◌∷◌,
}
use text.Mathlib.Text.{◌==◌ as str_eq}
use veloera.Relay.Retry.{RelayError, RelayChannel}

abbrev pub channel_type_gemini : ℕ
channel_type_gemini = 24

abbrev pub is_one_of : String → List String → Bool
is_one_of s [] = false
is_one_of s (t ∷ ts) = str_eq s t || is_one_of s ts

abbrev pub disabling_codes : List String
disabling_codes = "invalid_api_key" ∷ "account_deactivated" ∷ "billing_not_active" ∷ []

abbrev pub disabling_types : List String
disabling_types =
    "insufficient_quota" ∷ "insufficient_user_quota" ∷ "authentication_error" ∷ "permission_error"
    ∷ "forbidden" ∷ []

-- `ShouldDisableChannel`, with `AutomaticDisableChannelEnabled`.
unfoldable pub should_disable_channel :
    (has_keyword : String → Bool) → Bool → ℕ → Option RelayError → Bool
should_disable_channel has_keyword is_enabled channel_type none = false
should_disable_channel has_keyword is_enabled channel_type (some e) =
    if not is_enabled
    then false
    else if e.local_error
    then false
    else if e.status_code == 401
    then true
    else if e.status_code == 403 && channel_type == channel_type_gemini
    then true
    else if is_one_of e.code disabling_codes
    then true
    else if is_one_of e.kind disabling_types
    then true
    else has_keyword e.message

-- `ShouldEnableChannel`, with `AutomaticEnableChannelEnabled`, on a test's error, its error with a
-- status and the channel's status.
unfoldable pub should_enable_channel : Bool → Bool → Bool → ℕ → Bool
should_enable_channel is_enabled has_error has_status_error status =
    if not is_enabled
    then false
    else if has_error
    then false
    else if has_status_error
    then false
    else status == 3

-- The test in `processChannelError`.
unfoldable pub disables : (has_keyword : String → Bool) → Bool → RelayChannel → RelayError → Bool
unfolding should_disable_channel
disables has_keyword is_enabled channel e =
    should_disable_channel has_keyword is_enabled channel.type (some e) && channel.auto_ban
