-- ===== src/Auth/Tests.antt =====
-- An administrator's session, and a token that may be used.
use veloera.Base.{◌≡◌, refl, false, none, some, [], pos, Option, String, if◌then◌else◌}
use text.Mathlib.Text.{◌==◌ as str_eq}
use veloera.Store.Database.{Tables}
use veloera.Store.Example.{in_memory, tables, alice_token}
use veloera.Quota.World.{World, Config, ok}
use veloera.Quota.Effective.Conserved.{no_stores}
use veloera.Billing.Info.{CacheAnswers}
use veloera.Billing.Lookup.{get_token_by_key}
use veloera.Billing.Reads.{Unchanged}
use veloera.Auth.Session.{Strings, AuthRequest, AccessUser, Identity, auth_helper}
use veloera.Auth.Access.{IsAuthorised, IsIdentity, auth_helper-admits}
use veloera.Auth.Token.{IsUsable, validate_user_token, validate_user_token-IsUsable}

abbrev strings : Strings
strings = record {
  trim_space = λ s. s;
  atoi = λ s. if str_eq s "7" then some (pos 7) else none;
  remove_bearer = λ s. s;
}

abbrev request : AuthRequest
request = record {
  session_username = some "root";
  session_role = some (pos 100);
  session_id = some (pos 7);
  session_status = some (pos 1);
  authorization = "";
  veloera_user = "7";
}

abbrev root : Identity
root = record {
  username = "root";
  role = some (pos 100);
  id = some (pos 7);
  status = some (pos 1);
  use_access_token = false;
}

abbrev nobody : String → Option AccessUser
nobody s = none

auth_helper-admits_example :
    IsAuthorised strings (pos 10) "7" root × IsIdentity strings nobody request root
unfolding auth_helper
auth_helper-admits_example = auth_helper-admits strings (pos 10) nobody request root refl

abbrev plain : Config
plain = record { batch_update_enabled = false; redis_enabled = false }

abbrev misses : CacheAnswers
misses = record { user_quota = none; token = none }

abbrev world : World Tables
world = record { db = tables; stores = no_stores; jobs = [] }

validate_user_token-IsUsable_example :
    ((get_token_by_key plain misses "sk" world).0 ≡ ok alice_token)
    × IsUsable (pos 0) alice_token
    × Unchanged world (validate_user_token plain (pos 0) misses "sk" world).1
unfolding validate_user_token get_token_by_key
validate_user_token-IsUsable_example =
    validate_user_token-IsUsable plain (pos 0) misses "sk" world alice_token refl
