-- ===== src/Auth/Session.antt =====
-- middleware/auth.go: `validUserInfo` and `authHelper`. The functions of packages strings and
-- strconv and the look-up of an access token are parameters. Session values may be missing, as with `nil`.
use veloera.Base.{
  String, Bool, true, false, not, ◌&&◌, ◌||◌, if◌then◌else◌, Option, none, some, ℤ, pos, ltb_ℤ,
  eqb_ℤ,
}
use text.Mathlib.Text.{◌==◌ as str_eq}

-- The session's values, or those of the user of an access token.
pub record Identity : Type 0 where
  pub username : String
  pub role : Option ℤ
  pub id : Option ℤ
  pub status : Option ℤ
  pub use_access_token : Bool

pub record AuthRequest : Type 0 where
  pub session_username : Option String
  pub session_role : Option ℤ
  pub session_id : Option ℤ
  pub session_status : Option ℤ
  pub authorization : String
  pub veloera_user : String

-- A user as `ValidateAccessToken` finds it.
pub record AccessUser : Type 0 where
  pub username : String
  pub role : ℤ
  pub id : ℤ
  pub status : ℤ

pub data Refusal : Type 0 where
  not_logged_in user_info_invalid access_token_invalid no_user_header bad_user_header : Refusal
  user_mismatch user_banned role_too_low : Refusal

pub data AuthResult : Type 0 where
  admitted : Identity → AuthResult
  refused : Refusal → AuthResult
  -- A type assertion on a missing session value.
  panicked : AuthResult

pub record Strings : Type 0 where
  pub trim_space : String → String
  pub atoi : String → Option ℤ
  -- `strings.Replace(token, "Bearer ", "", 1)`
  pub remove_bearer : String → String

abbrev pub user_status_disabled : ℤ
user_status_disabled = pos 2

-- `IsValidateRole` of common/constants.go.
unfoldable pub is_validate_role : ℤ → Bool
is_validate_role role =
    eqb_ℤ role (pos 0) || eqb_ℤ role (pos 1) || eqb_ℤ role (pos 10) || eqb_ℤ role (pos 100)

module _ (strings : Strings) where
  unfoldable pub valid_user_info : String → ℤ → Bool
  unfolding is_validate_role
  valid_user_info username role =
      not (str_eq (strings.trim_space username) "") && is_validate_role role

  -- The checks of the status and of the role.
  unfoldable pub check_role : ℤ → Identity → ℤ → ℤ → AuthResult
  unfolding valid_user_info
  check_role min_role identity status role =
      if eqb_ℤ status user_status_disabled
      then refused user_banned
      else if ltb_ℤ role min_role
      then refused role_too_low
      else if not (valid_user_info identity.username role)
      then refused user_info_invalid
      else admitted identity

  -- The type assertions. `status.(int)` comes first.
  unfoldable pub check_asserted : ℤ → Identity → Option ℤ → Option ℤ → AuthResult
  unfolding check_role
  check_asserted min_role identity none role = panicked
  check_asserted min_role identity (some status) none =
      if eqb_ℤ status user_status_disabled then refused user_banned else panicked
  check_asserted min_role identity (some status) (some role) =
      check_role min_role identity status role

  -- `id != apiUserId`: a missing id differs from every number.
  unfoldable pub same_id : Option ℤ → ℤ → Bool
  same_id none n = false
  same_id (some id) n = eqb_ℤ id n

  -- The checks after the identity is known.
  unfoldable pub check_identity : ℤ → Identity → String → AuthResult
  unfolding check_asserted same_id
  check_identity min_role identity veloera_user =
      if str_eq veloera_user "" then refused no_user_header else elim (strings.atoi veloera_user) [
        | none ↦ refused bad_user_header
        | some n ↦
            if not (same_id identity.id n)
            then refused user_mismatch
            else check_asserted min_role identity identity.status identity.role
      ]

  unfoldable pub access_identity : AccessUser → Identity
  access_identity u = record {
    username = u.username;
    role = some u.role;
    id = some u.id;
    status = some u.status;
    use_access_token = true;
  }

  -- The branch without a session: the user of the access token.
  unfoldable pub check_access_token : ℤ → Option AccessUser → String → AuthResult
  unfolding check_identity valid_user_info access_identity
  check_access_token min_role none veloera_user = refused access_token_invalid
  check_access_token min_role (some u) veloera_user =
      if str_eq u.username ""
      then refused access_token_invalid
      else if not (valid_user_info u.username u.role)
      then refused user_info_invalid
      else check_identity min_role (access_identity u) veloera_user

  -- `ValidateAccessToken` of model/user.go, with the statement that finds the one user of a token.
  unfoldable pub validate_access_token :
      (find_user : String → Option AccessUser) → String → Option AccessUser
  validate_access_token find_user token =
      if str_eq token "" then none else find_user (strings.remove_bearer token)

  -- `authHelper`
  unfoldable pub auth_helper :
      (find_user : String → Option AccessUser) → ℤ → AuthRequest → AuthResult
  unfolding check_access_token check_identity validate_access_token
  auth_helper find_user min_role r = elim r.session_username [
    | some username ↦
        check_identity min_role
          (record {
            username = username;
            role = r.session_role;
            id = r.session_id;
            status = r.session_status;
            use_access_token = false;
          })
          r.veloera_user
    | none ↦
        if str_eq r.authorization ""
        then refused not_logged_in
        else check_access_token min_role (validate_access_token find_user r.authorization)
            r.veloera_user
  ]
