-- ===== src/Auth.antt =====
-- internal/service/auth/service.go: Login, Register, Logout and GetSession. The legacy system, the
-- session store, the local accounts, the clock and the source of random tokens are reached by
-- calls; `has_provisioner` says whether the service has local accounts.
pub mod Sessions
pub mod Provisioning
mod Tests
use dante_api_systems.Base.{
  ℕ, ◌≤◌, Bool, ◌&&◌, true, false, not, Option, none, some, String, str_eq, min, ltb, if◌then◌else◌,
}
use dante_api_systems.Base.Int.{ℤ, pos, negsuc, sub_ℕ, leb_ℤ}
use dante_api_systems.Go.Errors.{
  Error, sentinel, operation_error, wrap, is, no_rows, redis_nil, invalid_credentials,
  email_already_registered, invalid_token, expired_session, failure, syntax_error, type_error,
}
use dante_api_systems.Go.Exec.{Reply, answer, error, Exec, ask, pure, fail, annotate, ◌>>=◌}
use dante_api_systems.Models.{Uuid, Time, User, Account, CreateUserParams, CreateAccountParams}
use dante_api_systems.Views.{SessionView, SessionEntry, RegisterResult, LoginResult, AccountProfile}
use dante_api_systems.Go.Strings.{contains_upper}
use Prim.Native.String.{◌++◌}

pub record LoginResponse : Type 0 where
  pub token : String
  pub customer_id : String
  pub account_id : String
  pub legacy_account_id : String
  pub account_number : String
  pub customer_name : String
  pub expires_at : Time

-- `random_hex` is 24 random bytes in hexadecimal.
pub data Call : Type 0 where
  legacy_register : String → String → String → String → Call
  legacy_login : String → String → Call
  legacy_logout : String → Call
  get_account_profile : String → String → Call
  get_session : String → Call
  set_session : SessionEntry → ℤ → Call
  delete_session : String → Call
  get_user_by_phone_number : Option String → Call
  create_user : CreateUserParams → Call
  get_account_by_number : String → Call
  create_account : CreateAccountParams → Call
  random_hex : Call
  now : Call

abbrev pub Response : Call → Type 0
Response (legacy_register name email password pin) = Reply RegisterResult
Response (legacy_login email password) = Reply LoginResult
Response (get_account_profile account password) = Reply AccountProfile
Response (get_session token) = Reply SessionEntry
Response (get_user_by_phone_number phone) = Reply User
Response (create_user params) = Reply User
Response (get_account_by_number account_number) = Reply Account
Response (create_account params) = Reply Account
Response random_hex = Reply String
Response now = Time
Response _ = Reply (Unit {0})

abbrev pub Action : Type 0 → Type 0
Action A = Exec Response A

-- legacy.IsInvalidCredentials, IsInvalidSession and IsEmailExists: the error or one that it wraps
-- is an OperationError whose response, in
-- capitals, contains the wanted text.
abbrev pub has_response : Error → String → Bool
has_response (operation_error op response) wanted = contains_upper response wanted
has_response (wrap text e) wanted = has_response e wanted
has_response _ wanted = false

-- `Sub` of two times: a duration stops at the ends of int64.
abbrev saturated : ℤ → ℤ
saturated (pos n) = pos (min n 9223372036854775807)
saturated (negsuc n) = negsuc (min n 9223372036854775807)

abbrev pub duration : Time → Time → ℤ
duration expires at = saturated (sub_ℕ expires at)

abbrev zero_account : Account
zero_account = record { id = 0; user_id = 0; account_number = ""; balance = pos 0; created_at = 0 }

abbrev pub lookup_key : String → Option String
lookup_key customer_id = if str_eq customer_id "" then none else some customer_id

abbrev account_reloaded : Error → Reply Account → Action Account
account_reloaded create_error (answer account) = pure account
account_reloaded create_error (error e) = fail create_error

module _ (name account_number : String) where
  -- Another request may have created the account in the meantime.
  abbrev account_created : Reply Account → Action Account
  account_created (answer account) = pure account
  account_created (error e) = do
    again ← ask (get_account_by_number account_number)
    account_reloaded e again

  abbrev create_for : User → Action Account
  create_for user = do
    made ← ask (
        create_account
          (record { user_id = user.id; account_number = account_number; balance = pos 0 }))
    account_created made

  abbrev user_reloaded : Reply User → Action Account
  user_reloaded (answer user) = create_for user
  user_reloaded (error e) = fail e

  abbrev user_created : Option String → Reply User → Action Account
  user_created key (answer user) = create_for user
  user_created key (error e) = do again ← ask (get_user_by_phone_number key); user_reloaded again

  abbrev user_found : Option String → Reply User → Action Account
  user_found key (answer user) = create_for user
  user_found key (error e) =
      if is e no_rows
      then (do
        made ← ask (create_user (record { name = name; phone_number = key }))
        user_created key made)
      else fail e

  abbrev account_found : Option String → Reply Account → Action Account
  account_found key (answer account) = pure account
  account_found key (error e) =
      if is e no_rows
      then (do found ← ask (get_user_by_phone_number key); user_found key found)
      else fail e

unfoldable pub ensure_account_provisioned : Bool → String → String → String → Action Account
ensure_account_provisioned has_provisioner customer_id name account_number =
    if has_provisioner
    then (do
      found ← ask (get_account_by_number account_number)
      account_found name account_number (lookup_key customer_id) found)
    else pure zero_account

module _ (uuid_string : Uuid → String) (has_provisioner : Bool) where
  abbrev pub session_entry : String → LoginResult → AccountProfile → Account → Time → SessionEntry
  session_entry token result profile account at = record {
    token = token;
    customer_id = result.customer_id;
    local_account_id = uuid_string account.id;
    legacy_account_id = result.account_id;
    account_number = profile.account_number;
    customer_name = profile.name;
    legacy_session_id = result.session_reference;
    legacy_session_expiry = result.expires_at;
    created_at = at;
  }

  abbrev pub login_response : SessionEntry → LoginResponse
  login_response entry = record {
    token = entry.token;
    customer_id = entry.customer_id;
    account_id = entry.local_account_id;
    legacy_account_id = entry.legacy_account_id;
    account_number = entry.account_number;
    customer_name = entry.customer_name;
    expires_at = entry.legacy_session_expiry;
  }

  abbrev session_stored : SessionEntry → Reply (Unit {0}) → Action LoginResponse
  session_stored entry (error e) = fail (wrap "store dante session" e)
  session_stored entry (answer u) = pure (login_response entry)

  abbrev with_token :
      LoginResult → AccountProfile → Time → Account → Reply String → Action LoginResponse
  with_token result profile at account (error e) = fail (wrap "generate session token" e)
  with_token result profile at account (answer hex) = do
    let entry = session_entry ("dante_" ++ hex) result profile account at
    stored ← ask (set_session entry (duration result.expires_at at))
    session_stored entry stored

  abbrev with_account : LoginResult → AccountProfile → Time → Account → Action LoginResponse
  with_account result profile at account = do
    hex ← ask random_hex
    with_token result profile at account hex

  abbrev with_profile : LoginResult → Time → Reply AccountProfile → Action LoginResponse
  with_profile result at (error e) = fail (wrap "load legacy account profile after login" e)
  with_profile result at (answer profile) = do
    account ← annotate "provision local account mapping" (
        ensure_account_provisioned has_provisioner result.customer_id profile.name
          profile.account_number)
    with_account result profile at account

  abbrev logged_in : String → LoginResult → Time → Action LoginResponse
  logged_in password result at =
      if leb_ℤ (duration result.expires_at at) (pos 0) then fail (sentinel expired_session) else (do
        profile ← ask (get_account_profile result.account_id password)
        with_profile result at profile)

  abbrev login_answered : String → Reply LoginResult → Action LoginResponse
  login_answered password (error e) =
      if has_response e "INVALID_CREDENTIALS"
      then fail (sentinel invalid_credentials)
      else fail (wrap "legacy login failed" e)
  login_answered password (answer result) = do at ← ask now; logged_in password result at

  -- `issueSessionFromLegacyLogin`, which is `Login`
  unfoldable pub login : String → String → Action LoginResponse
  login username password = do
    result ← ask (legacy_login username password)
    login_answered password result

  abbrev registered : String → String → Reply RegisterResult → Action LoginResponse
  registered email password (answer result) = login email password
  registered email password (error e) =
      if has_response e "EMAIL_EXISTS"
      then fail (sentinel email_already_registered)
      else fail (wrap "legacy register failed" e)

  pub register : String → String → String → String → Action LoginResponse
  register name email password pin = do
    result ← ask (legacy_register name email password pin)
    registered email password result

abbrev session_missing : {A : Type 0} → Error → Action A
session_missing e =
    if is e redis_nil then fail (sentinel invalid_token) else fail (wrap "load dante session" e)

abbrev deleted : Reply (Unit {0}) → Action (Unit {0})
deleted (answer u) = pure tt
deleted (error e) = fail (wrap "delete dante session" e)

abbrev delete_dante : String → Action (Unit {0})
delete_dante token = do done ← ask (delete_session token); deleted done

abbrev legacy_logged_out : String → Reply (Unit {0}) → Action (Unit {0})
legacy_logged_out token (answer u) = delete_dante token
legacy_logged_out token (error e) =
    if has_response e "INVALID_SESSION"
    then delete_dante token
    else fail (wrap "legacy logout failed" e)

abbrev session_to_end : String → Reply SessionEntry → Action (Unit {0})
session_to_end token (error e) = session_missing e
session_to_end token (answer session) = do
  done ← ask (legacy_logout session.legacy_session_id)
  legacy_logged_out token done

pub logout : String → Action (Unit {0})
logout token = do found ← ask (get_session token); session_to_end token found

abbrev pub session_view : SessionEntry → SessionView
session_view session = record {
  token = session.token;
  customer_id = session.customer_id;
  account_id = session.local_account_id;
  legacy_account_id = session.legacy_account_id;
  account_number = session.account_number;
  customer_name = session.customer_name;
  expires_at = session.legacy_session_expiry;
  created_at = session.created_at;
}

-- The error of the deletion is dropped.
abbrev session_at : String → SessionEntry → Time → Action SessionView
session_at token session at =
    if ltb session.legacy_session_expiry at
    then (do done ← ask (delete_session token); fail (sentinel expired_session))
    else pure (session_view session)

abbrev session_found : String → Reply SessionEntry → Action SessionView
session_found token (error e) = session_missing e
session_found token (answer session) = do at ← ask now; session_at token session at

-- `GetSession`
unfoldable pub validated_session : String → Action SessionView
validated_session token = do found ← ask (get_session token); session_found token found
