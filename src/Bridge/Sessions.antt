-- ===== src/Bridge/Sessions.antt =====
-- The handlers of registration, login, logout and session inspection, and what all authenticated
-- handlers begin with.
use dante_api_systems.Base.{◌||◌, Option, none, some, String, str_eq, if◌then◌else◌}
use dante_api_systems.Go.Errors.{
  is, failure, email_already_registered, invalid_credentials, invalid_token, expired_session,
}
use dante_api_systems.Go.Exec.{Reply, answer, error, ask, ◌>>=◌}
use dante_api_systems.Views.{SessionView}
use dante_api_systems.Auth.{LoginResponse}
use dante_api_systems.Bridge.{
  Handler, Formats, respond, refuse, register, login, logout, get_session,
}
use dante_api_systems.Bridge.Bodies.{
  AuthSessionDto, AuthSessionStateDto, map_auth_session_response, map_auth_session_state_response,
}
use Prim.Native.Char.{code}
use dante_api_systems.Base.{◌==◌}

abbrev pub prefix : String
prefix = "Bearer "

-- `header[len(prefix):]`, if the header begins with the prefix.
unfoldable pub after_prefix : String → String → Option String
after_prefix String.[] header = some header
after_prefix (String.◌∷◌ c rest) String.[] = none
after_prefix (String.◌∷◌ c rest) (String.◌∷◌ d header) =
    let token = after_prefix rest header in if code c == code d then token else none

-- A header that is the prefix alone is not long enough.
abbrev token_in : Option String → Reply String
token_in none = error (failure "invalid authorization header")
token_in (some token) =
    if str_eq token "" then error (failure "invalid authorization header") else answer token

unfoldable pub parse_bearer_token : String → Reply String
parse_bearer_token header = token_in (after_prefix prefix header)

module _ {B : Type 0} where
  abbrev bearer : (String → Handler B) → Reply String → Handler B
  bearer next (error e) = refuse 401 "missing or invalid bearer token"
  bearer next (answer token) = next token

  abbrev pub with_bearer : String → (String → Handler B) → Handler B
  with_bearer authorization next = bearer next (parse_bearer_token authorization)

  abbrev session_checked : (SessionView → Handler B) → Reply SessionView → Handler B
  session_checked next (answer session) = next session
  session_checked next (error e) =
      if is e invalid_token || is e expired_session
      then refuse 401 "invalid or expired token"
      else refuse 503 "failed to validate session"

  abbrev pub with_session : String → (SessionView → Handler B) → Handler B
  with_session token next = do session ← ask (get_session token); session_checked next session

module _ (formats : Formats) where
  abbrev registered : Reply LoginResponse → Handler AuthSessionDto
  registered (answer result) = respond (map_auth_session_response formats result)
  registered (error e) =
      if is e email_already_registered
      then refuse 409 "email is already registered"
      else (if is e expired_session
          then refuse 503 "legacy registration produced an expired session"
          else refuse 503 "failed to register against legacy")

  unfoldable pub post_auth_register : String → String → String → String → Handler AuthSessionDto
  post_auth_register name email password pin = do
    result ← ask (register name email password pin)
    registered result

  abbrev logged_in : Reply LoginResponse → Handler AuthSessionDto
  logged_in (answer result) = respond (map_auth_session_response formats result)
  logged_in (error e) =
      if is e invalid_credentials
      then refuse 401 "invalid username or password"
      else (if is e expired_session
          then refuse 503 "legacy returned an already-expired session"
          else refuse 503 "failed to authenticate against legacy")

  unfoldable pub post_auth_login : String → String → Handler AuthSessionDto
  post_auth_login username password = do result ← ask (login username password); logged_in result

  abbrev shown_session : SessionView → Handler AuthSessionStateDto
  shown_session session = respond (map_auth_session_state_response formats session)

  unfoldable pub get_auth_session : String → Handler AuthSessionStateDto
  get_auth_session authorization =
      with_bearer authorization λ token. with_session token shown_session

abbrev logged_out : Reply (Unit {0}) → Handler String
logged_out (answer u) = respond "logout successful"
logged_out (error e) =
    if is e invalid_token
    then refuse 401 "invalid or expired token"
    else refuse 503 "failed to logout session"

unfoldable pub post_auth_logout : String → Handler String
post_auth_logout token = do done ← ask (logout token); logged_out done
