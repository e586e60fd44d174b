-- ===== src/Bridge/Credentials.antt =====
-- From the refusal of the legacy system to the answer of the login handler.
use dante_api_systems.Base.{◌≡◌, subst, List, [], ◌∷◌, Bool, true, false, String, arith}
use dante_api_systems.Base.Int.{ℤ}
use dante_api_systems.Go.Errors.{sentinel, operation_error, invalid_credentials}
use dante_api_systems.Go.Exec.{error, ok, err, Env}
use dante_api_systems.Go.Strings.{contains_upper}
use dante_api_systems.Models.{Uuid, Time}
use dante_api_systems.Legacy.{Formats as LegacyFormats, Response as LegacyResponse}
use dante_api_systems.Legacy.Messages.{is_ok}
use dante_api_systems.Legacy.Client.{login as legacy_sign_in}
use dante_api_systems.Legacy.Responses.{joined, IsResponse}
use dante_api_systems.Legacy.Answers.{Replies, login-refused}
use dante_api_systems.Auth.{login as sign_in, Response as AuthResponse, legacy_login}
use dante_api_systems.Bridge.{Response, Formats, refused, login}
use dante_api_systems.Bridge.Sessions.{post_auth_login}
use dante_api_systems.Bridge.SignIn.{Returns}

sign_in-refused :
    (uuid_string : Uuid → String) (has_provisioner : Bool) (username password raw : String)
    (auth : Env AuthResponse)
    → contains_upper raw "INVALID_CREDENTIALS" ≡ true
    → auth [] (legacy_login username password) ≡ error (operation_error "login" raw)
    → (sign_in uuid_string has_provisioner username password auth []).0
      ≡ err (sentinel invalid_credentials)
unfolding sign_in
sign_in-refused uuid_string has_provisioner username password raw auth says told = ground arith

post_auth_login-refused :
    (formats : Formats) (username password : String) (http : Env Response)
    → http [] (login username password) ≡ error (sentinel invalid_credentials)
    → (post_auth_login formats username password http []).0
      ≡ ok (refused 401 "invalid username or password")
unfolding post_auth_login
post_auth_login-refused formats username password http told = ground arith

-- A login that the legacy system refuses is answered with 401: where the service answers a response
-- whose first part is not `OK` and which in capitals contains INVALID_CREDENTIALS, and each caller
-- gets what the callee returned, the login handler refuses with the status 401.
pub bad_credentials_401 :
    (legacy_formats : LegacyFormats) (config_url : String) (unix_time : ℤ → Time)
    (legacy : Env LegacyResponse) (part : String) (rest : List String) (uuid_string : Uuid → String)
    (has_provisioner : Bool) (username password : String) (auth : Env AuthResponse)
    (formats : Formats) (http : Env Response)
    → IsResponse part rest
    → is_ok part ≡ false
    → contains_upper (joined part rest) "INVALID_CREDENTIALS" ≡ true
    → Replies legacy_formats config_url "login" (username ∷ password ∷ []) legacy (joined part rest)
    → Returns
        (legacy_sign_in legacy_formats config_url unix_time username password legacy []).0
        (auth [] (legacy_login username password))
    → Returns
        (sign_in uuid_string has_provisioner username password auth []).0
        (http [] (login username password))
    → (post_auth_login formats username password http []).0
      ≡ ok (refused 401 "invalid username or password")
bad_credentials_401 legacy_formats config_url unix_time legacy part rest uuid_string has_provisioner
      username password auth formats http response refusal says replies told told' =
    let down =
      login-refused legacy_formats config_url unix_time legacy part rest username password response
        refusal replies in
    let heard = subst (λ r. Returns r (auth [] (legacy_login username password))) down told in
    let up =
      sign_in-refused uuid_string has_provisioner username password (joined part rest) auth says
        heard in
    post_auth_login-refused formats username password http
      (subst (λ r. Returns r (http [] (login username password))) up told')
