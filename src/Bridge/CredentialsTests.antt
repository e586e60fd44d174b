-- ===== src/Bridge/CredentialsTests.antt =====
-- A concrete instance for a refused login.
use dante_api_systems.Base.{◌≡◌, refl, sym, subst, List, [], ◌∷◌, true, String}
use dante_api_systems.Base.Int.{ℤ}
use dante_api_systems.Go.Errors.{sentinel, operation_error, invalid_credentials, no_rows, failure}
use dante_api_systems.Go.Exec.{answer, error, err, ok, Env}
use dante_api_systems.Go.Strings.{trim_space, trim_left, trim_right, contains_upper, starts_upper}
use dante_api_systems.Models.{Time}
use dante_api_systems.Legacy.{
  Formats as LegacyFormats, Response as LegacyResponse, start_element, new_request, send, read_body,
}
use dante_api_systems.Legacy.Messages.{parse_soap_return, is_ok}
use dante_api_systems.Legacy.Client.{login as legacy_sign_in}
use dante_api_systems.Legacy.Responses.{joined, has_bar, IsResponse}
use dante_api_systems.Legacy.Answers.{Replies, login-refused}
use dante_api_systems.Auth.{Response as AuthResponse, login as sign_in}
use dante_api_systems.Auth.{
  legacy_register, legacy_login, legacy_logout, get_account_profile as load_profile,
  get_session as load_session, set_session, delete_session as drop_session,
  get_user_by_phone_number, create_user, get_account_by_number as load_account, create_account,
  random_hex, now,
}
use dante_api_systems.Bridge.{Response, refused, login}
use dante_api_systems.Bridge.Sessions.{post_auth_login}
use dante_api_systems.Bridge.SignIn.{Returns}
use dante_api_systems.Bridge.Tests.{willing, formats}
use dante_api_systems.Bridge.Credentials.{bad_credentials_401}

abbrev legacy_formats : LegacyFormats
legacy_formats = record {
  itoa = λ n. "0";
  format_int = λ n. "0";
  parse_int = λ s. error (failure "number");
  tokens = λ body. start_element "return" (answer body) ∷ [];
}

abbrev unix_time : ℤ → Time
unix_time n = 7

abbrev refusing : Env LegacyResponse
refusing h (new_request url) = answer tt
refusing h (send operation payload) = answer 200
refusing h read_body = answer "ERROR|invalid_credentials"

abbrev parts : List String
parts = "invalid_credentials" ∷ []

parts-IsResponse : IsResponse "ERROR" parts
unfolding joined has_bar trim_space trim_left trim_right
parts-IsResponse = record {
  parts =
      (record { no_bar = refl; trimmed = refl }, (record { no_bar = refl; trimmed = refl }, tt));
  trimmed = refl;
  filled = refl;
}

parts-Replies :
    Replies legacy_formats "http://bank" "login"
      ("ani" ∷ "guess" ∷ [])
      refusing
      (joined "ERROR" parts)
unfolding joined parse_soap_return trim_space trim_left trim_right
parts-Replies = record {
  configured = refl;
  built = refl;
  status = 200;
  received = refl;
  success = refl;
  body = "ERROR|invalid_credentials";
  read = refl;
  value = refl;
}

-- Each caller gets what the callee returned.
abbrev auth : Env AuthResponse
auth h (legacy_login email password) = error (operation_error "login" (joined "ERROR" parts))
auth h (legacy_register name email password pin) = error (failure "down")
auth h (legacy_logout id) = answer tt
auth h (load_profile id password) = error (failure "down")
auth h (load_session token) = error (failure "down")
auth h (set_session entry ttl) = answer tt
auth h (drop_session token) = answer tt
auth h (get_user_by_phone_number phone) = error (sentinel no_rows)
auth h (create_user params) = error (sentinel no_rows)
auth h (load_account number) = error (sentinel no_rows)
auth h (create_account params) = error (sentinel no_rows)
auth h random_hex = answer "ab"
auth h now = 12

abbrev http : Env Response
http h (login username password) = error (sentinel invalid_credentials)
http h c = willing h c

refused_below :
    (legacy_sign_in legacy_formats "http://bank" unix_time "ani" "guess" refusing []).0
    ≡ err (operation_error "login" (joined "ERROR" parts))
unfolding is_ok
refused_below =
    login-refused legacy_formats "http://bank" unix_time refusing "ERROR" parts "ani" "guess"
      parts-IsResponse refl parts-Replies

bad_credentials_401_example :
    (post_auth_login formats "ani" "guess" http []).0
    ≡ ok (refused 401 "invalid username or password")
unfolding is_ok joined contains_upper starts_upper sign_in
bad_credentials_401_example =
    bad_credentials_401 legacy_formats "http://bank" unix_time refusing "ERROR" parts (λ id. "2")
      true "ani" "guess" auth formats http parts-IsResponse refl refl parts-Replies
      (subst (λ r. Returns r (auth [] (legacy_login "ani" "guess"))) (sym refused_below) refl) refl
