-- ===== src/Bridge/SignIn.antt =====
-- From a login to the inspection of its session, through the session service.
use dante_api_systems.Base.{
  ◌≡◌, ◌≢◌, Bool, refl, ap, subst, ◌∙◌, [], ◌∷◌, some, String, ltb, arith, if◌then◌else◌,
}
use dante_api_systems.Go.Exec.{Reply, answer, error, Result, ok, err, panic, Env}
use dante_api_systems.Models.{Uuid, Time}
use dante_api_systems.Views.{SessionEntry}
use dante_api_systems.Auth.{LoginResponse, validated_session, now}
use dante_api_systems.Auth.{login as sign_in, get_session as load_session, Response as AuthResponse}
use dante_api_systems.Auth.Sessions.{
  last_stored, session_round_trip, validation, login_issues, Kept-same,
}
use dante_api_systems.Bridge.{Response, Answer, Formats, body, refused, login, get_session}
use dante_api_systems.Bridge.Bodies.{AuthSessionDto, AuthSessionStateDto, map_auth_session_response}
use dante_api_systems.Bridge.Sessions.{
  post_auth_login, get_auth_session, parse_bearer_token, prefix,
}
use dante_api_systems.Bridge.Tokens.{parse_bearer_token_lem}
use Prim.Native.String.{◌++◌}

-- A call of a service answers what the service returned.
abbrev pub Returns : {A : Type 0} → Result A → Reply A → Type 0
Returns (ok a) reply = reply ≡ answer a
Returns (err e) reply = reply ≡ error e
Returns panic reply = ⊥

-- The state of a session that a login told of.
abbrev pub state_of : AuthSessionDto → String → AuthSessionStateDto
state_of dto created_at = record {
  token = dto.token;
  customer_id = dto.customer_id;
  account_id = dto.account_id;
  account_number = dto.account_number;
  customer_name = dto.customer_name;
  expires_at = dto.expires_at;
  created_at = created_at;
}

module _ (formats : Formats) where
  -- The answer to an inspection at a time.
  abbrev pub inspected : LoginResponse → Time → Time → Answer AuthSessionStateDto
  inspected response created_at at =
      if ltb response.expires_at at
      then refused 401 "invalid or expired token"
      else body (state_of (map_auth_session_response formats response) (formats.rfc3339 created_at))

  get_auth_session-validation :
      (response : LoginResponse) (created_at at : Time) (http : Env Response)
      → response.token ≢ ""
      → Returns (validation response created_at at).0 (http [] (get_session response.token))
      → (get_auth_session formats (prefix ++ response.token) http []).0
        ≡ ok (inspected response created_at at)
  unfolding get_auth_session
  get_auth_session-validation response created_at at http filled told =
      let parsed : parse_bearer_token (prefix ++ response.token) ≡ answer response.token =
        (parse_bearer_token_lem (prefix ++ response.token) response.token).1 (refl, filled) in
      rw parsed (ground arith)

  post_auth_login-response :
      (username password : String) (r : Result LoginResponse) (http : Env Response)
      (dto : AuthSessionDto)
      → Returns r (http [] (login username password))
      → (post_auth_login formats username password http []).0 ≡ ok (body dto)
      → (response : LoginResponse) × (r ≡ ok response)
        × (dto ≡ map_auth_session_response formats response)
  unfolding post_auth_login
  post_auth_login-response username password (ok response) http dto told done =
      (response, refl, ground arith)
  post_auth_login-response username password (err e) http dto told done = ground arith
  post_auth_login-response username password panic http dto told done = absurd told

-- A customer who logs in can inspect the session with the token of the answer: where the login
-- handler answers what the session service returned, and a later inspection, with `Bearer ` and that
-- token, answers what the service returns when the store has the session that the login stored, the
-- inspection shows the customer, the accounts, the name and the expiry of the login, until the
-- expiry, and is refused with 401 afterwards.
pub sign_in_round_trip :
    (formats : Formats) (uuid_string : Uuid → String) (has_provisioner : Bool)
    (username password : String) (env env' : Env AuthResponse) (http http' : Env Response)
    (dto : AuthSessionDto) (entry : SessionEntry)
    → Returns
        (sign_in uuid_string has_provisioner username password env []).0
        (http [] (login username password))
    → (post_auth_login formats username password http []).0 ≡ ok (body dto)
    → last_stored (sign_in uuid_string has_provisioner username password env []).1 ≡ some entry
    → env' [] (load_session dto.token) ≡ answer entry
    → Returns (validated_session dto.token env' []).0 (http' [] (get_session dto.token))
    → dto.token ≢ ""
    → (get_auth_session formats (prefix ++ dto.token) http' []).0
      ≡ ok (
          if ltb entry.legacy_session_expiry (env' (load_session dto.token ∷ []) now)
          then refused 401 "invalid or expired token"
          else body (state_of dto (formats.rfc3339 entry.created_at)))
sign_in_round_trip formats uuid_string has_provisioner username password env env' http http' dto
      entry told done stored found told' filled =
    let (r, t) = sign_in uuid_string has_provisioner username password env [] in
    let (response, same, shown) =
      post_auth_login-response formats username password r http dto told done in
    let token : dto.token ≡ response.token = ap (λ x. x.token) shown in
    let trip =
      session_round_trip uuid_string has_provisioner username password env env' response entry same
        stored (subst (λ x. env' [] (load_session x) ≡ answer entry) token found) in
    let issued = login_issues uuid_string has_provisioner username password env in
    let kept = Kept-same uuid_string has_provisioner r t response entry issued.kept same stored in
    let at = env' (load_session response.token ∷ []) now in
    let read : Returns (validation response entry.created_at at).0
        (http' [] (get_session response.token)) =
      subst (λ x. Returns x.0 (http' [] (get_session response.token))) trip
        (subst (λ x. Returns (validated_session x env' []).0 (http' [] (get_session x))) token
          told') in
    let seen =
      get_auth_session-validation formats response entry.created_at at http'
        (λ e. filled (token ∙ e)) read in
    let expiry : entry.legacy_session_expiry ≡ response.expires_at = ap (λ x. x.expires_at) kept in
    rw (shown, expiry) seen
