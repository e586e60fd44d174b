-- ===== src/Auth/Sessions.antt =====
-- The life of a session: login and registration, validation, and logout.
use dante_api_systems.Base.{
  ℕ, ltb, ◌+◌, ◌≤◌, ◌≡◌, ◌≢◌, inl, inr, subst, Bool, List, [], ◌∷◌, String, Option, some, none,
  arith, if◌then◌else◌,
}
use dante_api_systems.Go.Errors.{sentinel, expired_session}
use dante_api_systems.Go.Exec.{Reply, answer, error, Result, ok, err, panic, Env, Result-cases}
use dante_api_systems.Go.Trace.{total}
use dante_api_systems.Models.{Uuid, Time}
use dante_api_systems.Views.{SessionEntry, SessionView, LoginResult, AccountProfile}
use dante_api_systems.Auth.{
  Call, Response, LoginResponse, legacy_register, legacy_logout, get_session, set_session,
  delete_session, now, login, register, logout, validated_session, has_response, login_response,
  ensure_account_provisioned, with_profile,
}
use dante_api_systems.Auth.Provisioning.{session_writes, stored_sessions, ensure_quiet}

-- 1 for a response, else 0.
abbrev pub issued : Result LoginResponse → ℕ
issued (ok response) = 1
issued _ = 0

abbrev pub last_stored : List Call → Option SessionEntry
last_stored (set_session entry ttl ∷ before) = some entry
last_stored _ = none

module _ (uuid_string : Uuid → String) (has_provisioner : Bool) where
  abbrev response_of : Option SessionEntry → Option LoginResponse
  response_of (some entry) = some (login_response uuid_string has_provisioner entry)
  response_of none = none

  -- An answered response is that of the session which the last call stored.
  abbrev pub Kept : Result LoginResponse → List Call → Type 0
  Kept (ok response) t = response_of (last_stored t) ≡ some response
  Kept _ t = Unit

  -- From one trace to that of a login which ended in `r`: a session was stored exactly if it
  -- answered one; and then the last call stored it, with the answered fields.
  pub record Issued (env : Env Response) (h : List Call) (r : Result LoginResponse) (t : List Call)
      : Type 0 where
    pub stored_once : total stored_sessions env t ≡ total stored_sessions env h + issued r
    pub at_most_one : total session_writes env t ≤ total session_writes env h + 1
    pub no_panic : r ≢ panic
    pub kept : Kept r t

module _ (uuid_string : Uuid → String) (has_provisioner : Bool) (env : Env Response) where
  with_profile-Issued :
      (result : LoginResult) (at : Time) (profile : Reply AccountProfile) (h : List Call)
      → let (r, t) = with_profile uuid_string has_provisioner result at profile env h in
        Issued uuid_string has_provisioner env h r t
  with_profile-Issued result at (error e) h = ground arith
  with_profile-Issued result at (answer profile) h =
      let q =
        ensure_quiet has_provisioner result.customer_id profile.name profile.account_number env h in
      elim (Result-cases
        (ensure_account_provisioned has_provisioner result.customer_id profile.name
          profile.account_number env h).0) [
            | inl (account, e) ↦ rw e (ground (arith, q.1, q.2))
            | inr (inl (x, e)) ↦ rw e (ground (arith, q.1, q.2))
            | inr (inr e) ↦ absurd (q.0 e)
          ]

  login-Issued :
      (username password : String) (h : List Call)
      → let (r, t) = login uuid_string has_provisioner username password env h in
        Issued uuid_string has_provisioner env h r t
  unfolding login
  login-Issued username password h = grind (arith, with_profile-Issued)

pub login_issues :
    (uuid_string : Uuid → String) (has_provisioner : Bool) (username password : String)
    (env : Env Response)
    → let (r, t) = login uuid_string has_provisioner username password env [] in
      Issued uuid_string has_provisioner env [] r t
login_issues uuid_string has_provisioner username password env =
    login-Issued uuid_string has_provisioner env username password []

-- The same holds of a registration.
pub register_issues :
    (uuid_string : Uuid → String) (has_provisioner : Bool) (name email password pin : String)
    (env : Env Response)
    → let (r, t) = register uuid_string has_provisioner name email password pin env [] in
      Issued uuid_string has_provisioner env [] r t
unfolding register
register_issues uuid_string has_provisioner name email password pin env =
    let c = legacy_register name email password pin in
    ground (arith, login-Issued uuid_string has_provisioner env email password (c ∷ []))

-- The view of a session that a response told of.
abbrev pub view_of : LoginResponse → Time → SessionView
view_of response created_at = record {
  token = response.token;
  customer_id = response.customer_id;
  account_id = response.account_id;
  legacy_account_id = response.legacy_account_id;
  account_number = response.account_number;
  customer_name = response.customer_name;
  expires_at = response.expires_at;
  created_at = created_at;
}

-- What a request with the token of a response comes to, and its calls: the view until the expiry,
-- a refusal and the deletion of the session afterwards.
abbrev pub validation : LoginResponse → Time → Time → Result SessionView × List Call
validation response created_at at =
    let asked = now ∷ get_session response.token ∷ [] in
    if ltb response.expires_at at
    then (err (sentinel expired_session), delete_session response.token ∷ asked)
    else (ok (view_of response created_at), asked)

module _ (uuid_string : Uuid → String) (has_provisioner : Bool) where
  login_response-validated :
      (env : Env Response) (entry : SessionEntry)
      → env [] (get_session entry.token) ≡ answer entry
      → validated_session entry.token env []
        ≡ validation
            (login_response uuid_string has_provisioner entry)
            entry.created_at
            (env (get_session entry.token ∷ []) now)
  unfolding validated_session
  login_response-validated env entry found = ground arith

  pub Kept-same :
      (r : Result LoginResponse) (t : List Call) (response : LoginResponse) (entry : SessionEntry)
      → Kept uuid_string has_provisioner r t
      → r ≡ ok response
      → last_stored t ≡ some entry
      → login_response uuid_string has_provisioner entry ≡ response
  Kept-same r t response entry k done stored = ground arith

-- The session that a login stored is the one that its token gives: where the store answers it for
-- the token, a request until the expiry gets the customer, accounts and name of the login, and
-- nothing is changed; after the expiry the request is refused, and its last call deletes the
-- session.
pub session_round_trip :
    (uuid_string : Uuid → String) (has_provisioner : Bool) (username password : String)
    (env env' : Env Response) (response : LoginResponse) (entry : SessionEntry)
    → (login uuid_string has_provisioner username password env []).0 ≡ ok response
    → last_stored (login uuid_string has_provisioner username password env []).1 ≡ some entry
    → env' [] (get_session response.token) ≡ answer entry
    → validated_session response.token env' []
      ≡ validation response entry.created_at (env' (get_session response.token ∷ []) now)
session_round_trip uuid_string has_provisioner username password env env' response entry done
      stored =
    let (r, t) = login uuid_string has_provisioner username password env [] in
    let i = login-Issued uuid_string has_provisioner env username password [] in
    let same = Kept-same uuid_string has_provisioner r t response entry i.kept done stored in
    subst
      (λ x.
        env' [] (get_session x.token) ≡ answer entry
        → validated_session x.token env' []
          ≡ validation x entry.created_at (env' (get_session x.token ∷ []) now))
      same (login_response-validated uuid_string has_provisioner env' entry)

-- Calls that end the legacy session, or find it ended; deletions, and attempts to delete.
abbrev pub ended : (c : Call) → Response c → ℕ
ended (legacy_logout id) (answer u) = 1
ended (legacy_logout id) (error e) = if has_response e "INVALID_SESSION" then 1 else 0
ended _ _ = 0

abbrev pub deletions : (c : Call) → Response c → ℕ
deletions (delete_session token) (answer u) = 1
deletions _ _ = 0

abbrev pub without_error : Result (Unit {0}) → ℕ
without_error (ok u) = 1
without_error _ = 0

-- A logout attempts to delete the session exactly if the legacy system ended its own or does not
-- know it, at most once; and it ends without an error exactly if the session was deleted.
pub logout_lem :
    (token : String) (env : Env Response)
    → let (r, t) = logout token env [] in
      (total session_writes env t ≡ total ended env t)
      × (total session_writes env t ≤ 1)
      × (total deletions env t ≡ without_error r)
      × (r ≢ panic)
unfolding logout
logout_lem token env = ground arith
