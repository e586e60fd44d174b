-- ===== src/Bridge/Authority.antt =====
-- On whose authority the services are called.
use dante_api_systems.Base.Int.{ℤ}
use dante_api_systems.Base.{
  ◌≡◌, ◌≢◌, List, [], ◌∷◌, Option, some, none, true, String, str_eq, eq_iff, arith,
}
use dante_api_systems.Go.Exec.{Reply, answer, error, Env}
use dante_api_systems.Models.{Uuid, Account}
use dante_api_systems.Views.{SessionView}
use dante_api_systems.Bridge.{
  Call, Response, Formats, get_session, create_qris_transaction, create_transfer_transaction,
  get_account_by_number, get_profile, get_balance, list_by_account,
}
use dante_api_systems.Bridge.Sessions.{prefix, parse_bearer_token}
use dante_api_systems.Bridge.Tokens.{parse_bearer_token_lem}
use dante_api_systems.Bridge.Payments.{
  QrisPaymentRequest, TransferRequest, post_qris_payment, post_transfer,
}
use dante_api_systems.Bridge.Accounts.{
  get_account_profile, get_account_balance, list_account_transactions,
}
use Prim.Native.String.{◌++◌}

abbrev pub answered : {A : Type 0} → Reply A → Option A
answered (answer a) = some a
answered (error e) = none

-- The session and the local account that were answered last.
abbrev pub session_of : Env Response → List Call → Option SessionView
session_of env [] = none
session_of env (get_session token ∷ h) = answered (env h (get_session token))
session_of env (_ ∷ h) = session_of env h

abbrev pub account_of : Env Response → List Call → Option Account
account_of env [] = none
account_of env (get_account_by_number number ∷ h) = answered (env h (get_account_by_number number))
account_of env (_ ∷ h) = account_of env h

abbrev pub id_of : Option Account → Option Uuid
id_of (some account) = some account.id
id_of none = none

abbrev pub identity_of : Option SessionView → Option (String × String)
identity_of (some session) = some (session.legacy_account_id, session.account_number)
identity_of none = none

-- The calls of a handler that was sent `authorization` and asked for the account `requested`: a
-- session is asked for by the token of the header alone; a payment, a profile or a balance is asked
-- for with the session answered for that token; the local account is asked for by the account number
-- of that session, whose legacy account is the requested one; and a profile, a balance or a history
-- is asked for by the identifier of that local account. No other call is made.
abbrev pub Authorized : Env Response → String → String → List Call → Type 0
Authorized env authorization requested [] = Unit
Authorized env authorization requested (get_session token ∷ h) =
    (authorization ≡ prefix ++ token) × (token ≢ "") × Authorized env authorization requested h
Authorized env authorization requested (create_qris_transaction request ∷ h) =
    (session_of env h ≡ some request.session) × Authorized env authorization requested h
Authorized env authorization requested (create_transfer_transaction request ∷ h) =
    (session_of env h ≡ some request.session) × Authorized env authorization requested h
Authorized env authorization requested (get_account_by_number number ∷ h) =
    (identity_of (session_of env h) ≡ some (requested, number))
    × Authorized env authorization requested h
Authorized env authorization requested (get_profile id session ∷ h) =
    (session_of env h ≡ some session)
    × (id_of (account_of env h) ≡ some id)
    × Authorized env authorization requested h
Authorized env authorization requested (get_balance id session pin ∷ h) =
    (session_of env h ≡ some session)
    × (id_of (account_of env h) ≡ some id)
    × Authorized env authorization requested h
Authorized env authorization requested (list_by_account params ∷ h) =
    (id_of (account_of env h) ≡ some params.account_id) × Authorized env authorization requested h
Authorized env authorization requested (_ ∷ h) = ⊥

token_sent :
    (authorization token : String)
    → parse_bearer_token authorization ≡ answer token
    → (authorization ≡ prefix ++ token) × (token ≢ "")
token_sent authorization token = (parse_bearer_token_lem authorization token).0

same_identity :
    (session : SessionView) (requested : String)
    → str_eq requested session.legacy_account_id ≡ true
    → identity_of (some session) ≡ some (requested, session.account_number)
same_identity session requested h = ground (arith, eq_iff requested session.legacy_account_id)

-- What the handlers of accounts check before they call a service.
ruleset checks = (arith, token_sent, same_identity)

module _ (formats : Formats) (env : Env Response) where
  qris-Authorized :
      (input : QrisPaymentRequest) (requested : String)
      → Authorized env input.authorization requested (post_qris_payment formats input env []).1
  unfolding post_qris_payment
  qris-Authorized input requested = grind (arith, token_sent)

  transfer-Authorized :
      (input : TransferRequest) (requested : String)
      → Authorized env input.authorization requested (post_transfer formats input env []).1
  unfolding post_transfer
  transfer-Authorized input requested = grind (arith, token_sent)

  profile-Authorized :
      (authorization requested : String)
      → Authorized env authorization requested
          (get_account_profile formats authorization requested env []).1
  unfolding get_account_profile
  profile-Authorized authorization requested = grind checks

  balance-Authorized :
      (authorization pin requested : String)
      → Authorized env authorization requested
          (get_account_balance formats authorization pin requested env []).1
  unfolding get_account_balance
  balance-Authorized authorization pin requested = grind checks

  history-Authorized :
      (authorization requested cursor : String) (limit : ℤ)
      → Authorized env authorization requested
          (list_account_transactions formats authorization requested cursor limit env []).1
  unfolding list_account_transactions
  history-Authorized authorization requested cursor limit = grind checks

-- The handlers of payments.
pub record PaymentsAuthorized (formats : Formats) (env : Env Response) : Type 0 where
  pub qris :
      (input : QrisPaymentRequest) (requested : String)
      → Authorized env input.authorization requested (post_qris_payment formats input env []).1
  pub transfer :
      (input : TransferRequest) (requested : String)
      → Authorized env input.authorization requested (post_transfer formats input env []).1

-- Whatever the services answer: both payment handlers ask for a session by the token of their header
-- alone, and for a payment with the session that was answered for it, and make no other call.
pub payments_authorized : (formats : Formats) (env : Env Response) → PaymentsAuthorized formats env
payments_authorized formats env = record {
  qris = qris-Authorized formats env;
  transfer = transfer-Authorized formats env;
}

-- The handlers of accounts.
pub record AccountsAuthorized (formats : Formats) (env : Env Response) : Type 0 where
  pub profile :
      (authorization requested : String)
      → Authorized env authorization requested
          (get_account_profile formats authorization requested env []).1
  pub balance :
      (authorization pin requested : String)
      → Authorized env authorization requested
          (get_account_balance formats authorization pin requested env []).1
  pub history :
      (authorization requested cursor : String) (limit : ℤ)
      → Authorized env authorization requested
          (list_account_transactions formats authorization requested cursor limit env []).1

-- Whatever the services and the database answer: the handlers of profiles, balances and histories
-- ask for a session by the token of their header alone, for the local account by the number of that
-- session, if the requested account is the session's, and for data by the identifier of that local
-- account alone; they make no other call.
pub accounts_authorized : (formats : Formats) (env : Env Response) → AccountsAuthorized formats env
accounts_authorized formats env = record {
  profile = profile-Authorized formats env;
  balance = balance-Authorized formats env;
  history = history-Authorized formats env;
}
