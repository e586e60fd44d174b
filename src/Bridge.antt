-- ===== src/Bridge.antt =====
-- internal/bridge/bridge.go: the handlers of the HTTP operations. A handler gets its parsed input
-- and answers a body or refuses with a status and a text. The services, the local accounts, the
-- caches and the checks of the dependencies are reached by calls. Routing, the validation of the
-- declared schemas and JSON are those of chi and huma.
pub mod Bodies
pub mod Sessions
pub mod SignIn
pub mod Credentials
pub mod Tokens
pub mod Payments
pub mod Accounts
pub mod Lookups
pub mod Outage
pub mod Internal
pub mod Authority
pub mod Statuses
pub mod Details
pub mod Invalidation
mod Tests
mod CredentialsTests
use dante_api_systems.Base.{ℕ, Option, String, List}
use dante_api_systems.Base.Int.{ℤ}
use dante_api_systems.Base.Dict.{Dict}
use dante_api_systems.Go.Exec.{Reply, Exec, pure}
use dante_api_systems.Models.{Uuid, Time, Account, Merchant}
use dante_api_systems.Views.{SessionView}
use dante_api_systems.Auth.{LoginResponse}
use dante_api_systems.Account.{ProfileView, BalanceView}
use dante_api_systems.History.{DetailView, StatusView, HistoryParams, HistoryPage}
use dante_api_systems.Payment.Calls.{QrisResult}
use dante_api_systems.Payment.Qris.{QrisRequest}
use dante_api_systems.Payment.Transfer.{TransferRequest}

-- What the inspection of a queue tells.
pub record QueueStats : Type 0 where
  pub name : String
  pub messages : ℤ
  pub consumers : ℤ

pub data Call : Type 0 where
  register : String → String → String → String → Call
  login : String → String → Call
  logout : String → Call
  get_session : String → Call
  create_qris_transaction : QrisRequest → Call
  create_transfer_transaction : TransferRequest → Call
  get_account_by_number : String → Call
  get_profile : Uuid → SessionView → Call
  get_balance : Uuid → SessionView → String → Call
  list_by_account : HistoryParams → Call
  get_merchant : Uuid → Call
  get_status : Uuid → Call
  get_detail : Uuid → Call
  delete_merchant : Uuid → Call
  delete_account_balance : Uuid → Call
  delete_transaction_status : Uuid → Call
  delete_session : String → Call
  ping_database : Call
  ping_redis : Call
  check_rabbitmq : Call
  ping_legacy : Call
  inspect_queues : Call

abbrev pub Response : Call → Type 0
Response (register name email password pin) = Reply LoginResponse
Response (login username password) = Reply LoginResponse
Response (get_session token) = Reply SessionView
Response (create_qris_transaction request) = Reply QrisResult
Response (create_transfer_transaction request) = Reply QrisResult
Response (get_account_by_number account_number) = Reply Account
Response (get_profile id session) = Reply ProfileView
Response (get_balance id session pin) = Reply BalanceView
Response (list_by_account params) = Reply HistoryPage
Response (get_merchant id) = Reply Merchant
Response (get_status id) = Reply StatusView
Response (get_detail id) = Reply DetailView
Response inspect_queues = Reply (Dict QueueStats)
Response _ = Reply (Unit {0})

-- The text of an error that huma keeps beside the message is left out.
pub data Answer (A : Type 0) : Type 0 where
  body : A → Answer A
  refused : ℕ → String → Answer A

abbrev pub Handler : Type 0 → Type 0
Handler A = Exec Response (Answer A)

abbrev pub respond : {A : Type 0} → A → Handler A
respond a = pure (body a)

abbrev pub refuse : {A : Type 0} → ℕ → String → Handler A
refuse status text = pure (refused status text)

-- github.com/google/uuid, and `t.UTC().Format(time.RFC3339)`.
pub record Formats : Type 0 where
  pub uuid_string : Uuid → String
  pub uuid_parse : String → Reply Uuid
  pub rfc3339 : Time → String
