-- ===== src/Models.antt =====
-- internal/database/sqlc: the rows that the queries return (models.go) and the parameters of the
-- queries that write. A uuid is its 128-bit number, a timestamp its nanoseconds since year 1 (Go's
-- zero time), and a nullable column an option.
use dante_api_systems.Base.{ℕ, Option, String, Bool}
use dante_api_systems.Base.Int.{ℤ}
use dante_api_systems.Base.Dict.{Dict}

abbrev pub Uuid : Type 0
Uuid = ℕ

abbrev pub Time : Type 0
Time = ℕ

pub record Account : Type 0 where
  pub id : Uuid
  pub user_id : Uuid
  pub account_number : String
  pub balance : ℤ
  pub created_at : Time

pub record Merchant : Type 0 where
  pub id : Uuid
  pub name : String
  pub qris_code : String
  pub category : Option String
  pub created_at : Time

pub record Transaction : Type 0 where
  pub id : Uuid
  pub user_id : Uuid
  pub merchant_id : Option Uuid
  pub account_id : Uuid
  pub amount : ℤ
  pub status : String
  pub idempotency_key : String
  pub legacy_reference_id : Option String
  pub failure_reason : Option String
  pub requested_at : Time
  pub processed_at : Option Time
  pub created_at : Time
  pub updated_at : Time

-- The JSON documents of the events: an object of texts and numbers, or bytes that do not parse.
pub data Scalar : Type 0 where
  text : String → Scalar
  number : ℤ → Scalar

pub data Metadata : Type 0 where
  object : Dict Scalar → Metadata
  malformed : Metadata

pub record TransactionEvent : Type 0 where
  pub id : Uuid
  pub transaction_id : Uuid
  pub event_type : String
  pub message : Option String
  pub metadata : Metadata
  pub created_at : Time

pub record User : Type 0 where
  pub id : Uuid
  pub name : String
  pub phone_number : Option String
  pub created_at : Time

pub record CreateTransactionParams : Type 0 where
  pub user_id : Uuid
  pub merchant_id : Option Uuid
  pub account_id : Uuid
  pub amount : ℤ
  pub status : String
  pub idempotency_key : String
  pub legacy_reference_id : Option String
  pub failure_reason : Option String
  pub processed_at : Option Time

pub record CreateTransactionEventParams : Type 0 where
  pub transaction_id : Uuid
  pub event_type : String
  pub message : Option String
  pub metadata : Metadata

pub record UpdateTransactionStatusParams : Type 0 where
  pub id : Uuid
  pub status : String
  pub failure_reason : Option String
  pub processed_at : Option Time

pub record CreateMerchantParams : Type 0 where
  pub name : String
  pub qris_code : String
  pub category : Option String

pub record CreateUserParams : Type 0 where
  pub name : String
  pub phone_number : Option String

pub record CreateAccountParams : Type 0 where
  pub user_id : Uuid
  pub account_number : String
  pub balance : ℤ

pub record UpdateAccountBalanceParams : Type 0 where
  pub id : Uuid
  pub balance : ℤ

pub record CreateLegacyCallLogParams : Type 0 where
  pub transaction_id : Option Uuid
  pub endpoint : String
  pub method : String
  pub status_code : Option ℤ
  pub success : Bool
  pub latency_ms : ℤ
  pub error_message : Option String

-- `Column2` of the generated code is the time of the cursor.
pub record ListTransactionsByAccountIdParams : Type 0 where
  pub account_id : Uuid
  pub column2 : Time
  pub id : Uuid
  pub limit : ℕ

pub record StatusRow : Type 0 where
  pub id : Uuid
  pub status : String
  pub requested_at : Time
  pub processed_at : Option Time
  pub updated_at : Time

pub record LegacyCallLog : Type 0 where
  pub id : Uuid
  pub transaction_id : Option Uuid
  pub endpoint : String
  pub method : String
  pub status_code : Option ℤ
  pub success : Bool
  pub latency_ms : ℤ
  pub error_message : Option String
  pub created_at : Time

pub record GetTransactionStateCountsRow : Type 0 where
  pub status : String
  pub transactions_total : ℤ

pub record GetLegacyCallMetricsRow : Type 0 where
  pub endpoint : String
  pub success : Bool
  pub calls_total : ℤ
  pub avg_latency_ms : ℤ
