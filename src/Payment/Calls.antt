-- ===== src/Payment/Calls.antt =====
-- The interfaces of internal/service/payment (Repository, TransferRepository, WorkerRepository,
-- MerchantLookup, the publishers, StatusCache, BalanceCache and the executors), each method a call
-- with what it returns; the statuses and event types; and errors shared by both intakes.
use dante_api_systems.Base.{Bool, List, Option, String, if◌then◌else◌}
use dante_api_systems.Base.Int.{ℤ}
use dante_api_systems.Go.Errors.{Error, Sentinel, sentinel, wrap, is}
use dante_api_systems.Go.Exec.{Reply, Exec}
use dante_api_systems.Models.{
  Uuid, Time, Account, Merchant, Transaction, TransactionEvent, CreateMerchantParams,
  CreateTransactionParams, CreateTransactionEventParams, UpdateTransactionStatusParams,
  CreateLegacyCallLogParams,
}
use dante_api_systems.Views.{
  TransactionStatusCacheEntry, MerchantRecord, QrisPaymentResult, TransferResult,
}
use dante_api_systems.Queue.Messages.{QrisPaymentMessage, TransferMessage}

pub data Call : Type 0 where
  get_account_by_number : String → Call
  get_merchant_by_id : Uuid → Call
  get_merchant_by_qris_code : String → Call
  create_merchant : CreateMerchantParams → Call
  get_transaction_by_idempotency_key : String → Call
  list_transaction_events : Uuid → Call
  create_transaction : CreateTransactionParams → Call
  create_transaction_event : CreateTransactionEventParams → Call
  update_transaction_status : UpdateTransactionStatusParams → Call
  create_legacy_call_log : CreateLegacyCallLogParams → Call
  get_qris_merchant : String → Call
  publish_qris_payment : QrisPaymentMessage → Call
  publish_transfer : TransferMessage → Call
  set_transaction_status : TransactionStatusCacheEntry → ℤ → Call
  delete_account_balance : Uuid → Call
  pay_qris : String → String → ℤ → Call
  transfer : String → String → String → ℤ → Call
  now : Call

abbrev pub Response : Call → Type 0
Response (get_account_by_number account_number) = Reply Account
Response (get_merchant_by_id id) = Reply Merchant
Response (get_merchant_by_qris_code code) = Reply Merchant
Response (create_merchant params) = Reply Merchant
Response (get_transaction_by_idempotency_key key) = Reply Transaction
Response (list_transaction_events id) = Reply (List TransactionEvent)
Response (create_transaction params) = Reply Transaction
Response (create_transaction_event params) = Reply TransactionEvent
Response (update_transaction_status params) = Reply Transaction
Response (pay_qris account code amount) = Reply QrisPaymentResult
Response (transfer from pin to amount) = Reply TransferResult
Response (get_qris_merchant code) = Reply MerchantRecord
Response now = Time
Response _ = Reply (Unit {0})

abbrev pub Action : Type 0 → Type 0
Action A = Exec Response A

-- github.com/google/uuid, and the Error method of an error.
pub record Externals : Type 0 where
  pub uuid_string : Uuid → String
  pub uuid_parse : String → Option Uuid
  pub error_text : Error → String

abbrev pub status_processing : String
status_processing = "PROCESSING"

abbrev pub status_failed : String
status_failed = "FAILED"

abbrev pub status_success : String
status_success = "SUCCESS"

-- qris.go and transfer.go answer with the same result.
pub record QrisResult : Type 0 where
  pub transaction : Transaction
  pub created : Bool

-- `errors.Is(err, target)`: the sentinel itself, or the error with a text before it.
abbrev pub translated : Error → Sentinel → Sentinel → String → Error
translated e target to text = if is e target then sentinel to else wrap text e

module _ (externals : Externals) where
  open externals use {uuid_string}

  -- status_cache.go
  abbrev pub cache_entry_from_transaction : Transaction → Option Time → TransactionStatusCacheEntry
  cache_entry_from_transaction tx processed_at = record {
    id = uuid_string tx.id;
    status = tx.status;
    requested_at = tx.requested_at;
    processed_at = processed_at;
    updated_at = tx.updated_at;
  }
