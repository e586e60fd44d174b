-- ===== src/Payment/Store.antt =====
-- The database behind internal/service/payment: the calls of the repositories answered by the
-- statements of internal/database/sqlc on tables, which are those after the calls so far.
pub mod Marks
pub mod Integrity
pub mod Handled
mod Tests
pub mod Accepted
pub mod Settlement
use dante_api_systems.Base.{List, [], ◌∷◌, Bool, ◌&&◌, true, Option, none, some}
use dante_api_systems.Go.Errors.{Error}
use dante_api_systems.Go.Exec.{Reply, answer, error, Env}
use dante_api_systems.Models.{
  Uuid, Time, Account, Merchant, Transaction, TransactionEvent, User, LegacyCallLog,
  CreateTransactionParams,
}
use dante_api_systems.Database.Transactions
use dante_api_systems.Database.Transactions.{exists}
use dante_api_systems.Database.Accounts.{is_user, is_account}
use dante_api_systems.Database.Accounts
use dante_api_systems.Database.Merchants.{is_merchant_row}
use dante_api_systems.Database.Merchants
use dante_api_systems.Database.CallLogs
use dante_api_systems.Payment.Calls.{
  Call, Response, get_account_by_number, get_merchant_by_id, get_merchant_by_qris_code,
  create_merchant, get_transaction_by_idempotency_key, list_transaction_events, create_transaction,
  create_transaction_event, update_transaction_status, create_legacy_call_log,
}

pub record Tables : Type 0 where
  pub users : List User
  pub accounts : List Account
  pub merchants : List Merchant
  pub transactions : List Transaction
  pub transaction_events : List TransactionEvent
  pub legacy_call_logs : List LegacyCallLog

abbrev names_merchant : Option Uuid → List Merchant → Bool
names_merchant none merchants = true
names_merchant (some id) merchants = exists (is_merchant_row id) merchants

-- Whether the rows are there that a new transaction refers to.
abbrev pub references : CreateTransactionParams → Tables → Bool
references params t =
    exists (is_user params.user_id) t.users
    && exists (is_account params.account_id) t.accounts
    && names_merchant params.merchant_id t.merchants

-- What a call changes, with the uuid and the time that the database takes for it.
unfoldable pub changed : Uuid → Time → Call → Tables → Tables
changed id at (create_merchant params) t = record t {
  merchants = (Merchants.create_merchant id at params t.merchants).1;
}
changed id at (create_transaction params) t = record t {
  transactions =
      (Transactions.create_transaction id at (references params t) params t.transactions).1;
}
changed id at (create_transaction_event params) t = record t {
  transaction_events =
      (Transactions.create_transaction_event id at params t.transactions t.transaction_events).1;
}
changed id at (update_transaction_status params) t = record t {
  transactions = (Transactions.update_transaction_status at params t.transactions).1;
}
changed id at (create_legacy_call_log params) t = record t {
  legacy_call_logs =
      (CallLogs.create_legacy_call_log id at params t.transactions t.legacy_call_logs).1;
}
changed id at call t = t

abbrev dropped_row : {A : Type 0} → Reply A → Reply (Unit {0})
dropped_row (answer row) = answer tt
dropped_row (error e) = error e

-- The uuids that the database makes, its clock, and its failures, each after the calls so far; and
-- the other components. A statement that fails changes nothing.
module _ (uuids : List Call → Uuid) (clock : List Call → Time) (outage : List Call → Option Error)
    (others : Env Response) where
  abbrev unless : Option Error → Tables → Tables → Tables
  unless none t t' = t'
  unless (some e) t t' = t

  abbrev instead : {A : Type 0} → Option Error → Reply A → Reply A
  instead none r = r
  instead (some e) r = error e

  pub after : Tables → List Call → Tables
  after t [] = t
  after t (call ∷ h) =
      let now = after t h in unless (outage h) now (changed (uuids h) (clock h) call now)

  unfoldable pub served : Tables → Env Response
  served t h (get_account_by_number number) =
      instead (outage h) (Accounts.get_account_by_number number (after t h).accounts)
  served t h (get_merchant_by_id id) =
      instead (outage h) (Merchants.get_merchant_by_id id (after t h).merchants)
  served t h (get_merchant_by_qris_code code) =
      instead (outage h) (Merchants.get_merchant_by_qris_code code (after t h).merchants)
  served t h (create_merchant params) =
      instead (outage h)
        (Merchants.create_merchant (uuids h) (clock h) params (after t h).merchants).0
  served t h (get_transaction_by_idempotency_key key) =
      instead (outage h)
        (Transactions.get_transaction_by_idempotency_key key (after t h).transactions)
  served t h (list_transaction_events id) = instead (outage h) (
      answer
        (Transactions.list_transaction_events_by_transaction_id id (after t h).transaction_events))
  served t h (create_transaction params) =
      instead (outage h)
        (Transactions.create_transaction (uuids h) (clock h) (references params (after t h)) params
          (after t h).transactions).0
  served t h (create_transaction_event params) =
      instead (outage h)
        (Transactions.create_transaction_event (uuids h) (clock h) params (after t h).transactions
          (after t h).transaction_events).0
  served t h (update_transaction_status params) =
      instead (outage h)
        (Transactions.update_transaction_status (clock h) params (after t h).transactions).0
  served t h (create_legacy_call_log params) = instead (outage h) (
      dropped_row
        (CallLogs.create_legacy_call_log (uuids h) (clock h) params (after t h).transactions
          (after t h).legacy_call_logs).0)
  served t h call = others h call
