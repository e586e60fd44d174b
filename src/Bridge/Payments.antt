-- ===== src/Bridge/Payments.antt =====
-- The handlers that take in QRIS payments and transfers.
use dante_api_systems.Base.{none, some, String, str_eq, Option, if◌then◌else◌}
use dante_api_systems.Base.Int.{ℤ}
use dante_api_systems.Go.Errors.{
  is, idempotency_conflict, account_not_provisioned, merchant_not_found,
}
use dante_api_systems.Go.Exec.{Reply, answer, error, ask, ◌>>=◌}
use dante_api_systems.Models.{Uuid, Transaction}
use dante_api_systems.Views.{SessionView}
use dante_api_systems.History.{DetailView}
use dante_api_systems.Payment.Calls.{QrisResult}
use dante_api_systems.Bridge.{
  Handler, Formats, respond, refuse, create_qris_transaction, create_transfer_transaction,
}
use dante_api_systems.Bridge.Bodies.{TransactionDetailDto, map_transaction_detail_response}
use dante_api_systems.Bridge.Sessions.{with_bearer, with_session}

pub record QrisPaymentRequest : Type 0 where
  pub authorization : String
  pub idempotency_key : String
  pub merchant_id : String
  pub amount : ℤ

pub record TransferRequest : Type 0 where
  pub authorization : String
  pub idempotency_key : String
  pub to_account_number : String
  pub amount : ℤ
  pub transaction_pin : String

-- The view of a stored transaction that both handlers show: without the merchant, the reference of
-- the legacy system, the reason of a failure and the time of processing.
abbrev pub accepted_view : Transaction → DetailView
accepted_view tx = record {
  id = tx.id;
  user_id = tx.user_id;
  merchant_id = none;
  account_id = tx.account_id;
  amount = tx.amount;
  status = tx.status;
  idempotency_key = tx.idempotency_key;
  legacy_reference_id = none;
  failure_reason = none;
  requested_at = tx.requested_at;
  processed_at = none;
  created_at = tx.created_at;
  updated_at = tx.updated_at;
}

module _ (formats : Formats) where
  open formats use {uuid_string}

  -- The merchant is set afterwards.
  abbrev with_merchant : Option Uuid → TransactionDetailDto → TransactionDetailDto
  with_merchant (some id) dto = record dto { merchant_id = some (uuid_string id) }
  with_merchant none dto = dto

  abbrev pub qris_accepted : Reply QrisResult → Handler TransactionDetailDto
  qris_accepted (answer result) =
      let tx = result.transaction in
      respond
        (with_merchant tx.merchant_id (map_transaction_detail_response formats (accepted_view tx)))
  qris_accepted (error e) =
      if is e idempotency_conflict
      then refuse 409 "idempotency key already belongs to a different payment request"
      else (if is e account_not_provisioned
          then refuse 403 "authenticated account is not provisioned in dante"
          else (if is e merchant_not_found
              then refuse 404 "merchant not found"
              else refuse 503 "failed to accept qris payment"))

  abbrev qris_for : QrisPaymentRequest → SessionView → Handler TransactionDetailDto
  qris_for input session =
      if str_eq input.merchant_id "" then refuse 400 "merchant_id is required" else (do
        result ← ask (
            create_qris_transaction (record {
              session = session;
              merchant_ref = input.merchant_id;
              amount = input.amount;
              idempotency_key = input.idempotency_key;
            }))
        qris_accepted result)

  unfoldable pub post_qris_payment : QrisPaymentRequest → Handler TransactionDetailDto
  post_qris_payment input = with_bearer input.authorization λ token.
      if str_eq input.idempotency_key ""
      then refuse 400 "missing Idempotency-Key header"
      else with_session token (qris_for input)

  abbrev pub transfer_accepted : Reply QrisResult → Handler TransactionDetailDto
  transfer_accepted (answer result) =
      respond (map_transaction_detail_response formats (accepted_view result.transaction))
  transfer_accepted (error e) =
      if is e idempotency_conflict
      then refuse 409 "idempotency key already belongs to a different transfer request"
      else (if is e account_not_provisioned
          then refuse 403 "authenticated account is not provisioned in dante"
          else refuse 503 "failed to accept transfer")

  abbrev transfer_for : TransferRequest → SessionView → Handler TransactionDetailDto
  transfer_for input session = do
    result ← ask (
        create_transfer_transaction (record {
          session = session;
          to_account_number = input.to_account_number;
          amount = input.amount;
          transaction_pin = input.transaction_pin;
          idempotency_key = input.idempotency_key;
        }))
    transfer_accepted result

  unfoldable pub post_transfer : TransferRequest → Handler TransactionDetailDto
  post_transfer input = with_bearer input.authorization λ token.
      if str_eq input.idempotency_key ""
      then refuse 400 "missing Idempotency-Key header"
      else (if str_eq input.transaction_pin ""
          then refuse 400 "missing transaction_pin"
          else with_session token (transfer_for input))
