-- ===== src/Bridge/Details.antt =====
-- A transaction as the payment handlers, the detail handler and the history show it.
use dante_api_systems.Base.{◌≡◌, Option, none, some, String, List, [], ◌∷◌, arith}
use dante_api_systems.Go.Exec.{answer, ok, Env}
use dante_api_systems.Models.{Uuid, Transaction}
use dante_api_systems.Payment.Calls.{QrisResult}
use dante_api_systems.History.{map_transaction_row}
use dante_api_systems.Bridge.{
  Call, Response, Formats, body, get_detail, create_qris_transaction, create_transfer_transaction,
}
use dante_api_systems.Bridge.Bodies.{TransactionDetailDto}
use dante_api_systems.Bridge.Payments.{
  QrisPaymentRequest, TransferRequest, post_qris_payment, post_transfer,
}
use dante_api_systems.Bridge.Authority.{answered}
use dante_api_systems.Bridge.Lookups.{show_transaction_detail}

-- A transaction of which the legacy system has not told anything: no reference, no reason of a
-- failure and no time of processing.
pub record IsPending (tx : Transaction) : Type 0 where
  pub no_reference : tx.legacy_reference_id ≡ none
  pub no_reason : tx.failure_reason ≡ none
  pub no_time : tx.processed_at ≡ none

-- What the payment service answered in the last call.
abbrev pub paid : Env Response → List Call → Option QrisResult
paid env (create_qris_transaction request ∷ h) = answered (env h (create_qris_transaction request))
paid env (create_transfer_transaction request ∷ h) =
    answered (env h (create_transfer_transaction request))
paid env _ = none

-- An accepted QRIS payment is shown as its detail is: where the service answered a pending
-- transaction, the body that the payment handler answers is that of the detail handler, if the
-- detail service reads the same row.
pub post_qris_payment-detail :
    (formats : Formats) (input : QrisPaymentRequest) (env env' : Env Response)
    (dto : TransactionDetailDto) (result : QrisResult) (id : String) (key : Uuid)
    → (post_qris_payment formats input env []).0 ≡ ok (body dto)
    → paid env (post_qris_payment formats input env []).1 ≡ some result
    → IsPending result.transaction
    → formats.uuid_parse id ≡ answer key
    → env' [] (get_detail key) ≡ answer (map_transaction_row result.transaction)
    → (show_transaction_detail formats id env' []).0 ≡ ok (body dto)
unfolding post_qris_payment show_transaction_detail
post_qris_payment-detail formats input env env' dto result id key done told pending parsed found =
    ground arith

-- The same of an accepted transfer, whose transaction has no merchant.
pub post_transfer-detail :
    (formats : Formats) (input : TransferRequest) (env env' : Env Response)
    (dto : TransactionDetailDto) (result : QrisResult) (id : String) (key : Uuid)
    → (post_transfer formats input env []).0 ≡ ok (body dto)
    → paid env (post_transfer formats input env []).1 ≡ some result
    → IsPending result.transaction
    → result.transaction.merchant_id ≡ none
    → formats.uuid_parse id ≡ answer key
    → env' [] (get_detail key) ≡ answer (map_transaction_row result.transaction)
    → (show_transaction_detail formats id env' []).0 ≡ ok (body dto)
unfolding post_transfer show_transaction_detail
post_transfer-detail formats input env env' dto result id key done told pending bare parsed found =
    ground arith
