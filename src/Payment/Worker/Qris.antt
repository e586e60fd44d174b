-- ===== src/Payment/Worker/Qris.antt =====
-- internal/service/payment/worker.go: HandleQRISPayment.
pub mod Finish
use dante_api_systems.Base.{Bool, true, false, [], ◌∷◌, none, some}
use dante_api_systems.Go.Errors.{Error, wrap}
use dante_api_systems.Go.Exec.{Reply, answer, error, ask, pure, fail, ◌>>=◌}
use dante_api_systems.Models.{
  Uuid, Time, Transaction, TransactionEvent, Metadata, object, text, number,
}
use dante_api_systems.Views.{QrisPaymentResult}
use dante_api_systems.Cache.Policy.{transaction_status_ttl}
use dante_api_systems.Queue.Messages.{QrisPaymentMessage}
use dante_api_systems.Payment.Calls.{
  Action, Externals, cache_entry_from_transaction, status_success, status_failed,
  create_transaction_event, update_transaction_status, set_transaction_status, pay_qris, now,
}
use dante_api_systems.Payment.Worker.{must_parse, log_legacy_call, invalidate_balance}

module _ (externals : Externals) (has_balances : Bool) (msg : QrisPaymentMessage) where
  open externals use {error_text}

  abbrev success_metadata : QrisPaymentResult → Metadata
  success_metadata result = object (
      ("account_id", text result.account_id)
      ∷ ("merchant_code", text result.merchant_code)
      ∷ ("amount", number result.amount)
      ∷ ("transaction_id", text msg.transaction_id)
      ∷ [])

  abbrev failure_metadata : Error → Metadata
  failure_metadata cause = object (
      ("reason", text (error_text cause))
      ∷ ("merchant_code", text msg.merchant_code)
      ∷ ("amount", number msg.amount)
      ∷ ("transaction_id", text msg.transaction_id)
      ∷ [])

  abbrev success_recorded : Reply TransactionEvent → Action (Unit {0})
  success_recorded (error e) = fail (wrap "create success event" e)
  success_recorded (answer event) = pure tt

  abbrev success_invalidated :
      Transaction → QrisPaymentResult → Reply (Unit {0}) → Action (Unit {0})
  success_invalidated tx result (error e) = fail (wrap "invalidate account balance cache" e)
  success_invalidated tx result (answer u) = do
    logged ← ask (
        create_transaction_event (record {
          transaction_id = tx.id;
          event_type = "TRANSACTION_SUCCEEDED";
          message = some "qris payment completed successfully";
          metadata = success_metadata result;
        }))
    success_recorded logged

  abbrev success_cached : Transaction → QrisPaymentResult → Reply (Unit {0}) → Action (Unit {0})
  success_cached tx result (error e) = fail (wrap "cache success transaction status" e)
  success_cached tx result (answer u) = do
    dropped ← invalidate_balance externals has_balances msg.account_uuid
    success_invalidated tx result dropped

  abbrev success_updated : QrisPaymentResult → Time → Reply Transaction → Action (Unit {0})
  success_updated result at (error e) = fail (wrap "mark transaction success" e)
  success_updated result at (answer tx) = do
    cached ← ask (
        set_transaction_status (cache_entry_from_transaction externals tx (some at))
          transaction_status_ttl)
    success_cached tx result cached

  abbrev mark_succeeded : QrisPaymentResult → Action (Unit {0})
  mark_succeeded result = do
    at ← ask now
    id ← must_parse externals msg.transaction_id
    updated ← ask (
        update_transaction_status (record {
          id = id;
          status = status_success;
          failure_reason = none;
          processed_at = some at;
        }))
    success_updated result at updated

  abbrev failure_recorded : Reply TransactionEvent → Action (Unit {0})
  failure_recorded (error e) = fail (wrap "create failure event" e)
  failure_recorded (answer event) = pure tt

  abbrev failure_cached : Transaction → Error → Reply (Unit {0}) → Action (Unit {0})
  failure_cached tx cause (error e) = fail (wrap "cache failed transaction status" e)
  failure_cached tx cause (answer u) = do
    logged ← ask (
        create_transaction_event (record {
          transaction_id = tx.id;
          event_type = "TRANSACTION_FAILED";
          message = some "qris payment failed during worker execution";
          metadata = failure_metadata cause;
        }))
    failure_recorded logged

  abbrev failure_updated : Error → Time → Reply Transaction → Action (Unit {0})
  failure_updated cause at (error e) = fail (wrap "mark transaction failed" e)
  failure_updated cause at (answer tx) = do
    cached ← ask (
        set_transaction_status (cache_entry_from_transaction externals tx (some at))
          transaction_status_ttl)
    failure_cached tx cause cached

  abbrev mark_failed : Error → Action (Unit {0})
  mark_failed cause = do
    at ← ask now
    id ← must_parse externals msg.transaction_id
    updated ← ask (
        update_transaction_status (record {
          id = id;
          status = status_failed;
          failure_reason = some (error_text cause);
          processed_at = some at;
        }))
    failure_updated cause at updated

  abbrev executed : Uuid → Time → Reply QrisPaymentResult → Action (Unit {0})
  executed id started (error e) = do
    logged ← log_legacy_call externals id "qris" false started (some e)
    mark_failed e
  executed id started (answer result) = do
    logged ← log_legacy_call externals id "qris" true started none
    mark_succeeded result

  abbrev started_event : Uuid → Time → Reply TransactionEvent → Action (Unit {0})
  started_event id started (error e) = fail (wrap "create worker start event" e)
  started_event id started (answer event) = do
    result ← ask (pay_qris msg.account_number msg.merchant_code msg.amount)
    executed id started result

  -- `QRISWorker.HandleQRISPayment`
  unfoldable pub handle_qris_payment : Action (Unit {0})
  handle_qris_payment = do
    id ← must_parse externals msg.transaction_id
    started ← ask now
    logged ← ask (
        create_transaction_event (record {
          transaction_id = id;
          event_type = "TRANSACTION_WORKER_STARTED";
          message = some "worker started qris payment execution";
          metadata = object (("queue", text "qris") ∷ []);
        }))
    started_event id started logged
