-- ===== src/Payment/Worker/Transfers.antt =====
-- internal/service/payment/transfer_worker.go: HandleTransfer.
pub mod Finish
use dante_api_systems.Base.{Bool, true, false, [], ◌∷◌, none, some}
use dante_api_systems.Go.Errors.{Error, wrap}
use dante_api_systems.Go.Exec.{Reply, answer, error, ask, pure, fail, ◌>>=◌}
use dante_api_systems.Models.{
  Uuid, Time, Transaction, TransactionEvent, Metadata, object, text, number,
}
use dante_api_systems.Views.{TransferResult}
use dante_api_systems.Cache.Policy.{transaction_status_ttl}
use dante_api_systems.Queue.Messages.{TransferMessage}
use dante_api_systems.Payment.Calls.{
  Action, Externals, cache_entry_from_transaction, status_success, status_failed,
  create_transaction_event, update_transaction_status, set_transaction_status, transfer, now,
}
use dante_api_systems.Payment.Worker.{must_parse, log_legacy_call, invalidate_balance}

module _ (externals : Externals) (has_balances : Bool) (msg : TransferMessage) where
  open externals use {error_text}

  abbrev success_metadata : TransferResult → Metadata
  success_metadata result = object (
      ("from_account", text result.from_account)
      ∷ ("to_account", text result.to_account)
      ∷ ("amount", number result.amount)
      ∷ ("transaction_id", text msg.transaction_id)
      ∷ [])

  abbrev failure_metadata : Error → Metadata
  failure_metadata cause = object (
      ("reason", text (error_text cause))
      ∷ ("to_account", text msg.to_account_number)
      ∷ ("amount", number msg.amount)
      ∷ ("transaction_id", text msg.transaction_id)
      ∷ [])

  abbrev success_recorded : Reply TransactionEvent → Action (Unit {0})
  success_recorded (error e) = fail (wrap "create transfer success event" e)
  success_recorded (answer event) = pure tt

  abbrev success_invalidated : Transaction → TransferResult → Reply (Unit {0}) → Action (Unit {0})
  success_invalidated tx result (error e) = fail (wrap "invalidate transfer balance cache" e)
  success_invalidated tx result (answer u) = do
    logged ← ask (
        create_transaction_event (record {
          transaction_id = tx.id;
          event_type = "TRANSFER_SUCCEEDED";
          message = some "transfer completed successfully";
          metadata = success_metadata result;
        }))
    success_recorded logged

  abbrev success_cached : Transaction → TransferResult → Reply (Unit {0}) → Action (Unit {0})
  success_cached tx result (error e) = fail (wrap "cache transfer success status" e)
  success_cached tx result (answer u) = do
    dropped ← invalidate_balance externals has_balances msg.account_uuid
    success_invalidated tx result dropped

  abbrev success_updated : TransferResult → Time → Reply Transaction → Action (Unit {0})
  success_updated result at (error e) = fail (wrap "mark transfer success" e)
  success_updated result at (answer tx) = do
    cached ← ask (
        set_transaction_status (cache_entry_from_transaction externals tx (some at))
          transaction_status_ttl)
    success_cached tx result cached

  abbrev mark_succeeded : TransferResult → Action (Unit {0})
  mark_succeeded result = do
    at ← ask now
    id ← must_parse externals msg.transaction_id
    updated ← ask (
        update_transaction_status (record {
          id = id;
          status = status_success;
          failure_reason = none;
          processed_at = some at;
        }))
    success_updated result at updated

  abbrev failure_recorded : Reply TransactionEvent → Action (Unit {0})
  failure_recorded (error e) = fail (wrap "create transfer failure event" e)
  failure_recorded (answer event) = pure tt

  abbrev failure_cached : Transaction → Error → Reply (Unit {0}) → Action (Unit {0})
  failure_cached tx cause (error e) = fail (wrap "cache transfer failed status" e)
  failure_cached tx cause (answer u) = do
    logged ← ask (
        create_transaction_event (record {
          transaction_id = tx.id;
          event_type = "TRANSFER_FAILED";
          message = some "transfer failed during worker execution";
          metadata = failure_metadata cause;
        }))
    failure_recorded logged

  abbrev failure_updated : Error → Time → Reply Transaction → Action (Unit {0})
  failure_updated cause at (error e) = fail (wrap "mark transfer failed" e)
  failure_updated cause at (answer tx) = do
    cached ← ask (
        set_transaction_status (cache_entry_from_transaction externals tx (some at))
          transaction_status_ttl)
    failure_cached tx cause cached

  abbrev mark_failed : Error → Action (Unit {0})
  mark_failed cause = do
    at ← ask now
    id ← must_parse externals msg.transaction_id
    updated ← ask (
        update_transaction_status (record {
          id = id;
          status = status_failed;
          failure_reason = some (error_text cause);
          processed_at = some at;
        }))
    failure_updated cause at updated

  abbrev executed : Uuid → Time → Reply TransferResult → Action (Unit {0})
  executed id started (error e) = do
    logged ← log_legacy_call externals id "transfer" false started (some e)
    mark_failed e
  executed id started (answer result) = do
    logged ← log_legacy_call externals id "transfer" true started none
    mark_succeeded result

  abbrev started_event : Uuid → Time → Reply TransactionEvent → Action (Unit {0})
  started_event id started (error e) = fail (wrap "create transfer worker start event" e)
  started_event id started (answer event) = do
    result ←
        ask (transfer msg.from_account_number msg.transaction_pin msg.to_account_number msg.amount)
    executed id started result

  -- `TransferWorker.HandleTransfer`
  unfoldable pub handle_transfer : Action (Unit {0})
  handle_transfer = do
    id ← must_parse externals msg.transaction_id
    started ← ask now
    logged ← ask (
        create_transaction_event (record {
          transaction_id = id;
          event_type = "TRANSFER_WORKER_STARTED";
          message = some "worker started transfer execution";
          metadata = object (("queue", text "transfer") ∷ []);
        }))
    started_event id started logged
