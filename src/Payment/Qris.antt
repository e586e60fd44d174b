-- ===== src/Payment/Qris.antt =====
-- internal/service/payment/qris.go: CreateTransaction of QRISService. Each check of an error is a
-- function by clauses on the reply.
pub mod Acceptance
pub mod Replay
pub mod Stranded
use dante_api_systems.Base.{
  Bool, true, false, not, ◌&&◌, ◌||◌, ◌==◌, [], ◌∷◌, Option, none, some, String, if◌then◌else◌,
}
use dante_api_systems.Base.Int.{ℤ, eqb_ℤ}
use dante_api_systems.Go.Errors.{
  Error, sentinel, wrap, is, no_rows, idempotency_conflict, account_not_provisioned,
}
use dante_api_systems.Go.Exec.{Reply, answer, error, ask, pure, fail, ◌>>=◌}
use dante_api_systems.Models.{
  Uuid, Time, Account, Merchant, Transaction, TransactionEvent, CreateTransactionParams, Metadata,
  object, text, number,
}
use dante_api_systems.Views.{SessionView}
use dante_api_systems.Cache.Policy.{transaction_status_ttl}
use dante_api_systems.Payment.Calls.{
  Action, Externals, QrisResult, translated, cache_entry_from_transaction, status_processing,
  status_failed, get_account_by_number, get_transaction_by_idempotency_key, create_transaction,
  create_transaction_event, update_transaction_status, set_transaction_status, publish_qris_payment,
  now,
}
use dante_api_systems.Queue.Messages.{QrisPaymentMessage}
use dante_api_systems.Payment.Merchants.{resolve_merchant}

pub record QrisRequest : Type 0 where
  pub session : SessionView
  pub merchant_ref : String
  pub amount : ℤ
  pub idempotency_key : String

-- Whether the merchant of a stored transaction is `id`.
abbrev pub is_merchant : Option Uuid → Uuid → Bool
is_merchant (some stored) id = stored == id
is_merchant none id = false

abbrev pub matches : Transaction → Account → Merchant → ℤ → Bool
matches existing account merchant amount =
    existing.account_id == account.id
    && is_merchant existing.merchant_id merchant.id
    && eqb_ℤ existing.amount amount

module _ (externals : Externals) (has_legacy : Bool) (req : QrisRequest) where
  open externals use {uuid_string}

  abbrev pub replay : Transaction → Account → Merchant → Action QrisResult
  replay existing account merchant =
      if matches existing account merchant req.amount
      then pure (record { transaction = existing; created = false })
      else fail (sentinel idempotency_conflict)

  abbrev replayed_for : Transaction → Reply Account → Action QrisResult
  replayed_for existing (error e) = fail (wrap "load account for idempotency comparison" e)
  replayed_for existing (answer account) = do
    merchant ← resolve_merchant externals has_legacy req.merchant_ref
    replay existing account merchant

  -- A request under a key that has a transaction already.
  unfoldable pub replayed : Transaction → Action QrisResult
  replayed existing = do
    found ← ask (get_account_by_number req.session.account_number)
    replayed_for existing found

  -- The event of a failed publishing, whose own error is dropped, and the answer.
  abbrev report_failure : Transaction → Error → Action QrisResult
  report_failure tx e = do
    logged ← ask (
        create_transaction_event (record {
          transaction_id = tx.id;
          event_type = "TRANSACTION_QUEUE_PUBLISH_FAILED";
          message = some "failed to publish qris job";
          metadata = object (("reason", text "queue_publish_failed") ∷ []);
        }))
    fail (wrap "publish qris job" e)

  -- The failed row is cached if it was written; the error of the caching is dropped.
  abbrev marked_failed : Transaction → Error → Time → Reply Transaction → Action QrisResult
  marked_failed tx e at (error update_error) = report_failure tx e
  marked_failed tx e at (answer row) = do
    cached ← ask (
        set_transaction_status (cache_entry_from_transaction externals row (some at))
          transaction_status_ttl)
    report_failure tx e

  -- What follows the publishing.
  abbrev published : Transaction → Reply (Unit {0}) → Action QrisResult
  published tx (error e) = do
    at ← ask now
    updated ← ask (
        update_transaction_status (record {
          id = tx.id;
          status = status_failed;
          failure_reason = some "queue publish failed";
          processed_at = some at;
        }))
    marked_failed tx e at updated
  published tx (answer u) = do
    logged ← ask (
        create_transaction_event (record {
          transaction_id = tx.id;
          event_type = "TRANSACTION_ENQUEUED";
          message = some "transaction queued for worker processing";
          metadata = object (("queue", text "qris") ∷ []);
        }))
    pure (record { transaction = tx; created = true })

  abbrev created_metadata : Account → Merchant → Metadata
  created_metadata account merchant = object (
      ("merchant_id", text (uuid_string merchant.id))
      ∷ ("merchant_code", text merchant.qris_code)
      ∷ ("amount", number req.amount)
      ∷ ("account_id", text (uuid_string account.id))
      ∷ [])

  abbrev new_transaction : Account → Merchant → CreateTransactionParams
  new_transaction account merchant = record {
    user_id = account.user_id;
    merchant_id = some merchant.id;
    account_id = account.id;
    amount = req.amount;
    status = status_processing;
    idempotency_key = req.idempotency_key;
    legacy_reference_id = none;
    failure_reason = none;
    processed_at = none;
  }

  abbrev pub payment_message : Transaction → Account → Merchant → QrisPaymentMessage
  payment_message tx account merchant = record {
    transaction_id = uuid_string tx.id;
    account_uuid = uuid_string account.id;
    account_id = req.session.legacy_account_id;
    account_number = req.session.account_number;
    merchant_id = uuid_string merchant.id;
    merchant_code = merchant.qris_code;
    amount = tx.amount;
  }

  abbrev with_status : Account → Merchant → Transaction → Reply (Unit {0}) → Action QrisResult
  with_status account merchant tx (error e) = fail (wrap "cache transaction status" e)
  with_status account merchant tx (answer u) = do
    sent ← ask (publish_qris_payment (payment_message tx account merchant))
    published tx sent

  abbrev with_event : Account → Merchant → Transaction → Reply TransactionEvent → Action QrisResult
  with_event account merchant tx (error e) = fail (wrap "create transaction event" e)
  with_event account merchant tx (answer event) = do
    cached ← ask (
        set_transaction_status (cache_entry_from_transaction externals tx none)
          transaction_status_ttl)
    with_status account merchant tx cached

  abbrev with_row : Account → Merchant → Reply Transaction → Action QrisResult
  with_row account merchant (error e) = fail (wrap "create transaction" e)
  with_row account merchant (answer tx) = do
    logged ← ask (
        create_transaction_event (record {
          transaction_id = tx.id;
          event_type = "TRANSACTION_CREATED";
          message = some "transaction accepted for async QRIS processing";
          metadata = created_metadata account merchant;
        }))
    with_event account merchant tx logged

  -- The row, its event, its cached status, and the job, in this order.
  unfoldable pub accept : Account → Merchant → Action QrisResult
  accept account merchant = do
    made ← ask (create_transaction (new_transaction account merchant))
    with_row account merchant made

  abbrev provisioned : Reply Account → Action QrisResult
  provisioned (error e) = fail (translated e no_rows account_not_provisioned "load local account")
  provisioned (answer account) = do
    merchant ← resolve_merchant externals has_legacy req.merchant_ref
    accept account merchant

  -- A request under a new key.
  unfoldable pub accepted : Action QrisResult
  accepted = do found ← ask (get_account_by_number req.session.account_number); provisioned found

  abbrev looked_up : Reply Transaction → Action QrisResult
  looked_up (answer existing) = replayed existing
  looked_up (error e) = if is e no_rows then accepted else fail (wrap "lookup idempotency key" e)

  -- `QRISService.CreateTransaction`
  unfoldable pub create_qris_transaction : Action QrisResult
  create_qris_transaction = do
    existing ← ask (get_transaction_by_idempotency_key req.idempotency_key)
    looked_up existing
