-- ===== src/Payment/Transfer.antt =====
-- internal/service/payment/transfer.go: CreateTransaction of TransferService. Each check of an
-- error is a function by clauses on the reply.
pub mod Acceptance
pub mod Replay
use dante_api_systems.Base.{
  Bool, true, false, ◌&&◌, ◌==◌, List, [], ◌∷◌, Option, none, some, String, str_eq, if◌then◌else◌,
}
use dante_api_systems.Base.Int.{ℤ, eqb_ℤ}
use dante_api_systems.Base.Dict.{Dict, lookup}
use dante_api_systems.Go.Errors.{
  Error, sentinel, wrap, is, no_rows, idempotency_conflict, account_not_provisioned, syntax_error,
  type_error,
}
use dante_api_systems.Go.Exec.{Reply, answer, error, ask, pure, fail, ◌>>=◌}
use dante_api_systems.Models.{
  Uuid, Time, Account, Transaction, TransactionEvent, CreateTransactionParams, Scalar, Metadata,
  object, malformed, text, number,
}
use dante_api_systems.Views.{SessionView}
use dante_api_systems.Cache.Policy.{transaction_status_ttl}
use dante_api_systems.Payment.Calls.{
  Action, Externals, QrisResult, translated, cache_entry_from_transaction, status_processing,
  status_failed, get_account_by_number, get_transaction_by_idempotency_key, list_transaction_events,
  create_transaction, create_transaction_event, update_transaction_status, set_transaction_status,
  publish_transfer, now,
}
use dante_api_systems.Queue.Messages.{TransferMessage}

pub record TransferRequest : Type 0 where
  pub session : SessionView
  pub to_account_number : String
  pub amount : ℤ
  pub transaction_pin : String
  pub idempotency_key : String

-- encoding/json reads the destination from an event's document; one that is missing reads as "".
abbrev destination_of : Option Scalar → Reply String
destination_of none = answer ""
destination_of (some (text account_number)) = answer account_number
destination_of (some (number n)) = error type_error

abbrev destination : Metadata → Reply String
destination (object fields) = destination_of (lookup "to_account_number" fields)
destination malformed = error syntax_error

abbrev is_destination : Reply String → String → Bool
is_destination (answer stored) account_number = str_eq stored account_number
is_destination (error e) account_number = false

-- Only the first event of a creation counts.
unfoldable pub transfer_replay_matches : List TransactionEvent → String → Bool
transfer_replay_matches [] account_number = false
transfer_replay_matches (event ∷ events) account_number =
    let rest = transfer_replay_matches events account_number in
    if str_eq event.event_type "TRANSFER_CREATED"
    then is_destination (destination event.metadata) account_number
    else rest

abbrev has_merchant : Option Uuid → Bool
has_merchant (some id) = true
has_merchant none = false

abbrev pub matches : Transaction → Account → ℤ → Bool
matches existing account amount =
    existing.account_id == account.id
    && (if has_merchant existing.merchant_id then false else true)
    && eqb_ℤ existing.amount amount

module _ (externals : Externals) (req : TransferRequest) where
  open externals use {uuid_string}

  abbrev replayed_events : Transaction → Reply (List TransactionEvent) → Action QrisResult
  replayed_events existing (error e) =
      fail (wrap "load transaction events for idempotency comparison" e)
  replayed_events existing (answer events) =
      if transfer_replay_matches events req.to_account_number
      then pure (record { transaction = existing; created = false })
      else fail (sentinel idempotency_conflict)

  abbrev replayed_for : Transaction → Reply Account → Action QrisResult
  replayed_for existing (error e) = fail (wrap "load source account for idempotency comparison" e)
  replayed_for existing (answer account) =
      if matches existing account req.amount
      then (do events ← ask (list_transaction_events existing.id); replayed_events existing events)
      else fail (sentinel idempotency_conflict)

  -- A request under a key that has a transaction already.
  unfoldable pub replayed : Transaction → Action QrisResult
  replayed existing = do
    found ← ask (get_account_by_number req.session.account_number)
    replayed_for existing found

  -- The event of a failed publishing, whose own error is dropped, and the answer.
  abbrev report_failure : Transaction → Error → Action QrisResult
  report_failure tx e = do
    logged ← ask (
        create_transaction_event (record {
          transaction_id = tx.id;
          event_type = "TRANSACTION_QUEUE_PUBLISH_FAILED";
          message = some "failed to publish transfer job";
          metadata =
              object (("reason", text "queue_publish_failed") ∷ ("queue", text "transfer") ∷ []);
        }))
    fail (wrap "publish transfer job" e)

  -- The failed row is cached if it was written; the error of the caching is dropped.
  abbrev marked_failed : Transaction → Error → Time → Reply Transaction → Action QrisResult
  marked_failed tx e at (error update_error) = report_failure tx e
  marked_failed tx e at (answer row) = do
    cached ← ask (
        set_transaction_status (cache_entry_from_transaction externals row (some at))
          transaction_status_ttl)
    report_failure tx e

  -- What follows the publishing.
  abbrev published : Transaction → Reply (Unit {0}) → Action QrisResult
  published tx (error e) = do
    at ← ask now
    updated ← ask (
        update_transaction_status (record {
          id = tx.id;
          status = status_failed;
          failure_reason = some "queue publish failed";
          processed_at = some at;
        }))
    marked_failed tx e at updated
  published tx (answer u) = do
    logged ← ask (
        create_transaction_event (record {
          transaction_id = tx.id;
          event_type = "TRANSFER_ENQUEUED";
          message = some "transfer queued for worker processing";
          metadata = object (("queue", text "transfer") ∷ []);
        }))
    pure (record { transaction = tx; created = true })

  abbrev pub created_metadata : Account → Metadata
  created_metadata account = object (
      ("transaction_type", text "transfer")
      ∷ ("to_account_number", text req.to_account_number)
      ∷ ("amount", number req.amount)
      ∷ ("account_id", text (uuid_string account.id))
      ∷ [])

  abbrev pub new_transaction : Account → CreateTransactionParams
  new_transaction account = record {
    user_id = account.user_id;
    merchant_id = none;
    account_id = account.id;
    amount = req.amount;
    status = status_processing;
    idempotency_key = req.idempotency_key;
    legacy_reference_id = none;
    failure_reason = none;
    processed_at = none;
  }

  abbrev pub transfer_message : Transaction → Account → TransferMessage
  transfer_message tx account = record {
    transaction_id = uuid_string tx.id;
    account_uuid = uuid_string account.id;
    from_account_id = req.session.legacy_account_id;
    from_account_number = req.session.account_number;
    to_account_number = req.to_account_number;
    transaction_pin = req.transaction_pin;
    amount = req.amount;
  }

  abbrev with_status : Account → Transaction → Reply (Unit {0}) → Action QrisResult
  with_status account tx (error e) = fail (wrap "cache transfer transaction status" e)
  with_status account tx (answer u) = do
    sent ← ask (publish_transfer (transfer_message tx account))
    published tx sent

  abbrev with_event : Account → Transaction → Reply TransactionEvent → Action QrisResult
  with_event account tx (error e) = fail (wrap "create transfer transaction event" e)
  with_event account tx (answer event) = do
    cached ← ask (
        set_transaction_status (cache_entry_from_transaction externals tx none)
          transaction_status_ttl)
    with_status account tx cached

  abbrev with_row : Account → Reply Transaction → Action QrisResult
  with_row account (error e) = fail (wrap "create transfer transaction" e)
  with_row account (answer tx) = do
    logged ← ask (
        create_transaction_event (record {
          transaction_id = tx.id;
          event_type = "TRANSFER_CREATED";
          message = some "transfer accepted for async processing";
          metadata = created_metadata account;
        }))
    with_event account tx logged

  -- The row, its event, its cached status, and the job, in this order.
  abbrev provisioned : Reply Account → Action QrisResult
  provisioned (error e) =
      fail (translated e no_rows account_not_provisioned "load local source account")
  provisioned (answer account) = do
    made ← ask (create_transaction (new_transaction account))
    with_row account made

  -- A request under a new key.
  unfoldable pub accepted : Action QrisResult
  accepted = do found ← ask (get_account_by_number req.session.account_number); provisioned found

  abbrev looked_up : Reply Transaction → Action QrisResult
  looked_up (answer existing) = replayed existing
  looked_up (error e) = if is e no_rows then accepted else fail (wrap "lookup idempotency key" e)

  -- `TransferService.CreateTransaction`
  unfoldable pub create_transfer_transaction : Action QrisResult
  create_transfer_transaction = do
    existing ← ask (get_transaction_by_idempotency_key req.idempotency_key)
    looked_up existing
