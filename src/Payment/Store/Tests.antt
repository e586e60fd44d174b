-- ===== src/Payment/Store/Tests.antt =====
-- A database with one account and one merchant, a request of each kind, and the handling of its
-- job.
use dante_api_systems.Base.{◌+◌, ◌≡◌, refl, true, [], ◌∷◌, List, length, Option, none, some, String}
use dante_api_systems.Base.Int.{pos}
use dante_api_systems.Go.Errors.{Error, failure}
use dante_api_systems.Go.Exec.{answer, error, Env}
use dante_api_systems.Models.{Uuid, Time, Transaction}
use dante_api_systems.Queue.Messages.{QrisPaymentMessage, TransferMessage}
use dante_api_systems.Payment.Calls.{
  Call, Response, get_account_by_number, get_merchant_by_id, get_merchant_by_qris_code,
  create_merchant, get_transaction_by_idempotency_key, list_transaction_events, create_transaction,
  create_transaction_event, update_transaction_status, create_legacy_call_log, get_qris_merchant,
  publish_qris_payment, publish_transfer, set_transaction_status, delete_account_balance, pay_qris,
  transfer, now, status_processing,
}
use dante_api_systems.Payment.Store.{Tables, changed, after, served}
use dante_api_systems.Payment.Store.Accepted.{last_transfer, last_payment}
use dante_api_systems.Payment.Store.Settlement.{
  store, stored_status, IsSettled, accepted_transfer_settles, accepted_payment_settles,
}
use dante_api_systems.Database.Accounts
use dante_api_systems.Database.Merchants
use dante_api_systems.Database.Transactions
use dante_api_systems.Payment.Merchants.{resolve_merchant}
use dante_api_systems.Payment.Qris.{QrisRequest, accept, create_qris_transaction}
use dante_api_systems.Payment.Qris
use dante_api_systems.Payment.Transfer.{create_transfer_transaction}
use dante_api_systems.Payment.Transfer
use dante_api_systems.Go.Strings.{trim_space}
use dante_api_systems.Payment.Worker.Qris.{handle_qris_payment}
use dante_api_systems.Payment.Worker.Transfers.{handle_transfer}
use dante_api_systems.Payment.Tests.{
  externals, count_strokes-strokes, account, merchant, payment, order,
}

abbrev uuids : List Call → Uuid
uuids h = length h + 10

abbrev clock : List Call → Time
clock h = length h + 100

abbrev no_outage : List Call → Option Error
no_outage h = none

-- The other components: the legacy system refuses, and the rest does as it is asked.
abbrev others : Env Response
others h (get_account_by_number number) = answer account
others h (get_merchant_by_id id) = answer merchant
others h (get_merchant_by_qris_code code) = answer merchant
others h (create_merchant params) = answer merchant
others h (get_transaction_by_idempotency_key key) = error (failure "not asked")
others h (list_transaction_events id) = answer []
others h (create_transaction params) = error (failure "not asked")
others h (create_transaction_event params) = error (failure "not asked")
others h (update_transaction_status params) = error (failure "not asked")
others h (create_legacy_call_log params) = answer tt
others h (get_qris_merchant code) = error (failure "down")
others h (publish_qris_payment msg) = answer tt
others h (publish_transfer msg) = answer tt
others h (set_transaction_status entry ttl) = answer tt
others h (delete_account_balance id) = answer tt
others h (pay_qris number code amount) = error (failure "refused")
others h (transfer from pin to amount) = error (failure "refused")
others h now = length h + 100

abbrev tables : Tables
tables = record {
  users = record { id = 7; name = "Ani"; phone_number = none; created_at = 1 } ∷ [];
  accounts = account ∷ [];
  merchants = merchant ∷ [];
  transactions = [];
  transaction_events = [];
  legacy_call_logs = [];
}

abbrev sent : Transaction
sent = record {
  id = 12;
  user_id = 7;
  merchant_id = none;
  account_id = 2;
  amount = pos 250;
  status = "PROCESSING";
  idempotency_key = "key";
  legacy_reference_id = none;
  failure_reason = none;
  requested_at = 102;
  processed_at = none;
  created_at = 102;
  updated_at = 102;
}

abbrev env : Env Response
env = store uuids clock no_outage others tables

abbrev status_after : Uuid → List Call → Option String
status_after = stored_status uuids clock no_outage others tables

abbrev after_transfer : List Call
after_transfer = (create_transfer_transaction externals order env []).1

accepted_transfer_settles_example :
    (msg : TransferMessage) × (last_transfer after_transfer ≡ some msg)
    × (msg.to_account_number ≡ order.to_account_number)
    × (msg.amount ≡ order.amount)
    × (status_after 12 after_transfer ≡ some status_processing)
    × (let (r, k) = handle_transfer externals true msg env after_transfer in
        IsSettled uuids clock no_outage others tables 12 after_transfer r k
        × (status_after 13 k ≡ status_after 13 after_transfer))
unfolding create_transfer_transaction Transfer.replayed Transfer.accepted after served changed
    Accounts.get_account_by_number Transactions.get_transaction_by_idempotency_key
    Transactions.create_transaction Transactions.create_transaction_event
accepted_transfer_settles_example =
    accepted_transfer_settles uuids clock no_outage others tables externals true order sent
      after_transfer 13 count_strokes-strokes refl refl

abbrev paid : Transaction
paid = record sent {
  id = 13;
  merchant_id = some 4;
  requested_at = 103;
  created_at = 103;
  updated_at = 103;
}

abbrev by_uuid : QrisRequest
by_uuid = record payment { merchant_ref = "|||||" }

abbrev after_payment : List Call
after_payment = (create_qris_transaction externals true by_uuid env []).1

accepted_payment_settles_example :
    (msg : QrisPaymentMessage) × (last_payment after_payment ≡ some msg)
    × (msg.amount ≡ pos 250)
    × (status_after 13 after_payment ≡ some status_processing)
    × (let (r, k) = handle_qris_payment externals true msg env after_payment in
        IsSettled uuids clock no_outage others tables 13 after_payment r k
        × (status_after 12 k ≡ status_after 12 after_payment))
unfolding create_qris_transaction Qris.accepted accept resolve_merchant trim_space after served
    changed Accounts.get_account_by_number Merchants.get_merchant_by_id
    Merchants.get_merchant_by_qris_code Transactions.get_transaction_by_idempotency_key
    Transactions.create_transaction Transactions.create_transaction_event
accepted_payment_settles_example =
    accepted_payment_settles uuids clock no_outage others tables externals true true by_uuid paid
      after_payment 12 count_strokes-strokes refl refl
