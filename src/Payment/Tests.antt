-- ===== src/Payment/Tests.antt =====
-- Tests and concrete instances for the intakes and the workers.
use dante_api_systems.Base.{
  ◌⊎◌, zero, suc, ◌≡◌, ◌≢◌, refl, ap, true, false, [], ◌∷◌, Option, none, some, String,
}
use dante_api_systems.Base.Int.{pos}
use dante_api_systems.Go.Errors.{sentinel, failure, no_rows, legacy_not_found, idempotency_conflict}
use dante_api_systems.Go.Exec.{Reply, answer, error, ok, err, Env}
use dante_api_systems.Go.Trace.{total}
use dante_api_systems.Models.{Uuid, Account, Merchant, Transaction, TransactionEvent, malformed}
use dante_api_systems.Views.{SessionView}
use dante_api_systems.Queue.Messages.{QrisPaymentMessage, TransferMessage}
use dante_api_systems.Payment.Calls.{
  Response, Externals, get_account_by_number, get_merchant_by_id, get_merchant_by_qris_code,
  create_merchant, get_transaction_by_idempotency_key, list_transaction_events, create_transaction,
  create_transaction_event, update_transaction_status, create_legacy_call_log, get_qris_merchant,
  publish_qris_payment, publish_transfer, set_transaction_status, delete_account_balance, pay_qris,
  transfer, now,
}
use dante_api_systems.Payment.Effects.{Accounted}
use dante_api_systems.Go.Strings.{trim_space}
use dante_api_systems.Payment.Merchants.{resolve_merchant}
use dante_api_systems.Payment.Qris.{QrisRequest, payment_message, create_qris_transaction}
use dante_api_systems.Payment.Qris.Acceptance.{create_qris_transaction-Accounted}
use dante_api_systems.Payment.Qris.Replay.{replay_decides}
use dante_api_systems.Payment.Transfer.{
  TransferRequest, created_metadata, transfer_message, create_transfer_transaction,
}
use dante_api_systems.Payment.Transfer.Acceptance.{create_transfer_transaction-Accounted}
use dante_api_systems.Payment.Worker.Outcome.{Faithful, carried, succeeded, failed}
use dante_api_systems.Payment.Worker.Qris.{handle_qris_payment}
use dante_api_systems.Payment.Worker.Qris.Finish.{
  handle_qris_payment-Faithful, handled_times, unmarked_pays_again,
}
use dante_api_systems.Payment.Worker.Transfers.{handle_transfer}
use dante_api_systems.Payment.Worker.Transfers.Finish.{handle_transfer-Faithful}

-- A uuid written as a row of strokes, which reads back.
abbrev pub strokes : Uuid → String
strokes zero = "|"
strokes (suc n) = String.◌∷◌ "|" (strokes n)

abbrev pub count_more : Option Uuid → Option Uuid
count_more none = none
count_more (some n) = some (suc n)

abbrev pub count_strokes : String → Option Uuid
count_strokes String.[] = none
count_strokes (String.◌∷◌ c String.[]) = some 0
count_strokes (String.◌∷◌ c (String.◌∷◌ d s)) = count_more (count_strokes (String.◌∷◌ d s))

pub count_strokes-strokes : (n : Uuid) → count_strokes (strokes n) ≡ some n
count_strokes-strokes zero = refl
count_strokes-strokes (suc zero) = refl
count_strokes-strokes (suc (suc n)) = ap count_more (count_strokes-strokes (suc n))

abbrev pub externals : Externals
externals = record { uuid_string = strokes; uuid_parse = count_strokes; error_text = λ e. "error" }

abbrev pub session : SessionView
session = record {
  token = "k";
  customer_id = "C1";
  account_id = "||";
  legacy_account_id = "A1";
  account_number = "100200";
  customer_name = "Ani";
  expires_at = 90;
  created_at = 10;
}

abbrev pub account : Account
account = record {
  id = 2;
  user_id = 7;
  account_number = "100200";
  balance = pos 5000;
  created_at = 1;
}

abbrev pub merchant : Merchant
merchant = record { id = 4; name = "Warung"; qris_code = "QR-1"; category = none; created_at = 1 }

abbrev paid : Transaction
paid = record {
  id = 3;
  user_id = 7;
  merchant_id = some 4;
  account_id = 2;
  amount = pos 250;
  status = "PROCESSING";
  idempotency_key = "key";
  legacy_reference_id = none;
  failure_reason = none;
  requested_at = 11;
  processed_at = none;
  created_at = 11;
  updated_at = 11;
}

abbrev sent : Transaction
sent = record paid { merchant_id = none }

abbrev pub payment : QrisRequest
payment = record {
  session = session;
  merchant_ref = " QR-1 ";
  amount = pos 250;
  idempotency_key = "key";
}

abbrev pub order : TransferRequest
order = record {
  session = session;
  to_account_number = "300400";
  amount = pos 250;
  transaction_pin = "123456";
  idempotency_key = "key";
}

abbrev created_event : TransactionEvent
created_event = record {
  id = 1;
  transaction_id = 3;
  event_type = "TRANSFER_CREATED";
  message = none;
  metadata = created_metadata externals order account;
  created_at = 11;
}

abbrev started_event : TransactionEvent
started_event = record created_event {
  event_type = "TRANSFER_WORKER_STARTED";
  metadata = malformed;
}

-- Everything answers; `found` is what is stored under the key, `tx` a new or updated row.
abbrev answering : Reply Transaction → Transaction → Env Response
answering found tx h (get_account_by_number account_number) = answer account
answering found tx h (get_merchant_by_id id) = answer merchant
answering found tx h (get_merchant_by_qris_code code) = answer merchant
answering found tx h (create_merchant params) = answer merchant
answering found tx h (get_transaction_by_idempotency_key key) = found
answering found tx h (list_transaction_events id) = answer (started_event ∷ created_event ∷ [])
answering found tx h (create_transaction params) = answer tx
answering found tx h (create_transaction_event params) = answer started_event
answering found tx h (update_transaction_status params) = answer tx
answering found tx h (create_legacy_call_log params) = answer tt
answering found tx h (get_qris_merchant code) = error (sentinel legacy_not_found)
answering found tx h (publish_qris_payment msg) = answer tt
answering found tx h (publish_transfer msg) = answer tt
answering found tx h (set_transaction_status entry ttl) = answer tt
answering found tx h (delete_account_balance id) = answer tt
answering found tx h (pay_qris a code amount) =
    answer (record { account_id = "A1"; merchant_code = code; amount = amount })
answering found tx h (transfer from pin to amount) =
    answer (record { from_account = from; to_account = to; amount = amount })
answering found tx h now = 12

abbrev nothing : Reply Transaction
nothing = error (sentinel no_rows)

-- As before, but one component fails.
abbrev cache_down : Env Response
cache_down h (set_transaction_status entry ttl) = error (failure "cache")
cache_down h c = answering nothing paid h c

abbrev marking_down : Env Response
marking_down h (update_transaction_status params) = error (failure "database")
marking_down h c = answering nothing paid h c

abbrev broker_down : Env Response
broker_down h (publish_qris_payment msg) = error (failure "broker")
broker_down h (publish_transfer msg) = error (failure "broker")
broker_down h c = answering nothing paid h c

abbrev job : QrisPaymentMessage
job = payment_message externals true payment paid account merchant

abbrev transfer_job : TransferMessage
transfer_job = transfer_message externals order sent account

create_qris_transaction-Accounted_example :
    let (r, t) = create_qris_transaction externals true payment broker_down [] in
    Accounted broker_down [] r t
create_qris_transaction-Accounted_example =
    create_qris_transaction-Accounted externals true payment broker_down

replay_decides_example :
    let env = answering (answer paid) paid in
    let r = (create_qris_transaction externals true payment env []).0 in
    let same =
      (paid.account_id ≡ account.id)
      × (paid.merchant_id ≡ some merchant.id)
      × (paid.amount ≡ payment.amount) in
    (same × (r ≡ ok (record { transaction = paid; created = false })))
    ⊎ ((¬ same) × (r ≡ err (sentinel idempotency_conflict)))
unfolding resolve_merchant trim_space
replay_decides_example =
    replay_decides externals true payment (answering (answer paid) paid) paid account merchant refl
      refl refl

create_transfer_transaction-Accounted_example :
    let (r, t) = create_transfer_transaction externals order broker_down [] in
    Accounted broker_down [] r t
create_transfer_transaction-Accounted_example =
    create_transfer_transaction-Accounted externals order broker_down

handle_qris_payment-Faithful_example :
    let (r, t) = handle_qris_payment externals true job marking_down [] in
    Faithful marking_down [] r t
handle_qris_payment-Faithful_example =
    handle_qris_payment-Faithful externals true job marking_down []

unmarked_pays_again_example :
    let t = handled_times externals true job marking_down 4 [] in
    ((handle_qris_payment externals true job marking_down t).0 ≢ ok tt)
    × (total carried marking_down t ≡ 4)
    × (total succeeded marking_down t ≡ 0)
    × (total failed marking_down t ≡ 0)
unmarked_pays_again_example =
    unmarked_pays_again externals true job marking_down 3 started_event
      (record { account_id = "A1"; merchant_code = "QR-1"; amount = pos 250 }) (failure "database")
      4 refl (λ h p. refl) (λ h p. refl) (λ h. refl)

handle_transfer-Faithful_example :
    let (r, t) = handle_transfer externals true transfer_job marking_down [] in
    Faithful marking_down [] r t
handle_transfer-Faithful_example =
    handle_transfer-Faithful externals true transfer_job marking_down []
