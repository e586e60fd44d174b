-- ===== src/Database/Transactions.antt =====
-- internal/database/sqlc/transactions.sql.go, with the constraints that db/schema/init.sql puts on
-- the tables. A statement is given the uuid that uuid_generate_v4() makes and the time NOW(); it
-- answers what Scan reads and the tables after it.
use dante_api_systems.Base.{
  Bool, true, false, ◌&&◌, ◌||◌, not, List, [], ◌∷◌, map, length, Option, none, some, String,
  str_eq, ltb, ◌==◌, if◌then◌else◌,
}
use dante_api_systems.Base.Int.{pos, leb_ℤ}
use dante_api_systems.Go.Errors.{sentinel, no_rows, failure}
use dante_api_systems.Go.Exec.{Reply, answer, error}
use dante_api_systems.Models.{
  Uuid, Time, Transaction, TransactionEvent, StatusRow, CreateTransactionParams,
  CreateTransactionEventParams, UpdateTransactionStatusParams, ListTransactionsByAccountIdParams,
  GetTransactionStateCountsRow, Metadata, object, malformed,
}
use dante_api_systems.Database.Rows.{filter, take, find}
use dante_api_systems.Database.Order.{order_by}

-- What `QueryRowContext` gives for the rows found, the first of which counts.
abbrev pub one_row : {A : Type 0} → Option A → Reply A
one_row (some row) = answer row
one_row none = error (sentinel no_rows)

abbrev pub violation : {A : Type 0} → String → Reply A
violation constraint = error (failure constraint)

-- CHECK (status IN (...))
abbrev pub allowed_status : String → Bool
allowed_status status =
    str_eq status "INITIATED"
    || str_eq status "PROCESSING"
    || str_eq status "SUCCESS"
    || str_eq status "FAILED"
    || str_eq status "EXPIRED"

abbrev pub has_id : Uuid → Transaction → Bool
has_id id row = row.id == id

abbrev pub has_key : String → Transaction → Bool
has_key key row = str_eq row.idempotency_key key

abbrev pub exists : {A : Type 0} → (A → Bool) → List A → Bool
exists p [] = false
exists p (x ∷ xs) = p x || exists p xs

abbrev pub created_row : Uuid → Time → CreateTransactionParams → Transaction
created_row id at params = record {
  id = id;
  user_id = params.user_id;
  merchant_id = params.merchant_id;
  account_id = params.account_id;
  amount = params.amount;
  status = params.status;
  idempotency_key = params.idempotency_key;
  legacy_reference_id = params.legacy_reference_id;
  failure_reason = params.failure_reason;
  requested_at = at;
  processed_at = params.processed_at;
  created_at = at;
  updated_at = at;
}

-- `references` says whether the rows that the new row refers to are there.
unfoldable pub create_transaction :
    Uuid
    → Time
    → Bool
    → CreateTransactionParams
    → List Transaction
    → Reply Transaction × List Transaction
create_transaction id at references params rows =
    let row = created_row id at params in
    if leb_ℤ params.amount (pos 0)
    then (violation "transactions_amount_check", rows)
    else (if not (allowed_status params.status)
        then (violation "transactions_status_check", rows)
        else (if exists (has_id id) rows
            then (violation "transactions_pkey", rows)
            else (if exists (has_key params.idempotency_key) rows
                then (violation "transactions_idempotency_key_key", rows)
                else (if not references
                    then (violation "transactions_fkey", rows)
                    else (answer row, row ∷ rows)))))

unfoldable pub get_transaction_by_id : Uuid → List Transaction → Reply Transaction
get_transaction_by_id id rows = one_row (find (has_id id) rows)

unfoldable pub get_transaction_by_idempotency_key : String → List Transaction → Reply Transaction
get_transaction_by_idempotency_key key rows = one_row (find (has_key key) rows)

abbrev status_row : Option Transaction → Option StatusRow
status_row none = none
status_row (some row) = some (record {
  id = row.id;
  status = row.status;
  requested_at = row.requested_at;
  processed_at = row.processed_at;
  updated_at = row.updated_at;
})

unfoldable pub get_transaction_status_by_id : Uuid → List Transaction → Reply StatusRow
get_transaction_status_by_id id rows = one_row (status_row (find (has_id id) rows))

abbrev pub with_status : Time → UpdateTransactionStatusParams → Transaction → Transaction
with_status at params row =
    if has_id params.id row
    then record row {
      status = params.status;
      failure_reason = params.failure_reason;
      processed_at = params.processed_at;
      updated_at = at;
    }
    else row

abbrev updated :
    Time
    → UpdateTransactionStatusParams
    → Option Transaction
    → List Transaction
    → Reply Transaction × List Transaction
updated at params none rows = (error (sentinel no_rows), rows)
updated at params (some row) rows =
    if allowed_status params.status
    then (answer (with_status at params row), map (with_status at params) rows)
    else (violation "transactions_status_check", rows)

unfoldable pub update_transaction_status :
    Time → UpdateTransactionStatusParams → List Transaction → Reply Transaction × List Transaction
update_transaction_status at params rows = updated at params (find (has_id params.id) rows) rows

-- ORDER BY created_at DESC, id DESC
abbrev pub newer : Transaction → Transaction → Bool
newer x y = ltb y.created_at x.created_at || (y.created_at == x.created_at && ltb y.id x.id)

-- The rows that a cursor has before it; the time 0 is that of no cursor.
abbrev pub beyond : Time → Uuid → Transaction → Bool
beyond at id row = at == 0 || (ltb row.created_at at || (row.created_at == at && ltb row.id id))

abbrev pub of_account : Uuid → Transaction → Bool
of_account id row = row.account_id == id

unfoldable pub list_transactions_by_account_id :
    ListTransactionsByAccountIdParams → List Transaction → List Transaction
list_transactions_by_account_id params rows = take params.limit (
    order_by newer (
      filter (λ row. of_account params.account_id row && beyond params.column2 params.id row) rows))

-- A value of the type JSONB.
abbrev is_json : Metadata → Bool
is_json (object fields) = true
is_json malformed = false

abbrev created_event : Uuid → Time → CreateTransactionEventParams → TransactionEvent
created_event id at params = record {
  id = id;
  transaction_id = params.transaction_id;
  event_type = params.event_type;
  message = params.message;
  metadata = params.metadata;
  created_at = at;
}

unfoldable pub create_transaction_event :
    Uuid
    → Time
    → CreateTransactionEventParams
    → List Transaction
    → List TransactionEvent
    → Reply TransactionEvent × List TransactionEvent
create_transaction_event id at params rows events =
    if not (is_json params.metadata) || exists (λ event. event.id == id) events
    then (violation "transaction_events_pkey", events)
    else (if exists (has_id params.transaction_id) rows
        then (answer (created_event id at params), created_event id at params ∷ events)
        else (violation "transaction_events_transaction_id_fkey", events))

-- ORDER BY created_at ASC; the events of one moment come as they were stored, which the statement
-- leaves open.
abbrev pub earlier : TransactionEvent → TransactionEvent → Bool
earlier x y = ltb x.created_at y.created_at

unfoldable pub list_transaction_events_by_transaction_id :
    Uuid → List TransactionEvent → List TransactionEvent
list_transaction_events_by_transaction_id id events =
    order_by earlier (filter (λ event. event.transaction_id == id) events)

-- GROUP BY status
abbrev pub in_status : String → Transaction → Bool
in_status status row = str_eq row.status status

unfoldable pub statuses : List Transaction → List String
statuses [] = []
statuses (row ∷ rows) =
    let rest = statuses rows in if exists (str_eq row.status) rest then rest else row.status ∷ rest

abbrev pub state_count : List Transaction → String → GetTransactionStateCountsRow
state_count rows status = record {
  status = status;
  transactions_total = pos (length (filter (in_status status) rows));
}

-- `collates` is the order of texts by the collation of the database.
unfoldable pub get_transaction_state_counts :
    (String → String → Bool) → List Transaction → List GetTransactionStateCountsRow
get_transaction_state_counts collates rows =
    map (state_count rows) (order_by collates (statuses rows))
