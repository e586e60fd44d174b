-- ===== src/Database/CallLogs.antt =====
-- internal/database/sqlc/legacy_call_logs.sql.go, with the constraints of db/schema/init.sql.
use dante_api_systems.Base.{
  ℕ, ◌+◌, ◌*◌, ◌/◌, List, [], ◌∷◌, map, length, Bool, true, false, not, ◌&&◌, ◌||◌, Option, none,
  some, String, str_eq, ltb, ◌==◌, if◌then◌else◌,
}
use dante_api_systems.Base.Int.{ℤ, pos, negsuc, sub_ℕ, ◌+ℤ◌}
use dante_api_systems.Go.Exec.{Reply, answer}
use dante_api_systems.Models.{
  Uuid, Time, Transaction, LegacyCallLog, CreateLegacyCallLogParams, GetLegacyCallMetricsRow,
}
use dante_api_systems.Database.Rows.{filter}
use dante_api_systems.Database.Order.{order_by}
use dante_api_systems.Database.Transactions.{violation, exists, has_id}

-- A foreign key that is NULL refers to nothing.
abbrev refers : Option Uuid → List Transaction → Bool
refers none rows = true
refers (some id) rows = exists (has_id id) rows

abbrev new_log : Uuid → Time → CreateLegacyCallLogParams → LegacyCallLog
new_log id at params = record {
  id = id;
  transaction_id = params.transaction_id;
  endpoint = params.endpoint;
  method = params.method;
  status_code = params.status_code;
  success = params.success;
  latency_ms = params.latency_ms;
  error_message = params.error_message;
  created_at = at;
}

unfoldable pub create_legacy_call_log :
    Uuid
    → Time
    → CreateLegacyCallLogParams
    → List Transaction
    → List LegacyCallLog
    → Reply LegacyCallLog × List LegacyCallLog
create_legacy_call_log id at params rows logs =
    if exists (λ log. log.id == id) logs
    then (violation "legacy_call_logs_pkey", logs)
    else (if refers params.transaction_id rows
        then (answer (new_log id at params), new_log id at params ∷ logs)
        else (violation "legacy_call_logs_transaction_id_fkey", logs))

abbrev of_transaction : Option Uuid → LegacyCallLog → Bool
of_transaction none log = false
of_transaction (some id) log = elim log.transaction_id [ none ↦ false | some id' ↦ id' == id ]

-- ORDER BY created_at ASC; the statement leaves the order of one moment open.
unfoldable pub list_legacy_call_logs_by_transaction_id :
    Option Uuid → List LegacyCallLog → List LegacyCallLog
list_legacy_call_logs_by_transaction_id id logs =
    order_by (λ x y. ltb x.created_at y.created_at) (filter (of_transaction id) logs)

-- GROUP BY endpoint, success
abbrev pub Group : Type 0
Group = String × Bool

abbrev same_bool : Bool → Bool → Bool
same_bool true b = b
same_bool false b = not b

abbrev same_group : Group → Group → Bool
same_group (endpoint, success) (endpoint', success') =
    str_eq endpoint endpoint' && same_bool success success'

abbrev pub group_of : LegacyCallLog → Group
group_of log = (log.endpoint, log.success)

pub groups : List LegacyCallLog → List Group
groups [] = []
groups (log ∷ logs) =
    let rest = groups logs in
    if exists (same_group (group_of log)) rest then rest else group_of log ∷ rest

abbrev pub in_group : Group → LegacyCallLog → Bool
in_group group log = same_group group (group_of log)

pub sum_latencies : List LegacyCallLog → ℤ
sum_latencies [] = pos 0
sum_latencies (log ∷ logs) = log.latency_ms +ℤ sum_latencies logs

-- `::bigint` rounds a numeric to the nearest integer, and a half away from zero.
abbrev rounded : ℕ → ℕ → ℕ
rounded sum count = (2 * sum + count) / (2 * count)

pub average : ℤ → ℕ → ℤ
average (pos sum) count = pos (rounded sum count)
average (negsuc n) count = sub_ℕ 0 (rounded (n + 1) count)

abbrev pub metrics_of : List LegacyCallLog → Group → GetLegacyCallMetricsRow
metrics_of logs (endpoint, success) =
    let found = filter (in_group (endpoint, success)) logs in
    record {
      endpoint = endpoint;
      success = success;
      calls_total = pos (length found);
      avg_latency_ms = average (sum_latencies found) (length found);
    }

-- ORDER BY endpoint, success; `collates` is the order of texts by the collation of the database,
-- and false comes before true.
abbrev group_before : (String → String → Bool) → Group → Group → Bool
group_before collates (endpoint, success) (endpoint', success') =
    collates endpoint endpoint' || (str_eq endpoint endpoint' && not success && success')

unfoldable pub get_legacy_call_metrics :
    (String → String → Bool) → List LegacyCallLog → List GetLegacyCallMetricsRow
get_legacy_call_metrics collates logs =
    map (metrics_of logs) (order_by (group_before collates) (groups logs))
