-- ===== src/Payment/Worker/Outcome.antt =====
-- What a worker has done, read off the calls that it made.
use dante_api_systems.Base.{ℕ, ◌+◌, ◌≤◌, ◌≡◌, ◌||◌, List, str_eq, if◌then◌else◌}
use dante_api_systems.Go.Exec.{answer, error, Result, ok, Env}
use dante_api_systems.Go.Trace.{total}
use dante_api_systems.Payment.Calls.{
  Call, Response, pay_qris, transfer, create_transaction_event, update_transaction_status,
  create_legacy_call_log, status_success, status_failed,
}

-- Payments and transfers asked of the legacy system, those that it carried out, and those that it
-- did not confirm.
abbrev pub executions : (c : Call) → Response c → ℕ
executions (pay_qris account code amount) r = 1
executions (transfer from pin to amount) r = 1
executions _ _ = 0

abbrev pub carried : (c : Call) → Response c → ℕ
carried (pay_qris account code amount) (answer result) = 1
carried (transfer from pin to amount) (answer result) = 1
carried _ _ = 0

abbrev pub refused : (c : Call) → Response c → ℕ
refused (pay_qris account code amount) (error e) = 1
refused (transfer from pin to amount) (error e) = 1
refused _ _ = 0

-- Stored events of a worker's start.
abbrev pub starts : (c : Call) → Response c → ℕ
starts (create_transaction_event params) (answer event) =
    if str_eq params.event_type "TRANSACTION_WORKER_STARTED"
      || str_eq params.event_type "TRANSFER_WORKER_STARTED"
    then 1
    else 0
starts _ _ = 0

abbrev pub call_logs : (c : Call) → Response c → ℕ
call_logs (create_legacy_call_log params) r = 1
call_logs _ _ = 0

-- Transactions that the database marked as successful, and as failed.
abbrev pub succeeded : (c : Call) → Response c → ℕ
succeeded (update_transaction_status params) (answer tx) =
    if str_eq params.status status_success then 1 else 0
succeeded _ _ = 0

abbrev pub failed : (c : Call) → Response c → ℕ
failed (update_transaction_status params) (answer tx) =
    if str_eq params.status status_failed then 1 else 0
failed _ _ = 0

-- 1 for a handler that ends without an error, else 0.
abbrev finished : Result (Unit {0}) → ℕ
finished (ok u) = 1
finished _ = 0

-- From one trace to the trace of a handler that ended in `r`: the legacy system was asked at most
-- once, and only after an event of the start was stored; each asking was logged once; a transaction
-- was marked as successful only if the legacy system carried it out and as failed only if it did
-- not confirm; and a handler that ends without an error has marked one.
pub record Faithful (env : Env Response) (h : List Call) (r : Result (Unit {0})) (t : List Call)
    : Type 0 where
  pub once : total executions env t ≤ total executions env h + 1
  pub started_first :
      total executions env t + total starts env h ≤ total executions env h + total starts env t
  pub logged :
      total executions env t + total call_logs env h
      ≡ total executions env h + total call_logs env t
  pub true_success :
      total succeeded env t + total carried env h ≤ total succeeded env h + total carried env t
  pub true_failure :
      total failed env t + total refused env h ≤ total failed env h + total refused env t
  pub settled :
      finished r + total succeeded env h + total failed env h
      ≤ total succeeded env t + total failed env t
