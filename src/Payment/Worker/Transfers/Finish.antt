-- ===== src/Payment/Worker/Transfers/Finish.antt =====
-- One handling of a transfer.
use dante_api_systems.Base.{◌≡◌, ◌≢◌, Bool, some, List, arith}
use dante_api_systems.Go.Exec.{panic, Env}
use dante_api_systems.Models.{Uuid, Account, Transaction}
use dante_api_systems.Payment.Calls.{Call, Response, Externals}
use dante_api_systems.Payment.Transfer.{TransferRequest, transfer_message}
use dante_api_systems.Payment.Worker.Outcome.{Faithful}
use dante_api_systems.Queue.Messages.{TransferMessage}
use dante_api_systems.Payment.Worker.Transfers.{handle_transfer}

-- Whatever the database, the caches and the legacy system answer, one handling of a transfer asks
-- the legacy system at most once, and only after an event of the start was stored; logs each asking
-- once; marks the transaction as successful only if the legacy system carried the transfer out, and
-- as failed only if it did not confirm it; and ends without an error only if the database
-- took one of the marks.
pub handle_transfer-Faithful :
    (externals : Externals) (has_balances : Bool) (msg : TransferMessage) (env : Env Response)
    (h : List Call)
    → let (r, t) = handle_transfer externals has_balances msg env h in Faithful env h r t
unfolding handle_transfer
handle_transfer-Faithful externals has_balances msg env h = ground arith

-- A worker does not panic on a job that the intake of transfers publishes, if uuid.Parse reads
-- what the String method of a uuid writes.
pub published_transfer_returns :
    (externals : Externals) (has_balances : Bool) (req : TransferRequest) (tx : Transaction)
    (a : Account) (env : Env Response) (h : List Call)
    → ((id : Uuid) → externals.uuid_parse (externals.uuid_string id) ≡ some id)
    → (handle_transfer externals has_balances (transfer_message externals req tx a) env h).0 ≢ panic
unfolding handle_transfer
published_transfer_returns externals has_balances req tx a env h round_trip =
    ground (arith, round_trip tx.id, round_trip a.id)
