-- ===== src/Payment/Store/Handled.antt =====
-- What a worker's handling of a message does to the status of a transaction.
use dante_api_systems.Base.{
  ◌+◌, ◌≡◌, ◌≢◌, ◌⊎◌, Bool, false, List, Option, some, String, ◌==◌, arith,
}
use dante_api_systems.Go.Exec.{Result, ok, Env}
use dante_api_systems.Go.Trace.{total}
use dante_api_systems.Models.{Uuid}
use dante_api_systems.Queue.Messages.{QrisPaymentMessage, TransferMessage}
use dante_api_systems.Payment.Calls.{Call, Response, Externals, status_success, status_failed}
use dante_api_systems.Payment.Store.Marks.{marks}
use dante_api_systems.Payment.Worker.Outcome.{carried, refused}
use dante_api_systems.Payment.Worker.Qris.{handle_qris_payment}
use dante_api_systems.Payment.Worker.Transfers.{handle_transfer}

-- From one trace to the trace of a handling that ended in `r`: the status of the transaction is
-- SUCCESS, and the legacy system carried one thing more out; or it is FAILED, and the legacy system
-- did not confirm one thing more; or the status is as before, and the handling ended with an error.
abbrev pub Settled :
    Uuid → Option String → Env Response → List Call → Result (Unit {0}) → List Call → Type 0
Settled id s env h r t =
    ((marks id env t s ≡ some status_success)
      × (total carried env t ≡ total carried env h + 1)
      × (total refused env t ≡ total refused env h))
    ⊎ ((marks id env t s ≡ some status_failed)
        × (total carried env t ≡ total carried env h)
        × (total refused env t ≡ total refused env h + 1))
    ⊎ ((marks id env t s ≡ marks id env h s) × (r ≢ ok tt))

module _ (externals : Externals) (has_balances : Bool) (env : Env Response) (h : List Call)
    (id : Uuid) (s : Option String) where
  pub handle_qris_payment-Settled :
      (msg : QrisPaymentMessage)
      → externals.uuid_parse msg.transaction_id ≡ some id
      → let (r, t) = handle_qris_payment externals has_balances msg env h in Settled id s env h r t
  unfolding handle_qris_payment
  handle_qris_payment-Settled msg names = ground arith

  pub handle_transfer-Settled :
      (msg : TransferMessage)
      → externals.uuid_parse msg.transaction_id ≡ some id
      → let (r, t) = handle_transfer externals has_balances msg env h in Settled id s env h r t
  unfolding handle_transfer
  handle_transfer-Settled msg names = ground arith

  -- Other transactions keep their status.
  pub handle_qris_payment-others :
      (msg : QrisPaymentMessage) (other : Uuid)
      → externals.uuid_parse msg.transaction_id ≡ some id
      → (id == other) ≡ false
      → marks other env (handle_qris_payment externals has_balances msg env h).1 s
        ≡ marks other env h s
  unfolding handle_qris_payment
  handle_qris_payment-others msg other names differ = ground arith

  pub handle_transfer-others :
      (msg : TransferMessage) (other : Uuid)
      → externals.uuid_parse msg.transaction_id ≡ some id
      → (id == other) ≡ false
      → marks other env (handle_transfer externals has_balances msg env h).1 s ≡ marks other env h s
  unfolding handle_transfer
  handle_transfer-others msg other names differ = ground arith
