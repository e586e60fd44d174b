-- ===== src/Payment/Transfer/Acceptance.antt =====
-- A transfer is accepted exactly when its job is in the queue.
use dante_api_systems.Base.{[], arith}
use dante_api_systems.Go.Exec.{Env}
use dante_api_systems.Payment.Calls.{Response, Externals}
use dante_api_systems.Payment.Effects.{Accounted}
use dante_api_systems.Payment.Transfer.{
  TransferRequest, replayed, accepted, create_transfer_transaction,
}

-- Whatever the database, the cache and the broker answer: a request for a transfer stores at most
-- one transaction; it publishes a job only after storing one; each publishing puts the job in the
-- queue or is followed by an attempt to mark the transaction as failed; and the answer says that a
-- transaction was created exactly if its job is in the queue.
pub create_transfer_transaction-Accounted :
    (externals : Externals) (req : TransferRequest) (env : Env Response)
    → let (r, t) = create_transfer_transaction externals req env [] in Accounted env [] r t
unfolding create_transfer_transaction replayed accepted
create_transfer_transaction-Accounted externals req env = ground arith
