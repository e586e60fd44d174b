-- ===== src/Payment/Store/Settlement.antt =====
-- The rows of the transactions over a request and the handling of its job, with the database of
-- the tables behind both.
use dante_api_systems.Base.{
  ◌+◌, ◌≡◌, ◌≢◌, ◌⊎◌, inl, inr, sym, ap, ◌∙◌, Bool, true, false, List, [], Option, some, String,
  ◌==◌, arith, Option-cases,
}
use dante_api_systems.Go.Errors.{Error}
use dante_api_systems.Go.Exec.{Result, ok, Env}
use dante_api_systems.Go.Trace.{total}
use dante_api_systems.Models.{Uuid, Time, Transaction}
use dante_api_systems.Queue.Messages.{QrisPaymentMessage, TransferMessage}
use dante_api_systems.Payment.Calls.{
  Call, Response, Externals, status_success, status_failed, status_processing,
}
use dante_api_systems.Payment.Store.{Tables, after, served}
use dante_api_systems.Payment.Store.Marks.{marks, status_of, status_of-marks}
use dante_api_systems.Payment.Store.Handled.{
  Settled, handle_qris_payment-Settled, handle_transfer-Settled, handle_qris_payment-others,
  handle_transfer-others,
}
use dante_api_systems.Payment.Worker.Outcome.{carried, refused}
use dante_api_systems.Payment.Worker.Qris.{handle_qris_payment}
use dante_api_systems.Payment.Worker.Transfers.{handle_transfer}
use dante_api_systems.Database.Transactions
use dante_api_systems.Payment.Store.Accepted.{
  KeepsStatus, last_transfer, last_payment, transfer_accepted, payment_accepted,
}
use dante_api_systems.Payment.Transfer.{TransferRequest, create_transfer_transaction}
use dante_api_systems.Payment.Qris.{QrisRequest, create_qris_transaction}

module _ (uuids : List Call → Uuid) (clock : List Call → Time) (outage : List Call → Option Error)
    (others : Env Response) (t : Tables) where
  abbrev pub store : Env Response
  store = served uuids clock outage others t

  -- The status of a transaction in the tables after some calls.
  abbrev pub stored_status : Uuid → List Call → Option String
  stored_status id h = status_of id (after uuids clock outage others t h).transactions

  -- What a handling from `h` to `k` that ended in `r` has made of a transaction.
  abbrev pub IsSettled : Uuid → List Call → Result (Unit {0}) → List Call → Type 0
  IsSettled id h r k =
      ((stored_status id k ≡ some status_success)
        × (total carried store k ≡ total carried store h + 1)
        × (total refused store k ≡ total refused store h))
      ⊎ ((stored_status id k ≡ some status_failed)
          × (total carried store k ≡ total carried store h)
          × (total refused store k ≡ total refused store h + 1))
      ⊎ ((stored_status id k ≡ stored_status id h) × (r ≢ ok tt))

  stored_status-marks :
      (id : Uuid) (h : List Call)
      → stored_status id h ≡ marks id store h (status_of id t.transactions)
  stored_status-marks id h = status_of-marks uuids clock outage others t id h

  Settled-stored :
      (id : Uuid) (h : List Call) (r : Result (Unit {0})) (k : List Call)
      → Settled id (status_of id t.transactions) store h r k
      → IsSettled id h r k
  Settled-stored id h r k settled = rw (stored_status-marks id k, stored_status-marks id h) settled

  module _ (externals : Externals) (has_balances : Bool) (h : List Call) (id other : Uuid)
      (differ : (id == other) ≡ false) where
    -- A handling of a message settles its transaction, and leaves the others.
    pub transfer_settles :
        (msg : TransferMessage)
        → externals.uuid_parse msg.transaction_id ≡ some id
        → let (r, k) = handle_transfer externals has_balances msg store h in
          IsSettled id h r k × (stored_status other k ≡ stored_status other h)
    transfer_settles msg names = (
      Settled-stored id h _ _
          (handle_transfer-Settled externals has_balances store h id _ msg names),
      stored_status-marks other _
          ∙ handle_transfer-others externals has_balances store h id _ msg other names differ
          ∙ sym (stored_status-marks other h),
    )

    pub payment_settles :
        (msg : QrisPaymentMessage)
        → externals.uuid_parse msg.transaction_id ≡ some id
        → let (r, k) = handle_qris_payment externals has_balances msg store h in
          IsSettled id h r k × (stored_status other k ≡ stored_status other h)
    payment_settles msg names = (
      Settled-stored id h _ _
          (handle_qris_payment-Settled externals has_balances store h id _ msg names),
      stored_status-marks other _
          ∙ handle_qris_payment-others externals has_balances store h id _ msg other names differ
          ∙ sym (stored_status-marks other h),
    )

  store-KeepsStatus : KeepsStatus store
  unfolding served Transactions.create_transaction
  store-KeepsStatus h params tx made = ground arith

-- A transfer that is answered as created leaves, in the tables of the database, a transaction in the
-- state PROCESSING, and a job for it with the destination and the amount of the request. Whenever a
-- worker handles this job, after whatever other calls, then in the tables the transaction is
-- SUCCESS and the legacy system has carried out one transfer more, or it is FAILED and the legacy
-- system did not confirm one, or its status is as before and the handling ended with an error; and
-- any other transaction has the status it had. This supposes that uuid.Parse reads what the
-- String method of a uuid writes.
pub accepted_transfer_settles :
    (uuids : List Call → Uuid) (clock : List Call → Time) (outage : List Call → Option Error)
    (others : Env Response) (t : Tables) (externals : Externals) (has_balances : Bool)
    (req : TransferRequest) (tx : Transaction) (later : List Call) (other : Uuid)
    → ((id : Uuid) → externals.uuid_parse (externals.uuid_string id) ≡ some id)
    → (tx.id == other) ≡ false
    → let env = store uuids clock outage others t in
      let status_after = stored_status uuids clock outage others t in
      (create_transfer_transaction externals req env []).0
        ≡ ok (record { transaction = tx; created = true })
      → let h = (create_transfer_transaction externals req env []).1 in
        (msg : TransferMessage) × (last_transfer h ≡ some msg)
        × (msg.to_account_number ≡ req.to_account_number)
        × (msg.amount ≡ req.amount)
        × (status_after tx.id h ≡ some status_processing)
        × (let (r, k) = handle_transfer externals has_balances msg env later in
            IsSettled uuids clock outage others t tx.id later r k
            × (status_after other k ≡ status_after other later))
accepted_transfer_settles uuids clock outage others t externals has_balances req tx later other back
      differ accepted =
    let env = store uuids clock outage others t in
    let h = (create_transfer_transaction externals req env []).1 in
    let (processing, some_job, job) =
      transfer_accepted externals env tx (status_of tx.id t.transactions)
        (store-KeepsStatus uuids clock outage others t) req accepted in
    elim (Option-cases (last_transfer h)) [
      | inl e ↦ absurd (some_job e)
      | inr (msg, e) ↦
          let (named, to, amount) = job msg e in
          (
            msg,
            e,
            to,
            amount,
            stored_status-marks uuids clock outage others t tx.id h ∙ processing,
            transfer_settles uuids clock outage others t externals has_balances later tx.id other
                differ msg (ap externals.uuid_parse named ∙ back tx.id),
          )
    ]

-- A QRIS payment that is answered as created leaves, in the tables of the database, a transaction
-- in the state PROCESSING, and a job for it with its amount. Whenever a worker handles this job,
-- after whatever other calls, then in the tables the transaction is SUCCESS and the legacy system
-- has carried out one payment more, or it is FAILED and the legacy system did not confirm one, or
-- its status is as before and the handling ended with an error; and any other transaction has the
-- status it had. This supposes that uuid.Parse reads what the String method of a uuid writes.
pub accepted_payment_settles :
    (uuids : List Call → Uuid) (clock : List Call → Time) (outage : List Call → Option Error)
    (others : Env Response) (t : Tables) (externals : Externals) (has_legacy has_balances : Bool)
    (req : QrisRequest) (tx : Transaction) (later : List Call) (other : Uuid)
    → ((id : Uuid) → externals.uuid_parse (externals.uuid_string id) ≡ some id)
    → (tx.id == other) ≡ false
    → let env = store uuids clock outage others t in
      let status_after = stored_status uuids clock outage others t in
      (create_qris_transaction externals has_legacy req env []).0
        ≡ ok (record { transaction = tx; created = true })
      → let h = (create_qris_transaction externals has_legacy req env []).1 in
        (msg : QrisPaymentMessage) × (last_payment h ≡ some msg)
        × (msg.amount ≡ tx.amount)
        × (status_after tx.id h ≡ some status_processing)
        × (let (r, k) = handle_qris_payment externals has_balances msg env later in
            IsSettled uuids clock outage others t tx.id later r k
            × (status_after other k ≡ status_after other later))
accepted_payment_settles uuids clock outage others t externals has_legacy has_balances req tx later
      other back differ accepted =
    let env = store uuids clock outage others t in
    let h = (create_qris_transaction externals has_legacy req env []).1 in
    let (processing, some_job, job) =
      payment_accepted externals env tx (status_of tx.id t.transactions)
        (store-KeepsStatus uuids clock outage others t) has_legacy req accepted in
    elim (Option-cases (last_payment h)) [
      | inl e ↦ absurd (some_job e)
      | inr (msg, e) ↦
          let (named, amount) = job msg e in
          (
            msg,
            e,
            amount,
            stored_status-marks uuids clock outage others t tx.id h ∙ processing,
            payment_settles uuids clock outage others t externals has_balances later tx.id other
                differ msg (ap externals.uuid_parse named ∙ back tx.id),
          )
    ]
