-- ===== src/Payment/Worker/Qris/Finish.antt =====
-- One handling of a QRIS payment, and what a failing database makes of several.
use dante_api_systems.Base.{ℕ, ◌+◌, ◌≡◌, ◌≢◌, refl, Bool, some, List, [], arith, zero, suc}
use dante_api_systems.Go.Errors.{Error}
use dante_api_systems.Go.Exec.{answer, error, ok, panic, Env}
use dante_api_systems.Go.Trace.{total}
use dante_api_systems.Models.{
  Uuid, Account, Merchant, Transaction, TransactionEvent, CreateTransactionEventParams,
  UpdateTransactionStatusParams,
}
use dante_api_systems.Views.{QrisPaymentResult}
use dante_api_systems.Payment.Calls.{
  Call, Response, Externals, create_transaction_event, update_transaction_status, pay_qris,
}
use dante_api_systems.Payment.Qris.{QrisRequest, payment_message}
use dante_api_systems.Payment.Worker.Outcome.{Faithful, carried, succeeded, failed}
use dante_api_systems.Queue.Messages.{QrisPaymentMessage}
use dante_api_systems.Payment.Worker.Qris.{handle_qris_payment}

-- Whatever the database, the caches and the legacy system answer, one handling of a QRIS payment
-- asks the legacy system at most once, and only after an event of the start was stored; logs each
-- asking once; marks the transaction as successful only if the legacy system carried the payment
-- out, and as failed only if it did not confirm it; and ends without an error only if the
-- database took one of the marks.
pub handle_qris_payment-Faithful :
    (externals : Externals) (has_balances : Bool) (msg : QrisPaymentMessage) (env : Env Response)
    (h : List Call)
    → let (r, t) = handle_qris_payment externals has_balances msg env h in Faithful env h r t
unfolding handle_qris_payment
handle_qris_payment-Faithful externals has_balances msg env h = ground arith

-- A worker does not panic on a job that the intake of QRIS payments publishes, if uuid.Parse reads
-- what the String method of a uuid writes.
pub published_payment_returns :
    (externals : Externals) (has_legacy has_balances : Bool) (req : QrisRequest) (tx : Transaction)
    (a : Account) (m : Merchant) (env : Env Response) (h : List Call)
    → ((id : Uuid) → externals.uuid_parse (externals.uuid_string id) ≡ some id)
    → let msg = payment_message externals has_legacy req tx a m in
      (handle_qris_payment externals has_balances msg env h).0 ≢ panic
unfolding handle_qris_payment
published_payment_returns externals has_legacy has_balances req tx a m env h round_trip =
    ground (arith, round_trip tx.id, round_trip a.id)

-- `n` handlings of the same message, one after the other, as a broker that delivers it again.
abbrev pub handled_times :
    Externals → Bool → QrisPaymentMessage → Env Response → ℕ → List Call → List Call
handled_times externals has_balances msg env zero h = h
handled_times externals has_balances msg env (suc n) h =
    (handle_qris_payment externals has_balances msg env
      (handled_times externals has_balances msg env n h)).1

paid_unmarked :
    (externals : Externals) (has_balances : Bool) (msg : QrisPaymentMessage) (env : Env Response)
    (id : Uuid) (event : TransactionEvent) (result : QrisPaymentResult) (e : Error) (h : List Call)
    → externals.uuid_parse msg.transaction_id ≡ some id
    → ((h : List Call) (p : CreateTransactionEventParams)
        → env h (create_transaction_event p) ≡ answer event)
    → ((h : List Call) (p : UpdateTransactionStatusParams)
        → env h (update_transaction_status p) ≡ error e)
    → ((h : List Call)
        → env h (pay_qris msg.account_number msg.merchant_code msg.amount) ≡ answer result)
    → let (r, t) = handle_qris_payment externals has_balances msg env h in
      (r ≢ ok tt)
      × (total carried env t ≡ total carried env h + 1)
      × (total succeeded env t ≡ total succeeded env h)
      × (total failed env t ≡ total failed env h)
unfolding handle_qris_payment
paid_unmarked externals has_balances msg env id event result e h known takes refuses pays =
    grind arith

-- While the database takes events and refuses every change of a status, and the legacy system
-- carries payments out, each handling of a payment carries it out once more, ends with an error,
-- and leaves the transaction unmarked: `n` handlings of one message pay `n` times.
pub unmarked_pays_again :
    (externals : Externals) (has_balances : Bool) (msg : QrisPaymentMessage) (env : Env Response)
    (id : Uuid) (event : TransactionEvent) (result : QrisPaymentResult) (e : Error) (n : ℕ)
    → externals.uuid_parse msg.transaction_id ≡ some id
    → ((h : List Call) (p : CreateTransactionEventParams)
        → env h (create_transaction_event p) ≡ answer event)
    → ((h : List Call) (p : UpdateTransactionStatusParams)
        → env h (update_transaction_status p) ≡ error e)
    → ((h : List Call)
        → env h (pay_qris msg.account_number msg.merchant_code msg.amount) ≡ answer result)
    → let t = handled_times externals has_balances msg env n [] in
      ((handle_qris_payment externals has_balances msg env t).0 ≢ ok tt)
      × (total carried env t ≡ n)
      × (total succeeded env t ≡ 0)
      × (total failed env t ≡ 0)
unmarked_pays_again externals has_balances msg env id event result e zero known takes refuses pays =
    let (again, _, _, _) =
      paid_unmarked externals has_balances msg env id event result e [] known takes refuses pays in
    (again, refl, refl, refl)
unmarked_pays_again externals has_balances msg env id event result e (suc n) known takes refuses
      pays =
    let t = handled_times externals has_balances msg env n [] in
    let (_, c, s, f) =
      unmarked_pays_again externals has_balances msg env id event result e n known takes refuses
        pays in
    let (_, c', s', f') =
      paid_unmarked externals has_balances msg env id event result e t known takes refuses pays in
    let (again, _, _, _) =
      paid_unmarked externals has_balances msg env id event result e
        (handled_times externals has_balances msg env (suc n) []) known takes refuses pays in
    (again, omega (arith, c, c'), omega (arith, s, s'), omega (arith, f, f'))
