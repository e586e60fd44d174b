-- ===== src/Payment/Effects.antt =====
-- What the intakes have done, read off the calls that they made.
use dante_api_systems.Base.{ℕ, ◌+◌, ◌≤◌, ◌≡◌, ◌≢◌, Bool, String, List, arith, str_eq, if◌then◌else◌}
use dante_api_systems.Go.Exec.{answer, Result, ok, panic, Env}
use dante_api_systems.Go.Trace.{total}
use dante_api_systems.Payment.Calls.{
  Call, Response, Externals, create_transaction, create_transaction_event,
  update_transaction_status, set_transaction_status, publish_qris_payment, publish_transfer,
  status_failed, QrisResult,
}
use dante_api_systems.Payment.Merchants.{resolve_merchant}

-- Transactions that the database stored.
abbrev pub stored : (c : Call) → Response c → ℕ
stored (create_transaction params) (answer tx) = 1
stored _ _ = 0

-- Attempts to store a transaction, an event, a status or a cached status.
abbrev pub writes : (c : Call) → Response c → ℕ
writes (create_transaction params) r = 1
writes (create_transaction_event params) r = 1
writes (update_transaction_status params) r = 1
writes (set_transaction_status entry ttl) r = 1
writes _ _ = 0

-- Jobs handed to the broker, and those that it took.
abbrev pub published : (c : Call) → Response c → ℕ
published (publish_qris_payment msg) r = 1
published (publish_transfer msg) r = 1
published _ _ = 0

abbrev pub enqueued : (c : Call) → Response c → ℕ
enqueued (publish_qris_payment msg) (answer u) = 1
enqueued (publish_transfer msg) (answer u) = 1
enqueued _ _ = 0

-- Attempts to mark a transaction as failed.
abbrev pub failures : (c : Call) → Response c → ℕ
failures (update_transaction_status params) r = if str_eq params.status status_failed then 1 else 0
failures _ _ = 0

-- From one trace to a longer one: nothing was stored, written, published or marked.
pub record Quiet (env : Env Response) (h : List Call) (t : List Call) : Type 0 where
  pub same_stored : total stored env t ≡ total stored env h
  pub same_writes : total writes env t ≡ total writes env h
  pub same_published : total published env t ≡ total published env h
  pub same_enqueued : total enqueued env t ≡ total enqueued env h
  pub same_failures : total failures env t ≡ total failures env h

-- Resolving a merchant finds it or fails, and at most stores a merchant.
pub resolve_merchant-Quiet :
    (externals : Externals) (has_legacy : Bool) (ref : String) (env : Env Response) (h : List Call)
    → Quiet env h (resolve_merchant externals has_legacy ref env h).1
      × ((resolve_merchant externals has_legacy ref env h).0 ≢ panic)
unfolding resolve_merchant
resolve_merchant-Quiet externals has_legacy ref env h = ground arith

-- 1 for an answer that a new transaction was created, else 0.
abbrev pub reports_created : Result QrisResult → ℕ
reports_created (ok r) = if r.created then 1 else 0
reports_created _ = 0

-- From one trace to the trace of a request that ended in `r`: at most one row was stored; a job
-- was published only after storing one; each publishing put the job in the queue or was followed
-- by marking the transaction as failed; and a job was put in the queue exactly if the answer says
-- that a transaction was created.
pub record Accounted (env : Env Response) (h : List Call) (r : Result QrisResult) (t : List Call)
    : Type 0 where
  pub one_row : total stored env t ≤ total stored env h + 1
  pub row_first :
      total published env t + total stored env h ≤ total published env h + total stored env t
  pub marked :
      total published env t + total enqueued env h + total failures env h
      ≡ total published env h + total enqueued env t + total failures env t
  pub reported : total enqueued env t ≡ total enqueued env h + reports_created r
