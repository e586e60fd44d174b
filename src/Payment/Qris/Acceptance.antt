-- ===== src/Payment/Qris/Acceptance.antt =====
-- A QRIS payment is accepted exactly when its job is in the queue.
use dante_api_systems.Base.{◌≡◌, inl, inr, refl, Bool, List, [], ◌∷◌, arith}
use dante_api_systems.Go.Exec.{Reply, answer, error, Result, Env, Result-cases}
use dante_api_systems.Models.{Account, Merchant, Transaction}
use dante_api_systems.Payment.Calls.{
  Call, Response, Externals, QrisResult, get_transaction_by_idempotency_key, get_account_by_number,
}
use dante_api_systems.Payment.Merchants.{resolve_merchant}
use dante_api_systems.Payment.Effects.{Quiet, resolve_merchant-Quiet, Accounted, reports_created}
use dante_api_systems.Payment.Qris.{
  QrisRequest, accept, replayed, replayed_for, provisioned, accepted, create_qris_transaction,
  looked_up,
}

module _ (externals : Externals) (has_legacy : Bool) (req : QrisRequest) (env : Env Response) where
  accept-Accounted :
      (account : Account) (merchant : Merchant) (h : List Call)
      → let (r, t) = accept externals has_legacy req account merchant env h in Accounted env h r t
  unfolding accept
  accept-Accounted account merchant h = ground arith

  -- Accounts carry over calls that do nothing of the kind.
  Quiet-Accounted :
      (h h' t : List Call) (r : Result QrisResult)
      → Quiet env h h'
      → Accounted env h' r t
      → Accounted env h r t
  Quiet-Accounted h h' t r q a = omega (arith, a.one_row, a.row_first, a.marked, a.reported)

  provisioned-Accounted :
      (found : Reply Account) (h : List Call)
      → let (r, t) = provisioned externals has_legacy req found env h in Accounted env h r t
  provisioned-Accounted (error e) h = ground arith
  provisioned-Accounted (answer account) h =
      let (q, calm) = resolve_merchant-Quiet externals has_legacy req.merchant_ref env h in
      elim (Result-cases (resolve_merchant externals has_legacy req.merchant_ref env h).0) [
        | inl (m, e) ↦ rw e (Quiet-Accounted h _ _ _ q (accept-Accounted account m _))
        | inr (inl (x, e)) ↦ rw e (Quiet-Accounted h _ _ _ q (omega arith))
        | inr (inr e) ↦ absurd (calm e)
      ]

  pub replayed_for-Quiet :
      (existing : Transaction) (found : Reply Account) (h : List Call)
      → let (r, t) = replayed_for externals has_legacy req existing found env h in
        Quiet env h t × (reports_created r ≡ 0)
  replayed_for-Quiet existing (error e) h = ground arith
  replayed_for-Quiet existing (answer account) h =
      let (q, calm) = resolve_merchant-Quiet externals has_legacy req.merchant_ref env h in
      elim (Result-cases (resolve_merchant externals has_legacy req.merchant_ref env h).0) [
        | inl (m, e) ↦ rw e (ground arith)
        | inr (inl (x, e)) ↦ rw e (q, refl)
        | inr (inr e) ↦ absurd (calm e)
      ]

  create-Accounted :
      (found : Reply Transaction) (h : List Call)
      → let (r, t) = looked_up externals has_legacy req found env h in Accounted env h r t
  unfolding replayed accepted
  create-Accounted (answer existing) h =
      let (q, none_created) =
        replayed_for-Quiet existing (env h (get_account_by_number req.session.account_number))
          (get_account_by_number req.session.account_number ∷ h) in
      omega (arith, q.same_stored, q.same_published, q.same_enqueued, q.same_failures, none_created)
  create-Accounted (error e) h = ground (
    arith,
    provisioned-Accounted (env h (get_account_by_number req.session.account_number))
        (get_account_by_number req.session.account_number ∷ h),
  )

-- Whatever the database, the cache, the broker and the legacy system answer: a request for a QRIS
-- payment stores at most one transaction; it publishes a job only after storing one; each
-- publishing puts the job in the queue or is followed by an attempt to mark the transaction as
-- failed; and the answer says that a transaction was created exactly if its job is in the queue.
pub create_qris_transaction-Accounted :
    (externals : Externals) (has_legacy : Bool) (req : QrisRequest) (env : Env Response)
    → let (r, t) = create_qris_transaction externals has_legacy req env [] in Accounted env [] r t
unfolding create_qris_transaction
create_qris_transaction-Accounted externals has_legacy req env =
    let c = get_transaction_by_idempotency_key req.idempotency_key in
    let a = create-Accounted externals has_legacy req env (env [] c) (c ∷ []) in
    omega (arith, a.one_row, a.row_first, a.marked, a.reported)
