-- ===== src/Payment/Qris/Replay.antt =====
-- Requests under an idempotency key that has a transaction.
use dante_api_systems.Base.{
  inl, inr, ◌⊎◌, Bool-cases, ◌≡◌, ◌↔◌, refl, Bool, true, false, some, [], ◌∷◌, arith,
}
use dante_api_systems.Base.Int.{ℤ}
use dante_api_systems.Go.Errors.{sentinel, idempotency_conflict}
use dante_api_systems.Go.Exec.{answer, ok, err, Env}
use dante_api_systems.Models.{Account, Merchant, Transaction}
use dante_api_systems.Payment.Calls.{
  Response, Externals, get_transaction_by_idempotency_key, get_account_by_number,
}
use dante_api_systems.Payment.Merchants.{resolve_merchant}
use dante_api_systems.Payment.Effects.{Quiet, reports_created}
use dante_api_systems.Payment.Qris.{QrisRequest, matches, replayed, create_qris_transaction}
use dante_api_systems.Payment.Qris.Acceptance.{replayed_for-Quiet}

-- `matches` compares the account, the merchant and the amount.
pub matches_iff :
    (tx : Transaction) (a : Account) (m : Merchant) (amount : ℤ)
    → (matches tx a m amount ≡ true)
      ↔ ((tx.account_id ≡ a.id) × (tx.merchant_id ≡ some m.id) × (tx.amount ≡ amount))
matches_iff tx a m amount = (λ h. ground arith, λ h. ground arith)

-- A QRIS request under a key that has a transaction stores nothing, publishes nothing and marks
-- nothing, whatever its other fields and whatever the other components answer; and it does not
-- report a transaction as created.
pub replay-Quiet :
    (externals : Externals) (has_legacy : Bool) (req : QrisRequest) (env : Env Response)
    (tx : Transaction)
    → env [] (get_transaction_by_idempotency_key req.idempotency_key) ≡ answer tx
    → let (r, t) = create_qris_transaction externals has_legacy req env [] in
      Quiet env [] t × (reports_created r ≡ 0)
unfolding create_qris_transaction replayed
replay-Quiet externals has_legacy req env tx found =
    let key = get_transaction_by_idempotency_key req.idempotency_key in
    let acc = get_account_by_number req.session.account_number in
    let (q, r) =
      replayed_for-Quiet externals has_legacy req env tx (env (key ∷ []) acc) (acc ∷ key ∷ []) in
    rw found (
      omega
          (arith, q.same_stored, q.same_writes, q.same_published, q.same_enqueued, q.same_failures),
      r,
    )

-- Once the account of the session and the merchant are found, such a request is answered with the
-- stored transaction if that has this account, this merchant and this amount, and with a conflict
-- if it differs in one of them.
pub replay_decides :
    (externals : Externals) (has_legacy : Bool) (req : QrisRequest) (env : Env Response)
    (tx : Transaction) (a : Account) (m : Merchant)
    → let key = get_transaction_by_idempotency_key req.idempotency_key in
      let acc = get_account_by_number req.session.account_number in
      env [] key ≡ answer tx
      → env (key ∷ []) acc ≡ answer a
      → (resolve_merchant externals has_legacy req.merchant_ref env (acc ∷ key ∷ [])).0 ≡ ok m
      → let r = (create_qris_transaction externals has_legacy req env []).0 in
        let same =
          (tx.account_id ≡ a.id) × (tx.merchant_id ≡ some m.id) × (tx.amount ≡ req.amount) in
        (same × (r ≡ ok (record { transaction = tx; created = false })))
        ⊎ ((¬ same) × (r ≡ err (sentinel idempotency_conflict)))
unfolding create_qris_transaction replayed
replay_decides externals has_legacy req env tx a m found owner resolved =
    let (to, from) = matches_iff tx a m req.amount in
    rw (found, owner, resolved)
      (elim (Bool-cases (matches tx a m req.amount)) [
        | inl e ↦ inl (to e, rw e refl)
        | inr e ↦ inr (λ same. ground (arith, from same), rw e refl)
      ])
