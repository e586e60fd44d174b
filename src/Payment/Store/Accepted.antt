-- ===== src/Payment/Store/Accepted.antt =====
-- What an accepted request leaves in the tables and hands to the workers.
use dante_api_systems.Base.{◌≡◌, ◌≢◌, Bool, true, List, [], ◌∷◌, Option, none, some, String, arith}
use dante_api_systems.Go.Exec.{answer, ok, Env}
use dante_api_systems.Models.{Transaction, CreateTransactionParams}
use dante_api_systems.Queue.Messages.{QrisPaymentMessage, TransferMessage}
use dante_api_systems.Payment.Calls.{
  Call, Response, Externals, create_transaction, publish_transfer, publish_qris_payment,
  status_processing,
}
use dante_api_systems.Payment.Merchants.{resolve_merchant}
use dante_api_systems.Payment.Store.Marks.{marks}
use dante_api_systems.Payment.Transfer.{TransferRequest, create_transfer_transaction}
use dante_api_systems.Payment.Transfer
use dante_api_systems.Payment.Qris.{QrisRequest, accept, create_qris_transaction}
use dante_api_systems.Payment.Qris

-- A created row has the status that was asked for.
abbrev pub KeepsStatus : Env Response → Type 0
KeepsStatus env =
    (h : List Call) (params : CreateTransactionParams) (tx : Transaction)
    → env h (create_transaction params) ≡ answer tx
    → tx.status ≡ params.status

-- The jobs that were published last.
abbrev pub last_transfer : List Call → Option TransferMessage
last_transfer [] = none
last_transfer (publish_transfer msg ∷ h) = some msg
last_transfer (c ∷ h) = last_transfer h

abbrev pub last_payment : List Call → Option QrisPaymentMessage
last_payment [] = none
last_payment (publish_qris_payment msg ∷ h) = some msg
last_payment (c ∷ h) = last_payment h

module _ (externals : Externals) (env : Env Response) (tx : Transaction) (s : Option String)
    (keeps : KeepsStatus env) where
  pub transfer_accepted :
      (req : TransferRequest)
      → (create_transfer_transaction externals req env []).0
        ≡ ok (record { transaction = tx; created = true })
      → let h = (create_transfer_transaction externals req env []).1 in
        (marks tx.id env h s ≡ some status_processing)
        × (last_transfer h ≢ none)
        × ((msg : TransferMessage)
            → last_transfer h ≡ some msg
            → (msg.transaction_id ≡ externals.uuid_string tx.id)
              × (msg.to_account_number ≡ req.to_account_number)
              × (msg.amount ≡ req.amount))
  unfolding create_transfer_transaction Transfer.replayed Transfer.accepted
  transfer_accepted req accepted = (grind (arith, keeps), ground arith, λ msg e. ground arith)

  pub payment_accepted :
      (has_legacy : Bool) (req : QrisRequest)
      → (create_qris_transaction externals has_legacy req env []).0
        ≡ ok (record { transaction = tx; created = true })
      → let h = (create_qris_transaction externals has_legacy req env []).1 in
        (marks tx.id env h s ≡ some status_processing)
        × (last_payment h ≢ none)
        × ((msg : QrisPaymentMessage)
            → last_payment h ≡ some msg
            → (msg.transaction_id ≡ externals.uuid_string tx.id) × (msg.amount ≡ tx.amount))
  unfolding create_qris_transaction Qris.replayed Qris.accepted accept resolve_merchant
  payment_accepted has_legacy req accepted =
      (grind (arith, keeps), ground arith, λ msg e. ground arith)
