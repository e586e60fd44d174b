-- ===== src/Payment/Transfer/Replay.antt =====
-- Transfers under an idempotency key that has a transaction, and the destination that the events
-- of a transfer keep.
use dante_api_systems.Base.{
  ◌≡◌, ◌↔◌, refl, true, false, none, String, str_eq, List, [], ◌∷◌, ◌++◌, arith,
}
use dante_api_systems.Base.Int.{ℤ}
use dante_api_systems.Base.Dict.{lookup}
use dante_api_systems.Go.Exec.{answer, Env}
use dante_api_systems.Models.{Account, Transaction, TransactionEvent}
use dante_api_systems.Payment.Calls.{Response, Externals, get_transaction_by_idempotency_key}
use dante_api_systems.Payment.Effects.{Quiet, reports_created}
use dante_api_systems.Payment.Transfer.{
  TransferRequest, matches, transfer_replay_matches, created_metadata, replayed,
  create_transfer_transaction,
}

-- `matches` compares the account and the amount, and wants no merchant.
pub matches_iff :
    (tx : Transaction) (a : Account) (amount : ℤ)
    → (matches tx a amount ≡ true)
      ↔ ((tx.account_id ≡ a.id) × (tx.merchant_id ≡ none) × (tx.amount ≡ amount))
matches_iff tx a amount = (λ h. ground arith, λ h. ground arith)

-- A transfer under a key that has a transaction stores nothing, publishes nothing and marks
-- nothing, whatever its other fields and whatever the other components answer; and it does not
-- report a transaction as created.
pub transfer_replay-Quiet :
    (externals : Externals) (req : TransferRequest) (env : Env Response) (tx : Transaction)
    → env [] (get_transaction_by_idempotency_key req.idempotency_key) ≡ answer tx
    → let (r, t) = create_transfer_transaction externals req env [] in
      Quiet env [] t × (reports_created r ≡ 0)
unfolding create_transfer_transaction replayed
transfer_replay-Quiet externals req env tx found = rw found (ground arith)

-- No event of the list is the creation of a transfer.
abbrev pub NoCreation : List TransactionEvent → Type 0
NoCreation [] = Unit
NoCreation (event ∷ events) =
    (str_eq event.event_type "TRANSFER_CREATED" ≡ false) × NoCreation events

-- The destination that a later request is compared with is the one that the transfer was created
-- with: among events that have no creation of a transfer before the event `made` of the request
-- `req` for the account `a`, a destination matches exactly if it is that of `req`; the events
-- after it do not count.
pub destination_kept :
    (externals : Externals) (req : TransferRequest) (a : Account) (made : TransactionEvent)
    (before after : List TransactionEvent) (to : String)
    → NoCreation before
    → made.event_type ≡ "TRANSFER_CREATED"
    → made.metadata ≡ created_metadata externals req a
    → transfer_replay_matches (before ++ made ∷ after) to ≡ str_eq req.to_account_number to
unfolding transfer_replay_matches lookup
destination_kept externals req a made [] after to none_before kind kept = rw (kind, kept) refl
destination_kept externals req a made (event ∷ before) after to (other, none_before) kind kept =
    rw other (destination_kept externals req a made before after to none_before kind kept)
