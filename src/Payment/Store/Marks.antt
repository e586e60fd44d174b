-- ===== src/Payment/Store/Marks.antt =====
-- The status of a transaction in the tables, read off the calls that were made.
use dante_api_systems.Base.{
  ◌≡◌, refl, ap, ◌∙◌, Option-cases, List, [], ◌∷◌, Bool, true, false, Bool-cases, inl, inr, Option,
  none, some, String, ◌==◌, if◌then◌else◌, arith, map,
}
use dante_api_systems.Go.Errors.{Error}
use dante_api_systems.Go.Exec.{answer, Env}
use dante_api_systems.Models.{
  Uuid, Time, Transaction, CreateTransactionParams, UpdateTransactionStatusParams,
}
use dante_api_systems.Database.Rows.{find}
use dante_api_systems.Database.Transactions.{has_id, with_status}
use dante_api_systems.Database.Transactions
use dante_api_systems.Payment.Calls.{Call, Response, create_transaction, update_transaction_status}
use dante_api_systems.Payment.Store.{Tables, changed, after, served}

abbrev pub status : Option Transaction → Option String
status none = none
status (some row) = some row.status

-- The status of the transaction with this uuid, if there is one.
abbrev pub status_of : Uuid → List Transaction → Option String
status_of id rows = status (find (has_id id) rows)

-- The status of that transaction after a call and its answer.
abbrev pub marked : Uuid → (c : Call) → Response c → Option String → Option String
marked id (create_transaction params) (answer tx) s = if tx.id == id then some tx.status else s
marked id (update_transaction_status params) (answer tx) s =
    if params.id == id then some params.status else s
marked id _ _ s = s

-- The same after all calls of a trace, the newest of which is first.
abbrev pub marks : Uuid → Env Response → List Call → Option String → Option String
marks id env [] s = s
marks id env (c ∷ h) s = marked id c (env h c) (marks id env h s)

find-with_status_other :
    (at : Time) (params : UpdateTransactionStatusParams) (id : Uuid) (rows : List Transaction)
    → (params.id == id) ≡ false
    → status_of id (map (with_status at params) rows) ≡ status_of id rows
find-with_status_other at params id [] other = refl
find-with_status_other at params id (x ∷ rows) other =
    ground (arith, find-with_status_other at params id rows)

find-with_status_same :
    (at : Time) (params : UpdateTransactionStatusParams) (id : Uuid) (rows : List Transaction)
    (row : Transaction)
    → (params.id == id) ≡ true
    → find (has_id params.id) rows ≡ some row
    → status_of id (map (with_status at params) rows) ≡ some params.status
find-with_status_same at params id [] row same found = cc
find-with_status_same at params id (x ∷ rows) row same found =
    ground (arith, find-with_status_same at params id rows row)

find-with_status :
    (at : Time) (params : UpdateTransactionStatusParams) (id : Uuid) (rows : List Transaction)
    (row : Transaction)
    → find (has_id params.id) rows ≡ some row
    → status_of id (map (with_status at params) rows)
      ≡ (if params.id == id then some params.status else status_of id rows)
find-with_status at params id rows row found = elim (Bool-cases (params.id == id)) [
  | inl e ↦ rw e (find-with_status_same at params id rows row e found)
  | inr e ↦ rw e (find-with_status_other at params id rows e)
]

update-marks :
    (at : Time) (params : UpdateTransactionStatusParams) (id : Uuid) (rows : List Transaction)
    → let (r, rows') = Transactions.update_transaction_status at params rows in
      status_of id rows' ≡ marked id (update_transaction_status params) r (status_of id rows)
unfolding Transactions.update_transaction_status
update-marks at params id rows = elim (Option-cases (find (has_id params.id) rows)) [
  | inl e ↦ rw e refl
  | inr (row, e) ↦ ground (arith, find-with_status at params id rows row)
]

create-marks :
    (made : Uuid) (at : Time) (refers : Bool) (params : CreateTransactionParams) (id : Uuid)
    (rows : List Transaction)
    → let (r, rows') = Transactions.create_transaction made at refers params rows in
      status_of id rows' ≡ marked id (create_transaction params) r (status_of id rows)
unfolding Transactions.create_transaction
create-marks made at refers params id rows = ground arith

module _ (uuids : List Call → Uuid) (clock : List Call → Time) (outage : List Call → Option Error)
    (others : Env Response) (t : Tables) where
  abbrev store : Env Response
  store = served uuids clock outage others t

  abbrev now : List Call → Tables
  now = after uuids clock outage others t

  call-marks :
      (id : Uuid) (c : Call) (h : List Call)
      → status_of id (now (c ∷ h)).transactions
        ≡ marked id c (store h c) (status_of id (now h).transactions)
  unfolding after served changed
  call-marks id (create_transaction params) h = elim (Option-cases (outage h)) [
    | inl e ↦ rw e (create-marks (uuids h) (clock h) _ params id (now h).transactions)
    | inr (x, e) ↦ rw e refl
  ]
  call-marks id (update_transaction_status params) h = elim (Option-cases (outage h)) [
    | inl e ↦ rw e (update-marks (clock h) params id (now h).transactions)
    | inr (x, e) ↦ rw e refl
  ]
  call-marks id c h = ground arith

  -- The tables have the status that the calls made give.
  pub status_of-marks :
      (id : Uuid) (h : List Call)
      → status_of id (now h).transactions ≡ marks id store h (status_of id t.transactions)
  unfolding after
  status_of-marks id [] = refl
  status_of-marks id (c ∷ h) =
      call-marks id c h ∙ ap (marked id c (store h c)) (status_of-marks id h)
