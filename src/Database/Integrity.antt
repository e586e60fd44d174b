-- ===== src/Database/Integrity.antt =====
-- What the constraints of the schema keep true of the table of transactions.
use dante_api_systems.Base.{
  ◌≡◌, ◌≢◌, refl, sym, subst, Bool, true, false, not, Bool-cases, Option-cases, inl, inr, List, [],
  ◌∷◌, map, String, str_eq, if◌then◌else◌, arith,
}
use dante_api_systems.Base.Int.{pos, leb_ℤ}
use dante_api_systems.Go.Exec.{Reply}
use dante_api_systems.Models.{
  Uuid, Time, Transaction, CreateTransactionParams, UpdateTransactionStatusParams,
}
use dante_api_systems.Database.Rows.{filter, find, All, All-filter}
use dante_api_systems.Database.Transactions.{
  allowed_status, exists, created_row, has_id, has_key, with_status, create_transaction,
  update_transaction_status,
}

-- PRIMARY KEY
abbrev pub Apart : Transaction → Transaction → Type 0
Apart x y = x.id ≢ y.id

abbrev pub HasIds : List Transaction → Type 0
HasIds [] = Unit
HasIds (row ∷ rows) = All (Apart row) rows × HasIds rows

-- UNIQUE
abbrev pub OtherKey : String → Transaction → Type 0
OtherKey key row = str_eq row.idempotency_key key ≡ false

abbrev pub HasKeys : List Transaction → Type 0
HasKeys [] = Unit
HasKeys (row ∷ rows) = All (OtherKey row.idempotency_key) rows × HasKeys rows

abbrev pub IsAllowed : Transaction → Type 0
IsAllowed row = allowed_status row.status ≡ true

abbrev pub IsPositive : Transaction → Type 0
IsPositive row = leb_ℤ row.amount (pos 0) ≡ false

-- Each uuid and each idempotency key stands once, each status is one of the five, and each amount
-- is positive.
pub record IsConsistent (rows : List Transaction) : Type 0 where
  pub ids : HasIds rows
  pub keys : HasKeys rows
  pub statuses : All IsAllowed rows
  pub amounts : All IsPositive rows

pub HasIds-filter :
    (p : Transaction → Bool) (rows : List Transaction) → HasIds rows → HasIds (filter p rows)
HasIds-filter p [] h = tt
HasIds-filter p (x ∷ rows) (h, hs) = elim (Bool-cases (p x)) [
  | inl e ↦ rw e (All-filter (Apart x) p rows h, HasIds-filter p rows hs)
  | inr e ↦ rw e (HasIds-filter p rows hs)
]

absent-Apart :
    (row : Transaction) (rows : List Transaction)
    → exists (has_id row.id) rows ≡ false
    → All (Apart row) rows
absent-Apart row [] h = tt
absent-Apart row (x ∷ rows) h = (ground arith, absent-Apart row rows (ground arith))

absent-OtherKey :
    (key : String) (rows : List Transaction)
    → exists (has_key key) rows ≡ false
    → All (OtherKey key) rows
absent-OtherKey key [] h = tt
absent-OtherKey key (x ∷ rows) h = (ground arith, absent-OtherKey key rows (ground arith))

-- A guard that leaves the rows as they are.
kept_if :
    {A : Type 0} (P : A → Type 0) (b : Bool) (x y : A)
    → P x
    → (b ≡ false → P y)
    → P (if b then x else y)
kept_if P true x y p q = p
kept_if P false x y p q = q refl

pub create_transaction-IsConsistent :
    (id : Uuid) (at : Time) (refers : Bool) (params : CreateTransactionParams)
    (rows : List Transaction)
    → IsConsistent rows
    → IsConsistent (create_transaction id at refers params rows).1
unfolding create_transaction
create_transaction-IsConsistent id at refers params rows valid =
    let Kept : Reply Transaction × List Transaction → Type 0 = λ r. IsConsistent r.1 in
    kept_if Kept (leb_ℤ params.amount (pos 0)) _ _ valid (λ positive.
      kept_if Kept (not (allowed_status params.status)) _ _ valid (λ allowed.
        kept_if Kept (exists (has_id id) rows) _ _ valid (λ new_id.
          kept_if Kept (exists (has_key params.idempotency_key) rows) _ _ valid (λ new_key.
            kept_if Kept (not refers) _ _ valid (λ there. record {
              ids = (absent-Apart (created_row id at params) rows new_id, valid.ids);
              keys = (absent-OtherKey params.idempotency_key rows new_key, valid.keys);
              statuses = (ground arith, valid.statuses);
              amounts = (positive, valid.amounts);
            })))))

map-Apart :
    (at : Time) (params : UpdateTransactionStatusParams) (x : Transaction) (rows : List Transaction)
    → All (Apart x) rows
    → All (Apart (with_status at params x)) (map (with_status at params) rows)
map-Apart at params x [] h = tt
map-Apart at params x (y ∷ rows) (h, hs) = (ground arith, map-Apart at params x rows hs)

map-OtherKey :
    (at : Time) (params : UpdateTransactionStatusParams) (key : String) (rows : List Transaction)
    → All (OtherKey key) rows
    → All (OtherKey key) (map (with_status at params) rows)
map-OtherKey at params key [] h = tt
map-OtherKey at params key (y ∷ rows) (h, hs) = (ground arith, map-OtherKey at params key rows hs)

with_status-key :
    (at : Time) (params : UpdateTransactionStatusParams) (x : Transaction)
    → (with_status at params x).idempotency_key ≡ x.idempotency_key
with_status-key at params x = ground arith

map-IsConsistent :
    (at : Time) (params : UpdateTransactionStatusParams) (rows : List Transaction)
    → allowed_status params.status ≡ true
    → IsConsistent rows
    → IsConsistent (map (with_status at params) rows)
map-IsConsistent at params [] allowed valid = valid
map-IsConsistent at params (x ∷ rows) allowed valid =
    let rest = map-IsConsistent at params rows allowed (record {
      ids = valid.ids.1;
      keys = valid.keys.1;
      statuses = valid.statuses.1;
      amounts = valid.amounts.1;
    }) in
    record {
      ids = (map-Apart at params x rows valid.ids.0, rest.ids);
      keys = (
        subst (λ key. All (OtherKey key) (map (with_status at params) rows))
            (sym (with_status-key at params x))
            (map-OtherKey at params x.idempotency_key rows valid.keys.0),
        rest.keys,
      );
      statuses = (ground arith, rest.statuses);
      amounts = (ground arith, rest.amounts);
    }

pub update_transaction_status-IsConsistent :
    (at : Time) (params : UpdateTransactionStatusParams) (rows : List Transaction)
    → IsConsistent rows
    → IsConsistent (update_transaction_status at params rows).1
unfolding update_transaction_status
update_transaction_status-IsConsistent at params rows valid =
    elim (Option-cases (find (has_id params.id) rows)) [
      | inl e ↦ rw e valid
      | inr (row, e) ↦
          let Kept : Reply Transaction × List Transaction → Type 0 = λ r. IsConsistent r.1 in
          rw e (elim (Bool-cases (allowed_status params.status)) [
            | inl allowed ↦ rw allowed (map-IsConsistent at params rows allowed valid)
            | inr refused ↦ rw refused valid
          ])
    ]
