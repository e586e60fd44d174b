-- ===== src/History/Table.antt =====
-- The history of an account on a table of transactions.
use dante_api_systems.Base.{
  ℕ, ◌≡◌, ◌≤◌, ◌⊎◌, inl, inr, sym, ap, ◌∙◌, true, false, Bool-cases, List, [], ◌∷◌, arith,
}
use dante_api_systems.Go.Exec.{answer, Env}
use dante_api_systems.Models.{Uuid, Time, Transaction}
use dante_api_systems.Database.Rows.{filter, take, All, filter-filter}
use dante_api_systems.Database.Order.{order_by, IsSeparated, filter-order_by}
use dante_api_systems.Database.Transactions.{newer, beyond, of_account}
use dante_api_systems.Database.Transactions
use dante_api_systems.Database.Integrity.{Apart, HasIds, HasIds-filter}
use dante_api_systems.History.{
  Response, list_transactions_by_account_id, get_transaction_by_id, get_transaction_status_by_id,
}

-- The database with these rows; the cache answers as `cache` says.
abbrev pub served : List Transaction → Env Response → Env Response
served rows cache h (list_transactions_by_account_id params) =
    answer (Transactions.list_transactions_by_account_id params rows)
served rows cache h (get_transaction_by_id id) = Transactions.get_transaction_by_id id rows
served rows cache h (get_transaction_status_by_id id) =
    Transactions.get_transaction_status_by_id id rows
served rows cache h call = cache h call

pub newer_trans : (x y z : Transaction) → newer x y ≡ true → newer y z ≡ true → newer x z ≡ true
newer_trans x y z h k = ground arith

pub newer_asym : (x y : Transaction) → newer x y ≡ true → newer y x ≡ false
newer_asym x y h = ground arith

pub newer_irrefl : (x : Transaction) → newer x x ≡ false
newer_irrefl x = ground arith

-- No row was stored at Go's zero time.
abbrev pub AreTimed : List Transaction → Type 0
AreTimed = All (λ row. 1 ≤ row.created_at)

separates-Apart : (x y : Transaction) → Apart x y → (newer x y ≡ true) ⊎ (newer y x ≡ true)
separates-Apart x y h = elim (Bool-cases (newer x y)) [ inl e ↦ inl e | inr e ↦ inr (ground arith) ]

All-separated :
    (x : Transaction) (rows : List Transaction)
    → All (Apart x) rows
    → All (λ y. (newer x y ≡ true) ⊎ (newer y x ≡ true)) rows
All-separated x [] h = tt
All-separated x (y ∷ rows) (h, hs) = (separates-Apart x y h, All-separated x rows hs)

pub HasIds-IsSeparated : (rows : List Transaction) → HasIds rows → IsSeparated newer rows
HasIds-IsSeparated [] h = tt
HasIds-IsSeparated (x ∷ rows) (h, hs) = (All-separated x rows h, HasIds-IsSeparated rows hs)

-- All transactions of an account, the newest first.
abbrev pub history_of : Uuid → List Transaction → List Transaction
history_of id rows = order_by newer (filter (of_account id) rows)

-- A page of the table is a page of the history after the cursor.
pub list-history_of :
    (id : Uuid) (at : Time) (from : Uuid) (n : ℕ) (rows : List Transaction)
    → HasIds rows
    → Transactions.list_transactions_by_account_id
        (record { account_id = id; column2 = at; id = from; limit = n })
        rows
      ≡ take n (filter (beyond at from) (history_of id rows))
unfolding Transactions.list_transactions_by_account_id
list-history_of id at from n rows ids =
    ap (λ found. take n (order_by newer found))
      (filter-filter (beyond at from) (of_account id) rows)
    ∙ ap (take n) (
        sym (
          filter-order_by newer newer_trans (beyond at from) (filter (of_account id) rows) (
            HasIds-IsSeparated (filter (of_account id) rows)
              (HasIds-filter (of_account id) rows ids))))
