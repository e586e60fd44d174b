-- ===== src/Database/Accounts.antt =====
-- internal/database/sqlc/users.sql.go: users and their accounts, with the constraints of
-- db/schema/init.sql.
use dante_api_systems.Base.{
  List, ◌∷◌, map, Option, none, some, Bool, false, String, str_eq, ◌==◌, if◌then◌else◌,
}
use dante_api_systems.Go.Errors.{sentinel, no_rows}
use dante_api_systems.Go.Exec.{Reply, answer, error}
use dante_api_systems.Models.{
  Uuid, Time, Account, User, CreateUserParams, CreateAccountParams, UpdateAccountBalanceParams,
}
use dante_api_systems.Database.Rows.{find}
use dante_api_systems.Database.Transactions.{one_row, violation, exists}

abbrev pub is_user : Uuid → User → Bool
is_user id user = user.id == id

-- NULL is no value: it equals none, and a UNIQUE column may have many.
abbrev same_text : Option String → Option String → Bool
same_text (some a) (some b) = str_eq a b
same_text _ _ = false

abbrev pub has_phone : Option String → User → Bool
has_phone phone_number user = same_text user.phone_number phone_number

abbrev pub is_account : Uuid → Account → Bool
is_account id account = account.id == id

abbrev pub has_number : String → Account → Bool
has_number account_number account = str_eq account.account_number account_number

abbrev new_user : Uuid → Time → CreateUserParams → User
new_user id at params = record {
  id = id;
  name = params.name;
  phone_number = params.phone_number;
  created_at = at;
}

unfoldable pub create_user : Uuid → Time → CreateUserParams → List User → Reply User × List User
create_user id at params users =
    if exists (is_user id) users
    then (violation "users_pkey", users)
    else (if exists (has_phone params.phone_number) users
        then (violation "users_phone_number_key", users)
        else (answer (new_user id at params), new_user id at params ∷ users))

unfoldable pub get_user_by_id : Uuid → List User → Reply User
get_user_by_id id users = one_row (find (is_user id) users)

unfoldable pub get_user_by_phone_number : Option String → List User → Reply User
get_user_by_phone_number phone_number users = one_row (find (has_phone phone_number) users)

abbrev new_account : Uuid → Time → CreateAccountParams → Account
new_account id at params = record {
  id = id;
  user_id = params.user_id;
  account_number = params.account_number;
  balance = params.balance;
  created_at = at;
}

unfoldable pub create_account :
    Uuid → Time → CreateAccountParams → List User → List Account → Reply Account × List Account
create_account id at params users accounts =
    if exists (is_account id) accounts
    then (violation "accounts_pkey", accounts)
    else (if exists (has_number params.account_number) accounts
        then (violation "accounts_account_number_key", accounts)
        else (if exists (is_user params.user_id) users
            then (answer (new_account id at params), new_account id at params ∷ accounts)
            else (violation "accounts_user_id_fkey", accounts)))

unfoldable pub get_account_by_id : Uuid → List Account → Reply Account
get_account_by_id id accounts = one_row (find (is_account id) accounts)

unfoldable pub get_account_by_number : String → List Account → Reply Account
get_account_by_number account_number accounts = one_row (find (has_number account_number) accounts)

abbrev pub with_balance : UpdateAccountBalanceParams → Account → Account
with_balance params account =
    if is_account params.id account then record account { balance = params.balance } else account

abbrev balance_updated :
    UpdateAccountBalanceParams → Option Account → List Account → Reply Account × List Account
balance_updated params none accounts = (error (sentinel no_rows), accounts)
balance_updated params (some account) accounts =
    (answer (with_balance params account), map (with_balance params) accounts)

unfoldable pub update_account_balance :
    UpdateAccountBalanceParams → List Account → Reply Account × List Account
update_account_balance params accounts =
    balance_updated params (find (is_account params.id) accounts) accounts
