-- ===== src/Bridge/Accounts.antt =====
-- The handlers of an account: its profile, its balance and its transactions.
use dante_api_systems.Base.{String, str_eq, map, if◌then◌else◌}
use dante_api_systems.Base.Int.{ℤ}
use dante_api_systems.Go.Errors.{Error, sentinel, is, no_rows, account_access_denied}
use dante_api_systems.Go.Exec.{Reply, answer, error, ask, ◌>>=◌}
use dante_api_systems.Models.{Account}
use dante_api_systems.Views.{SessionView}
use dante_api_systems.Account.{ProfileView, BalanceView}
use dante_api_systems.History.{DetailView, HistoryPage, normalize_limit}
use dante_api_systems.Bridge.{
  Handler, Formats, respond, refuse, get_account_by_number, get_profile, get_balance,
  list_by_account,
}
use dante_api_systems.Bridge.Bodies.{
  AccountProfileDto, AccountBalanceDto, AccountTransactionsDto, TransactionDetailDto,
  map_transaction_detail_response,
}
use dante_api_systems.Bridge.Sessions.{with_bearer, with_session}

-- What the three handlers make of an error about an account; `text` is of any other error.
abbrev pub account_refused : {B : Type 0} → String → Error → Handler B
account_refused text e =
    if is e no_rows
    then refuse 404 "account not found"
    else (if is e account_access_denied
        then refuse 403 "requested account does not belong to the authenticated session"
        else refuse 503 text)

module _ {B : Type 0} where
  abbrev account_resolved : (Account → Handler B) → Reply Account → Handler B
  account_resolved next (answer account) = next account
  account_resolved next (error e) = account_refused "failed to resolve authenticated account" e

  -- `resolveAuthenticatedLocalAccount` and what each handler makes of its error
  abbrev pub with_account : SessionView → String → (Account → Handler B) → Handler B
  with_account session requested next =
      if str_eq requested session.legacy_account_id
      then (do
        found ← ask (get_account_by_number session.account_number)
        account_resolved next found)
      else account_resolved next (error (sentinel account_access_denied))

module _ (formats : Formats) where
  open formats use {uuid_string, rfc3339}

  abbrev profile_shown : SessionView → Reply ProfileView → Handler AccountProfileDto
  profile_shown session (error e) = account_refused "failed to fetch account profile" e
  profile_shown session (answer profile) = respond (record {
    id = session.legacy_account_id;
    user_id = uuid_string profile.user_id;
    account_number = profile.account_number;
    customer_id = profile.customer_id;
    customer_name = profile.customer_name;
    created_at = rfc3339 profile.created_at;
  })

  abbrev profile_for : SessionView → Account → Handler AccountProfileDto
  profile_for session account = do
    profile ← ask (get_profile account.id session)
    profile_shown session profile

  unfoldable pub get_account_profile : String → String → Handler AccountProfileDto
  get_account_profile authorization account_id =
      with_bearer authorization
        λ token. with_session token λ session. with_account session account_id (profile_for session)

  abbrev balance_shown : SessionView → Reply BalanceView → Handler AccountBalanceDto
  balance_shown session (error e) = account_refused "failed to fetch account balance" e
  balance_shown session (answer balance) = respond (record {
    account_id = session.legacy_account_id;
    reference_account_id = balance.reference_account_id;
    balance = balance.balance;
    source = balance.source;
    fetched_at = rfc3339 balance.fetched_at;
  })

  abbrev balance_for : String → SessionView → Account → Handler AccountBalanceDto
  balance_for pin session account = do
    balance ← ask (get_balance account.id session pin)
    balance_shown session balance

  unfoldable pub get_account_balance : String → String → String → Handler AccountBalanceDto
  get_account_balance authorization pin account_id = with_bearer authorization λ token.
      if str_eq pin ""
      then refuse 400 "missing X-Transaction-PIN header"
      else with_session token λ session. with_account session account_id (balance_for pin session)

  -- An item shows the account of the legacy system.
  abbrev pub item_of : SessionView → DetailView → TransactionDetailDto
  item_of session detail = record (map_transaction_detail_response formats detail) {
    account_id = session.legacy_account_id;
  }

  abbrev page_shown : SessionView → Reply HistoryPage → Handler AccountTransactionsDto
  page_shown session (error e) = refuse 500 "failed to fetch account transaction history"
  page_shown session (answer page) =
      respond (record { items = map (item_of session) page.items; next_cursor = page.next_cursor })

  abbrev page_for : String → SessionView → Account → Reply ℤ → Handler AccountTransactionsDto
  page_for cursor session account (error e) = refuse 400 "invalid limit"
  page_for cursor session account (answer limit) = do
    page ←
        ask (list_by_account (record { account_id = account.id; limit = limit; cursor = cursor }))
    page_shown session page

  unfoldable pub list_account_transactions :
      String → String → String → ℤ → Handler AccountTransactionsDto
  list_account_transactions authorization account_id cursor limit =
      with_bearer authorization λ token. with_session token λ session.
        with_account session account_id
          λ account. page_for cursor session account (normalize_limit limit)
