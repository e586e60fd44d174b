-- ===== src/Account.antt =====
-- internal/service/account/service.go: GetProfile and GetBalance, over calls of the database, the
-- cache of balances, the legacy system and the clock.
pub mod Access
mod Tests
use dante_api_systems.Base.{Bool, String, str_eq, if◌then◌else◌}
use dante_api_systems.Base.Int.{ℤ}
use dante_api_systems.Go.Errors.{Error, sentinel, wrap, is, redis_nil, account_access_denied}
use dante_api_systems.Go.Exec.{Reply, answer, error, Exec, ask, pure, fail, ◌>>=◌}
use dante_api_systems.Cache.Policy.{account_balance_ttl}
use dante_api_systems.Models.{Uuid, Time, Account, UpdateAccountBalanceParams}
use dante_api_systems.Views.{SessionView, AccountBalanceCacheEntry, BalanceSnapshot}

pub record ProfileView : Type 0 where
  pub id : Uuid
  pub user_id : Uuid
  pub account_number : String
  pub customer_id : String
  pub customer_name : String
  pub created_at : Time

pub record BalanceView : Type 0 where
  pub account_id : Uuid
  pub reference_account_id : String
  pub balance : ℤ
  pub source : String
  pub fetched_at : Time

pub data Call : Type 0 where
  get_account_by_id : Uuid → Call
  update_account_balance : UpdateAccountBalanceParams → Call
  get_account_balance : Uuid → Call
  set_account_balance : AccountBalanceCacheEntry → ℤ → Call
  get_balance : String → String → Call
  now : Call

abbrev pub Response : Call → Type 0
Response (get_account_by_id id) = Reply Account
Response (update_account_balance params) = Reply Account
Response (get_account_balance id) = Reply AccountBalanceCacheEntry
Response (set_account_balance entry ttl) = Reply (Unit {0})
Response (get_balance account_number pin) = Reply BalanceSnapshot
Response now = Time

abbrev pub Action : Type 0 → Type 0
Action A = Exec Response A

module _ (id : Uuid) (session : SessionView) where
  abbrev pub profile_view : Account → ProfileView
  profile_view account = record {
    id = account.id;
    user_id = account.user_id;
    account_number = account.account_number;
    customer_id = session.customer_id;
    customer_name = session.customer_name;
    created_at = account.created_at;
  }

  abbrev profile_for : Reply Account → Action ProfileView
  profile_for (error e) = fail e
  profile_for (answer account) =
      if str_eq account.account_number session.account_number
      then pure (profile_view account)
      else fail (sentinel account_access_denied)

  pub get_profile : Action ProfileView
  get_profile = do found ← ask (get_account_by_id id); profile_for found

  abbrev pub cached_view : AccountBalanceCacheEntry → BalanceView
  cached_view entry = record {
    account_id = id;
    reference_account_id = entry.reference_account_id;
    balance = entry.balance;
    source = "cache";
    fetched_at = entry.fetched_at;
  }

  abbrev pub legacy_view : BalanceSnapshot → Time → BalanceView
  legacy_view snapshot at = record {
    account_id = id;
    reference_account_id = snapshot.reference_account_id;
    balance = snapshot.balance;
    source = "legacy";
    fetched_at = at;
  }

  abbrev balance_cached : BalanceSnapshot → Time → Reply (Unit {0}) → Action BalanceView
  balance_cached snapshot at (error e) = fail (wrap "cache account balance snapshot" e)
  balance_cached snapshot at (answer u) = pure (legacy_view snapshot at)

  module _ (uuid_string : Uuid → String) (pin : String) where
    abbrev pub balance_entry : BalanceSnapshot → Time → AccountBalanceCacheEntry
    balance_entry snapshot at = record {
      account_id = uuid_string id;
      reference_account_id = snapshot.reference_account_id;
      balance = snapshot.balance;
      fetched_at = at;
    }

    abbrev balance_updated : BalanceSnapshot → Time → Reply Account → Action BalanceView
    balance_updated snapshot at (error e) = fail (wrap "update local account balance snapshot" e)
    balance_updated snapshot at (answer account) = do
      cached ← ask (set_account_balance (balance_entry snapshot at) account_balance_ttl)
      balance_cached snapshot at cached

    abbrev balance_loaded : Reply BalanceSnapshot → Action BalanceView
    balance_loaded (error e) = fail (wrap "load account balance from legacy" e)
    balance_loaded (answer snapshot) = do
      at ← ask now
      updated ← ask (update_account_balance (record { id = id; balance = snapshot.balance }))
      balance_updated snapshot at updated

    abbrev balance_looked_up : Reply AccountBalanceCacheEntry → Action BalanceView
    balance_looked_up (answer entry) = pure (cached_view entry)
    balance_looked_up (error e) =
        if is e redis_nil
        then (do snapshot ← ask (get_balance session.account_number pin); balance_loaded snapshot)
        else fail (wrap "read account balance from cache" e)

    abbrev balance_for : Reply Account → Action BalanceView
    balance_for (error e) = fail e
    balance_for (answer account) =
        if str_eq account.account_number session.account_number
        then (do entry ← ask (get_account_balance id); balance_looked_up entry)
        else fail (sentinel account_access_denied)

    -- `GetBalance`
    unfoldable pub account_balance : Action BalanceView
    account_balance = do found ← ask (get_account_by_id id); balance_for found
