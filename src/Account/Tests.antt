-- ===== src/Account/Tests.antt =====
-- Concrete instances for the account reads.
use dante_api_systems.Base.{◌≡◌, ◌≢◌, ◌⊎◌, refl, [], ◌∷◌, String}
use dante_api_systems.Base.Int.{pos}
use dante_api_systems.Go.Errors.{sentinel, redis_nil, account_access_denied}
use dante_api_systems.Go.Exec.{answer, error, ok, err, Env}
use dante_api_systems.Models.{Uuid, Account}
use dante_api_systems.Views.{SessionView}
use dante_api_systems.Account.{
  BalanceView, Response, get_account_by_id, update_account_balance, get_account_balance,
  set_account_balance, get_balance, now, get_profile, account_balance, profile_view,
}
use dante_api_systems.Account.Access.{entry_of, access_guarded}

abbrev session : SessionView
session = record {
  token = "k";
  customer_id = "C1";
  account_id = "2";
  legacy_account_id = "A1";
  account_number = "100200";
  customer_name = "Ani";
  expires_at = 90;
  created_at = 10;
}

abbrev account : Account
account = record {
  id = 2;
  user_id = 7;
  account_number = "100200";
  balance = pos 5000;
  created_at = 1;
}

abbrev uuid_string : Uuid → String
uuid_string id = "2"

-- The cache has no balance, and the legacy system one of 750.
abbrev missing : Env Response
missing h (get_account_by_id id) = answer account
missing h (update_account_balance params) = answer account
missing h (get_account_balance id) = error (sentinel redis_nil)
missing h (set_account_balance entry ttl) = answer tt
missing h (get_balance account_number pin) =
    answer (record { account_id = "A1"; reference_account_id = "R"; balance = pos 750 })
missing h now = 12

abbrev answered : BalanceView
answered = record {
  account_id = 2;
  reference_account_id = "R";
  balance = pos 750;
  source = "legacy";
  fetched_at = 12;
}

abbrev filled : Env Response
filled h (get_account_balance id) = answer (entry_of uuid_string answered)
filled h c = missing h c

access_guarded_example :
    let asked = get_account_by_id 2 ∷ [] in
    ((account.account_number ≡ session.account_number)
      × (get_profile 2 session missing [] ≡ (ok (profile_view 2 session account), asked)))
    ⊎ ((account.account_number ≢ session.account_number)
        × (get_profile 2 session missing [] ≡ (err (sentinel account_access_denied), asked))
        × (account_balance 2 session uuid_string "123456" missing []
            ≡ (err (sentinel account_access_denied), asked)))
access_guarded_example = access_guarded 2 session uuid_string "123456" missing account refl
