-- ===== src/Auth/Tests.antt =====
-- Concrete instances for sessions.
use dante_api_systems.Base.{some, String}
use dante_api_systems.Base.Int.{pos}
use dante_api_systems.Go.Errors.{sentinel, operation_error, no_rows}
use dante_api_systems.Go.Exec.{answer, error, Env}
use dante_api_systems.Models.{Uuid, Account, User}
use dante_api_systems.Views.{SessionEntry}
use dante_api_systems.Auth.{
  Response, LoginResponse, legacy_register, legacy_login, legacy_logout, get_account_profile,
  get_session, set_session, delete_session, get_user_by_phone_number, create_user,
  get_account_by_number, create_account, random_hex, now,
}

abbrev uuid_string : Uuid → String
uuid_string id = "2"

abbrev account : Account
account = record { id = 2; user_id = 7; account_number = "100200"; balance = pos 0; created_at = 1 }

abbrev user : User
user = record { id = 7; name = "Ani"; phone_number = some "C1"; created_at = 1 }

abbrev stored : SessionEntry
stored = record {
  token = "dante_ab";
  customer_id = "C1";
  local_account_id = "2";
  legacy_account_id = "A1";
  account_number = "100200";
  customer_name = "Ani";
  legacy_session_id = "S1";
  legacy_session_expiry = 90;
  created_at = 12;
}

-- A customer who has no account here yet.
abbrev fresh : Env Response
fresh h (legacy_register name email password pin) =
    answer (record { customer_id = "C1"; account_id = "A1"; account_number = "100200" })
fresh h (legacy_login email password) = answer (record {
  customer_id = "C1";
  account_id = "A1";
  account_number = "100200";
  customer_name = "Ani";
  session_reference = "S1";
  expires_at = 90;
})
fresh h (get_account_profile id password) =
    answer
      (record { customer_id = "C1"; account_id = "A1"; account_number = "100200"; name = "Ani" })
fresh h (get_session token) = answer stored
fresh h (get_user_by_phone_number phone) = error (sentinel no_rows)
fresh h (create_user params) = answer user
fresh h (get_account_by_number account_number) = error (sentinel no_rows)
fresh h (create_account params) = answer (record account { account_number = params.account_number })
fresh h random_hex = answer "ab"
fresh h now = 12
fresh h (legacy_logout id) = error (operation_error "logout" "error|invalid_session")
fresh h (set_session entry ttl) = answer tt
fresh h (delete_session token) = answer tt

abbrev response : LoginResponse
response = record {
  token = "dante_ab";
  customer_id = "C1";
  account_id = "2";
  legacy_account_id = "A1";
  account_number = "100200";
  customer_name = "Ani";
  expires_at = 90;
}
