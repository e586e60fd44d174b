-- ===== src/Auth/Provisioning.antt =====
-- The local account of a customer who logs in.
use dante_api_systems.Base.{ℕ, ◌+◌, ◌≤◌, ◌≡◌, ◌≢◌, Bool, true, List, String, arith}
use dante_api_systems.Go.Exec.{answer, Result, ok, panic, Env}
use dante_api_systems.Go.Trace.{total}
use dante_api_systems.Models.{Account, CreateAccountParams}
use dante_api_systems.Auth.{
  Call, Response, get_account_by_number, create_account, create_user, set_session, delete_session,
  ensure_account_provisioned,
}

-- Attempts to create an account, and to create a user.
abbrev pub account_creations : (c : Call) → Response c → ℕ
account_creations (create_account params) r = 1
account_creations _ _ = 0

abbrev pub user_creations : (c : Call) → Response c → ℕ
user_creations (create_user params) r = 1
user_creations _ _ = 0

-- An account that was found or created has this number.
abbrev pub HasNumber : String → Result Account → Type 0
HasNumber account_number (ok a) = a.account_number ≡ account_number
HasNumber account_number _ = Unit

-- If the database answers accounts with the number that it was asked for, then the account that a
-- login gets has the customer's account number, also where another request creates it at the same
-- time. At most one account and one user are created.
pub ensure_account_provisioned_lem :
    (customer_id name account_number : String) (env : Env Response) (h : List Call)
    → ((h : List Call) (a : Account)
        → env h (get_account_by_number account_number) ≡ answer a
        → a.account_number ≡ account_number)
    → ((h : List Call) (p : CreateAccountParams) (a : Account)
        → env h (create_account p) ≡ answer a
        → a.account_number ≡ p.account_number)
    → let (r, t) = ensure_account_provisioned true customer_id name account_number env h in
      HasNumber account_number r
      × (r ≢ panic)
      × (total account_creations env t ≤ total account_creations env h + 1)
      × (total user_creations env t ≤ total user_creations env h + 1)
unfolding ensure_account_provisioned
ensure_account_provisioned_lem customer_id name account_number env h reads makes = grind arith

-- Attempts to store or delete a session, and the sessions that were stored.
abbrev pub session_writes : (c : Call) → Response c → ℕ
session_writes (set_session entry ttl) r = 1
session_writes (delete_session token) r = 1
session_writes _ _ = 0

abbrev pub stored_sessions : (c : Call) → Response c → ℕ
stored_sessions (set_session entry ttl) (answer u) = 1
stored_sessions _ _ = 0

-- Provisioning neither panics nor touches the sessions.
pub ensure_quiet :
    (has_provisioner : Bool) (customer_id name account_number : String) (env : Env Response)
    (h : List Call)
    → let (r, t) =
        ensure_account_provisioned has_provisioner customer_id name account_number env h in
      (r ≢ panic)
      × (total session_writes env t ≡ total session_writes env h)
      × (total stored_sessions env t ≡ total stored_sessions env h)
unfolding ensure_account_provisioned
ensure_quiet has_provisioner customer_id name account_number env h = ground arith
