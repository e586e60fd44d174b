-- ===== src/Go/Errors.antt =====
-- Go's error values as the services use them: the sentinel errors, `fmt.Errorf` with `%w`, and
-- `errors.Is`.
use dante_api_systems.Base.{ℕ, Bool, false, String, ◌==◌}

-- The sentinel errors that some code compares by `errors.Is`.
pub data Sentinel : Type 0 where
  no_rows : Sentinel
  redis_nil : Sentinel
  deadline_exceeded : Sentinel
  circuit_open : Sentinel
  legacy_unavailable : Sentinel
  legacy_not_found : Sentinel
  lookup_in_progress : Sentinel
  invalid_credentials : Sentinel
  email_already_registered : Sentinel
  invalid_token : Sentinel
  expired_session : Sentinel
  account_access_denied : Sentinel
  idempotency_conflict : Sentinel
  account_not_provisioned : Sentinel
  merchant_not_found : Sentinel

-- `operation_error` is legacy.OperationError; `failure` any error that no code looks into;
-- `syntax_error` and `type_error` are those of encoding/json.
pub data Error : Type 0 where
  sentinel : Sentinel → Error
  operation_error : String → String → Error
  syntax_error : Error
  type_error : Error
  failure : String → Error
  wrap : String → Error → Error

abbrev number : Sentinel → ℕ
number no_rows = 0
number redis_nil = 1
number deadline_exceeded = 2
number circuit_open = 3
number legacy_unavailable = 4
number legacy_not_found = 5
number lookup_in_progress = 6
number invalid_credentials = 7
number email_already_registered = 8
number invalid_token = 9
number expired_session = 10
number account_access_denied = 11
number idempotency_conflict = 12
number account_not_provisioned = 13
number merchant_not_found = 14

-- Sentinels are pointers: equal only to themselves.
abbrev pub same : Sentinel → Sentinel → Bool
same a b = number a == number b

-- `errors.Is(err, target)`
abbrev pub is : Error → Sentinel → Bool
is (sentinel s) t = same s t
is (operation_error op response) t = false
is syntax_error t = false
is type_error t = false
is (failure text) t = false
is (wrap text e) t = is e t
