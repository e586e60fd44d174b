-- ===== src/Cache/Policy.antt =====
-- internal/cache/policy.go. Lifetimes are in nanoseconds; a uuid is printed by a parameter, the
-- String method of github.com/google/uuid.
use dante_api_systems.Base.{String}
use dante_api_systems.Base.Int.{ℤ, pos}
use dante_api_systems.Models.{Uuid}
use Prim.Native.String.{◌++◌}

abbrev pub merchant_ttl : ℤ
merchant_ttl = pos 86400000000000

abbrev pub merchant_negative_ttl : ℤ
merchant_negative_ttl = pos 10000000000

abbrev pub merchant_lock_ttl : ℤ
merchant_lock_ttl = pos 3000000000

abbrev pub transaction_status_ttl : ℤ
transaction_status_ttl = pos 30000000000

abbrev pub account_balance_ttl : ℤ
account_balance_ttl = pos 15000000000

module _ (uuid_string : Uuid → String) where
  abbrev pub merchant_key : Uuid → String
  merchant_key id = "merchant:" ++ uuid_string id

  abbrev pub merchant_lock_key : Uuid → String
  merchant_lock_key id = "lock:merchant:" ++ uuid_string id

  abbrev pub transaction_status_key : Uuid → String
  transaction_status_key id = "transaction_status:" ++ uuid_string id

  abbrev pub account_balance_key : Uuid → String
  account_balance_key id = "account_balance:" ++ uuid_string id

abbrev pub idempotency_key : String → String
idempotency_key key = "idempotency:" ++ key

abbrev pub session_key : String → String
session_key token = "session:" ++ token
