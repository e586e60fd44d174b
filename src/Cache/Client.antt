-- ===== src/Cache/Client.antt =====
-- internal/cache/redis.go: the operations of the cache client, over the commands of a Redis server.
pub mod Server
pub mod Entries
pub mod Keys
pub mod Operations
pub mod Held
pub mod Lock
mod Tests
use dante_api_systems.Base.{Bool, true, false, Option, none, some, String, str_eq, if◌then◌else◌}
use dante_api_systems.Base.Int.{ℤ}
use dante_api_systems.Go.Errors.{Error, sentinel, wrap, no_rows, failure}
use dante_api_systems.Go.Exec.{Reply, answer, error, Exec, ask, pure, fail, crash, or_wrap, ◌>>=◌}
use dante_api_systems.Models.{Uuid, Merchant}
use dante_api_systems.Views.{TransactionStatusCacheEntry, AccountBalanceCacheEntry, SessionEntry}
use dante_api_systems.Cache.Policy.{
  merchant_key, merchant_lock_key, transaction_status_key, account_balance_key, session_key,
}

pub record MerchantCacheEntry : Type 0 where
  pub not_found : Bool
  pub merchant : Option Merchant

-- The commands; `redis_eval_release` is the script of ReleaseMerchantLock, whose result is dropped,
-- and `new_token` is uuid.NewString.
pub data Call : Type 0 where
  redis_get : String → Call
  redis_set : String → String → ℤ → Call
  redis_del : String → Call
  redis_set_nx : String → String → ℤ → Call
  redis_eval_release : String → String → Call
  new_token : Call

abbrev pub Response : Call → Type 0
Response (redis_get key) = Reply String
Response (redis_set_nx key value ttl) = Reply Bool
Response new_token = String
Response _ = Reply (Unit {0})

abbrev pub Action : Type 0 → Type 0
Action A = Exec Response A

-- json.Marshal and json.Unmarshal of an entry.
pub record Codec (A : Type 0) : Type 0 where
  pub marshal : A → Reply String
  pub unmarshal : String → Reply A

pub record Codecs : Type 0 where
  pub uuid_string : Uuid → String
  pub uuid_parse : String → Reply Uuid
  pub merchant_entry : Codec MerchantCacheEntry
  pub status_entry : Codec TransactionStatusCacheEntry
  pub balance_entry : Codec AccountBalanceCacheEntry
  pub session_entry : Codec SessionEntry

module _ {A : Type 0} where
  abbrev decoded : String → Reply A → Action A
  decoded text (answer entry) = pure entry
  decoded text (error e) = fail (wrap text e)

  abbrev payload_read : Codec A → String → Reply String → Action A
  payload_read codec text (error e) = fail e
  payload_read codec text (answer payload) = decoded text (codec.unmarshal payload)

  -- A get and the decoding of its payload; an error of the get is returned as it is.
  abbrev read_entry : Codec A → String → String → Action A
  read_entry codec text key = do payload ← ask (redis_get key); payload_read codec text payload

-- The set of a payload, if the entry could be encoded.
abbrev encoded : String → String → String → ℤ → Reply String → Action (Unit {0})
encoded marshal_text set_text key ttl (error e) = fail (wrap marshal_text e)
encoded marshal_text set_text key ttl (answer payload) = do
  done ← ask (redis_set key payload ttl)
  or_wrap set_text done

-- A delete, whose count is dropped.
abbrev delete_entry : String → String → Action (Unit {0})
delete_entry text key = do done ← ask (redis_del key); or_wrap text done

module _ (codecs : Codecs) where
  open codecs use {
    uuid_string, uuid_parse, merchant_entry, status_entry, balance_entry, session_entry,
  }

  abbrev merchant_present : Option Merchant → Action Merchant
  merchant_present (some merchant) = pure merchant
  merchant_present none = fail (failure "merchant cache payload missing merchant value")

  abbrev merchant_in : MerchantCacheEntry → Action Merchant
  merchant_in entry =
      if entry.not_found then fail (sentinel no_rows) else merchant_present entry.merchant

  unfoldable pub get_merchant : Uuid → Action Merchant
  get_merchant id = do
    entry ←
        read_entry merchant_entry "unmarshal merchant cache payload" (merchant_key uuid_string id)
    merchant_in entry

  unfoldable pub set_merchant : Merchant → ℤ → Action (Unit {0})
  set_merchant merchant ttl =
      encoded "marshal merchant cache payload" "set merchant cache payload"
        (merchant_key uuid_string merchant.id) ttl
        (merchant_entry.marshal (record { not_found = false; merchant = some merchant }))

  unfoldable pub set_merchant_not_found : Uuid → ℤ → Action (Unit {0})
  set_merchant_not_found id ttl =
      encoded "marshal merchant negative cache payload" "set merchant negative cache payload"
        (merchant_key uuid_string id) ttl
        (merchant_entry.marshal (record { not_found = true; merchant = none }))

  unfoldable pub delete_merchant : Uuid → Action (Unit {0})
  delete_merchant id = delete_entry "delete merchant cache payload" (merchant_key uuid_string id)

  unfoldable pub get_transaction_status : Uuid → Action TransactionStatusCacheEntry
  get_transaction_status id =
      read_entry status_entry "unmarshal transaction status cache payload"
        (transaction_status_key uuid_string id)

  -- The identifier is parsed by `uuid.MustParse`, which panics.
  abbrev status_stored : ℤ → String → Reply Uuid → Action (Unit {0})
  status_stored ttl payload (error e) = crash
  status_stored ttl payload (answer id) =
      encoded "marshal transaction status cache payload" "set transaction status cache payload"
        (transaction_status_key uuid_string id) ttl (answer payload)

  abbrev status_encoded : TransactionStatusCacheEntry → ℤ → Reply String → Action (Unit {0})
  status_encoded entry ttl (error e) = fail (wrap "marshal transaction status cache payload" e)
  status_encoded entry ttl (answer payload) = status_stored ttl payload (uuid_parse entry.id)

  unfoldable pub set_transaction_status : TransactionStatusCacheEntry → ℤ → Action (Unit {0})
  set_transaction_status entry ttl = status_encoded entry ttl (status_entry.marshal entry)

  unfoldable pub delete_transaction_status : Uuid → Action (Unit {0})
  delete_transaction_status id =
      delete_entry "delete transaction status cache payload" (transaction_status_key uuid_string id)

  unfoldable pub get_account_balance : Uuid → Action AccountBalanceCacheEntry
  get_account_balance id =
      read_entry balance_entry "unmarshal account balance cache payload"
        (account_balance_key uuid_string id)

  abbrev balance_stored : ℤ → String → Reply Uuid → Action (Unit {0})
  balance_stored ttl payload (error e) = crash
  balance_stored ttl payload (answer id) =
      encoded "marshal account balance cache payload" "set account balance cache payload"
        (account_balance_key uuid_string id) ttl (answer payload)

  abbrev balance_encoded : AccountBalanceCacheEntry → ℤ → Reply String → Action (Unit {0})
  balance_encoded entry ttl (error e) = fail (wrap "marshal account balance cache payload" e)
  balance_encoded entry ttl (answer payload) =
      balance_stored ttl payload (uuid_parse entry.account_id)

  unfoldable pub set_account_balance : AccountBalanceCacheEntry → ℤ → Action (Unit {0})
  set_account_balance entry ttl = balance_encoded entry ttl (balance_entry.marshal entry)

  unfoldable pub delete_account_balance : Uuid → Action (Unit {0})
  delete_account_balance id =
      delete_entry "delete account balance cache payload" (account_balance_key uuid_string id)

  unfoldable pub get_session : String → Action SessionEntry
  get_session token = read_entry session_entry "unmarshal session cache payload" (session_key token)

  unfoldable pub set_session : SessionEntry → ℤ → Action (Unit {0})
  set_session entry ttl =
      encoded "marshal session cache payload" "set session cache payload" (session_key entry.token)
        ttl (session_entry.marshal entry)

  unfoldable pub delete_session : String → Action (Unit {0})
  delete_session token = delete_entry "delete session cache payload" (session_key token)

  abbrev acquired : String → Reply Bool → Action (Option String)
  acquired token (error e) = fail (wrap "acquire merchant lock" e)
  acquired token (answer true) = pure (some token)
  acquired token (answer false) = pure none

  -- The token of the lock, if it was acquired
  unfoldable pub acquire_merchant_lock : Uuid → ℤ → Action (Option String)
  acquire_merchant_lock id ttl = do
    token ← ask new_token
    set ← ask (redis_set_nx (merchant_lock_key uuid_string id) token ttl)
    acquired token set

  unfoldable pub release_merchant_lock : Uuid → String → Action (Unit {0})
  release_merchant_lock id token = do
    done ← ask (redis_eval_release (merchant_lock_key uuid_string id) token)
    or_wrap "release merchant lock" done

-- The script of the release, on the value of its key.
abbrev pub release_script : String → Option String → Option String
release_script token (some value) = if str_eq value token then none else some value
release_script token none = none
