-- ===== src/Cache/Client/Operations.antt =====
-- The operations of the cache client, by any number of clients one after another.
use dante_api_systems.Base.{ℕ, ◌≢◌, List, [], ◌∷◌, true, String, str_eq, arith, if◌then◌else◌}
use dante_api_systems.Base.Int.{ℤ}
use dante_api_systems.Go.Exec.{answer, Env}
use dante_api_systems.Models.{Uuid, Merchant}
use dante_api_systems.Views.{TransactionStatusCacheEntry, AccountBalanceCacheEntry, SessionEntry}
use dante_api_systems.Cache.Client.{
  Call, Response, Codecs, redis_set_nx, get_merchant, set_merchant, set_merchant_not_found,
  delete_merchant, get_transaction_status, set_transaction_status, delete_transaction_status,
  get_account_balance, set_account_balance, delete_account_balance, get_session, set_session,
  delete_session, acquire_merchant_lock, release_merchant_lock,
}

-- The operations of the client.
pub data Operation : Type 0 where
  read_merchant : Uuid → Operation
  write_merchant : Merchant → ℤ → Operation
  write_merchant_not_found : Uuid → ℤ → Operation
  remove_merchant : Uuid → Operation
  read_status : Uuid → Operation
  write_status : TransactionStatusCacheEntry → ℤ → Operation
  remove_status : Uuid → Operation
  read_balance : Uuid → Operation
  write_balance : AccountBalanceCacheEntry → ℤ → Operation
  remove_balance : Uuid → Operation
  read_session : String → Operation
  write_session : SessionEntry → ℤ → Operation
  remove_session : String → Operation
  acquire : Uuid → ℤ → Operation
  release : Uuid → String → Operation

-- Operations of any clients, one after another, with the calls that they made; each ends in its own
-- way, also by a panic, which ends its own request alone.
module _ (codecs : Codecs) (env : Env Response) where
  abbrev pub performed : Operation → List Call → List Call
  performed (read_merchant id) h = (get_merchant codecs id env h).1
  performed (write_merchant merchant ttl) h = (set_merchant codecs merchant ttl env h).1
  performed (write_merchant_not_found id ttl) h = (set_merchant_not_found codecs id ttl env h).1
  performed (remove_merchant id) h = (delete_merchant codecs id env h).1
  performed (read_status id) h = (get_transaction_status codecs id env h).1
  performed (write_status entry ttl) h = (set_transaction_status codecs entry ttl env h).1
  performed (remove_status id) h = (delete_transaction_status codecs id env h).1
  performed (read_balance id) h = (get_account_balance codecs id env h).1
  performed (write_balance entry ttl) h = (set_account_balance codecs entry ttl env h).1
  performed (remove_balance id) h = (delete_account_balance codecs id env h).1
  performed (read_session token) h = (get_session codecs token env h).1
  performed (write_session entry ttl) h = (set_session codecs entry ttl env h).1
  performed (remove_session token) h = (delete_session codecs token env h).1
  performed (acquire id ttl) h = (acquire_merchant_lock codecs id ttl env h).1
  performed (release id token) h = (release_merchant_lock codecs id token env h).1

  unfoldable pub all_performed : List Operation → List Call → List Call
  all_performed [] h = h
  all_performed (op ∷ ops) h = all_performed ops (performed op h)

-- No release among the operations bears the token.
abbrev pub Unreleased : String → List Operation → Type 0
Unreleased token [] = Unit
Unreleased token (release id other ∷ ops) = (other ≢ token) × Unreleased token ops
Unreleased token (_ ∷ ops) = Unreleased token ops

-- Locks of a key that were acquired.
abbrev pub taken : String → (c : Call) → Response c → ℕ
taken key (redis_set_nx k v ttl) (answer true) = if str_eq k key then 1 else 0
taken key _ _ = 0

pub Unreleased-cons :
    (token : String) (op : Operation) (ops : List Operation)
    → Unreleased token (op ∷ ops)
    → Unreleased token (op ∷ []) × Unreleased token ops
Unreleased-cons token op ops u = ground (arith, u)
