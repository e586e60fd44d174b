-- ===== src/Bridge/Internal.antt =====
-- The operational handlers: readiness, the status of the dependencies and of the queues, and the
-- invalidation of cached entries.
use dante_api_systems.Base.{
  Bool, true, false, not, ◌&&◌, ◌||◌, Option, none, some, String, str_eq, List, [], ◌∷◌, ◌++◌,
  if◌then◌else◌,
}
use dante_api_systems.Base.Dict.{Dict}
use dante_api_systems.Go.Errors.{Error}
use dante_api_systems.Go.Exec.{Reply, answer, error, ask, pure, Exec, ◌>>=◌}
use dante_api_systems.Models.{Uuid}
use dante_api_systems.Bridge.{
  Handler, Response, Formats, QueueStats, respond, refuse, delete_merchant, delete_account_balance,
  delete_transaction_status, delete_session, ping_database, ping_redis, check_rabbitmq, ping_legacy,
  inspect_queues,
}

pub record CacheInvalidateRequest : Type 0 where
  pub merchant_id : Option String
  pub account_id : Option String
  pub transaction_id : Option String
  pub session_token : Option String

pub record DependencyStatus : Type 0 where
  pub status : String
  pub detail : String

-- The dependencies of the readiness check, and of the system status.
pub record Readiness : Type 0 where
  pub database : String
  pub redis : String

pub record Dependencies : Type 0 where
  pub database : DependencyStatus
  pub redis : DependencyStatus
  pub rabbitmq : DependencyStatus
  pub legacy : DependencyStatus

abbrev healthy : DependencyStatus
healthy = record { status = "ok"; detail = "" }

abbrev given : {A : Type 0} → Option A → Bool
given (some a) = true
given none = false

-- The status that a check leaves in the readiness map.
abbrev state_of : Reply (Unit {0}) → String
state_of (answer u) = "ok"
state_of (error e) = "error"

abbrev readiness : Readiness → Handler Readiness
readiness found =
    if not (str_eq found.database "ok") || not (str_eq found.redis "ok")
    then refuse 503 "service dependencies are not ready"
    else respond found

unfoldable pub get_ready : Handler Readiness
get_ready = do
  database ← ask ping_database
  redis ← ask ping_redis
  readiness (record { database = state_of database; redis = state_of redis })

module _ (error_text : Error → String) where
  abbrev checked : String → Reply (Unit {0}) → DependencyStatus
  checked detail (answer u) = record { status = "ok"; detail = detail }
  checked detail (error e) = record { status = "error"; detail = error_text e }

  -- `legacyDependencyStatus`: the endpoint is empty if there is no client.
  abbrev legacy_dependency_status : String → Exec Response DependencyStatus
  legacy_dependency_status endpoint =
      if str_eq endpoint ""
      then pure (record { status = "stub"; detail = "legacy adapter is not configured" })
      else (do pinged ← ask ping_legacy; pure (checked endpoint pinged))

  abbrev is_ok : DependencyStatus → Bool
  is_ok dependency = str_eq dependency.status "ok"

  abbrev system_status : Dependencies → Handler Dependencies
  system_status found =
      if is_ok found.database && is_ok found.redis && is_ok found.rabbitmq && is_ok found.legacy
      then respond found
      else refuse 503 "one or more system dependencies are unavailable"

  unfoldable pub get_system_status : String → Handler Dependencies
  get_system_status endpoint = do
    legacy ← legacy_dependency_status endpoint
    database ← ask ping_database
    redis ← ask ping_redis
    rabbitmq ← ask check_rabbitmq
    system_status (record {
      database = checked "" database;
      redis = checked "" redis;
      rabbitmq = checked "" rabbitmq;
      legacy = legacy;
    })

abbrev queues_inspected : Reply (Dict QueueStats) → Handler (Dict QueueStats)
queues_inspected (answer stats) = respond stats
queues_inspected (error e) = refuse 503 "rabbitmq broker is unavailable"

abbrev broker_checked : Reply (Unit {0}) → Handler (Dict QueueStats)
broker_checked (error e) = refuse 503 "rabbitmq broker is unavailable"
broker_checked (answer u) = do stats ← ask inspect_queues; queues_inspected stats

-- The queues of a broker that answers; a snapshot has the fields of its statistics.
unfoldable pub get_queue_status : Handler (Dict QueueStats)
get_queue_status = do checked ← ask check_rabbitmq; broker_checked checked

module _ (formats : Formats) where
  open formats use {uuid_parse}

  -- The names of the deleted entries so far are handed on.
  abbrev Next : Type 0
  Next = List String → Handler (List String)

  abbrev removed : String → String → Next → List String → Reply (Unit {0}) → Handler (List String)
  removed name text next names (answer u) = next (names ++ name ∷ [])
  removed name text next names (error e) = refuse 503 text

  abbrev invalidate_session : Option String → Next → Next
  invalidate_session none next names = next names
  invalidate_session (some token) next names =
      if str_eq token "" then refuse 400 "session_token must not be empty" else (do
        done ← ask (delete_session token)
        removed "session" "failed to invalidate session cache" next names done)

  abbrev transaction_parsed : Next → List String → Reply Uuid → Handler (List String)
  transaction_parsed next names (error e) = refuse 400 "invalid transaction_id"
  transaction_parsed next names (answer id) = do
    done ← ask (delete_transaction_status id)
    removed "transaction_status" "failed to invalidate transaction status cache" next names done

  abbrev invalidate_transaction : Option String → Next → Next
  invalidate_transaction none next names = next names
  invalidate_transaction (some id) next names = transaction_parsed next names (uuid_parse id)

  abbrev account_parsed : Next → List String → Reply Uuid → Handler (List String)
  account_parsed next names (error e) = refuse 400 "invalid account_id"
  account_parsed next names (answer id) = do
    done ← ask (delete_account_balance id)
    removed "account_balance" "failed to invalidate account balance cache" next names done

  abbrev invalidate_account : Option String → Next → Next
  invalidate_account none next names = next names
  invalidate_account (some id) next names = account_parsed next names (uuid_parse id)

  abbrev merchant_parsed : Next → List String → Reply Uuid → Handler (List String)
  merchant_parsed next names (error e) = refuse 400 "invalid merchant_id"
  merchant_parsed next names (answer id) = do
    done ← ask (delete_merchant id)
    removed "merchant" "failed to invalidate merchant cache" next names done

  abbrev invalidate_merchant : Option String → Next → Next
  invalidate_merchant none next names = next names
  invalidate_merchant (some id) next names = merchant_parsed next names (uuid_parse id)

  unfoldable pub invalidate_cache : CacheInvalidateRequest → Handler (List String)
  invalidate_cache input =
      if not (given input.merchant_id)
        && not (given input.account_id)
        && not (given input.transaction_id)
        && not (given input.session_token)
      then refuse 400 "at least one cache target must be provided"
      else invalidate_merchant input.merchant_id
          (invalidate_account input.account_id (
            invalidate_transaction input.transaction_id
              (invalidate_session input.session_token respond)))
          []
