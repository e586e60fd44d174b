-- ===== src/Observability/Metrics/Collectors.antt =====
-- internal/observability/metrics/handler.go: what a scrape reads of the pools, the caches, the broker
-- and the database. `F` is float64.
use dante_api_systems.Base.{Bool, true, false, List, [], ◌∷◌, ◌++◌, String, if◌then◌else◌}
use dante_api_systems.Base.Int.{ℤ, pos}
use dante_api_systems.Go.Exec.{Reply, answer, error}
use dante_api_systems.Models.{GetTransactionStateCountsRow, GetLegacyCallMetricsRow}
use dante_api_systems.Queue.Monitor.{QueueStats}
use dante_api_systems.Observability.Counters.{SnapshotEntry}

pub data Kind : Type 0 where
  counter_value : Kind
  gauge_value : Kind

-- A metric that a collector sends.
pub record Sample (F : Type 0) : Type 0 where
  pub name : String
  pub kind : Kind
  pub value : F
  pub labels : List String

-- sql.DBStats and redis.PoolStats, as far as they are read.
pub record DbStats : Type 0 where
  pub open_connections : ℤ
  pub in_use : ℤ
  pub idle : ℤ
  pub wait_count : ℤ
  pub wait_duration : ℤ
  pub max_idle_closed : ℤ
  pub max_idle_time_closed : ℤ
  pub max_lifetime_closed : ℤ

pub record PoolStats : Type 0 where
  pub hits : ℤ
  pub misses : ℤ
  pub timeouts : ℤ
  pub total_conns : ℤ
  pub idle_conns : ℤ
  pub stale_conns : ℤ

-- `new_const_metric` says whether the client takes a sample, and `float` converts an integer.
module _ {F : Type 0} (float : ℤ → F) (new_const_metric : Sample F → Bool) where
  abbrev sent : Sample F → List (Sample F)
  sent s = if new_const_metric s then s ∷ [] else []

  unfoldable pub collect_cache : List SnapshotEntry → List (Sample F)
  collect_cache [] = []
  collect_cache (entry ∷ entries) =
      sent (record {
        name = entry.name;
        kind = counter_value;
        value = float (pos entry.value);
        labels = [];
      })
      ++ collect_cache entries

  abbrev gauge : String → ℤ → List String → Sample F
  gauge name value labels = record {
    name = name;
    kind = gauge_value;
    value = float value;
    labels = labels;
  }

  unfoldable pub collect_queues : List QueueStats → List (Sample F)
  collect_queues [] = []
  collect_queues (entry ∷ entries) =
      sent (gauge "dante_rabbitmq_queue_messages" entry.messages (entry.name ∷ []))
      ++ (sent (gauge "dante_rabbitmq_queue_consumers" entry.consumers (entry.name ∷ []))
          ++ collect_queues entries)

  abbrev counter : String → F → Sample F
  counter name value = record { name = name; kind = counter_value; value = value; labels = [] }

  -- What the functions of the registered metrics give at a scrape; `seconds` converts a duration.
  unfoldable pub database_samples : (ℤ → F) → DbStats → List (Sample F)
  database_samples seconds stats =
      gauge "dante_db_open_connections" stats.open_connections []
      ∷ gauge "dante_db_in_use_connections" stats.in_use []
      ∷ gauge "dante_db_idle_connections" stats.idle []
      ∷ counter "dante_db_wait_count_total" (float stats.wait_count)
      ∷ counter "dante_db_wait_duration_seconds_total" (seconds stats.wait_duration)
      ∷ counter "dante_db_max_idle_closed_total" (float stats.max_idle_closed)
      ∷ counter "dante_db_max_idle_time_closed_total" (float stats.max_idle_time_closed)
      ∷ counter "dante_db_max_lifetime_closed_total" (float stats.max_lifetime_closed)
      ∷ []

  unfoldable pub redis_samples : PoolStats → List (Sample F)
  redis_samples stats =
      counter "dante_redis_pool_hits_total" (float stats.hits)
      ∷ counter "dante_redis_pool_misses_total" (float stats.misses)
      ∷ counter "dante_redis_pool_timeouts_total" (float stats.timeouts)
      ∷ gauge "dante_redis_pool_total_connections" stats.total_conns []
      ∷ gauge "dante_redis_pool_idle_connections" stats.idle_conns []
      ∷ gauge "dante_redis_pool_stale_connections" stats.stale_conns []
      ∷ []

  -- An error of the inspection sends nothing.
  abbrev pub collect_rabbit_mq : Reply (List QueueStats) → List (Sample F)
  collect_rabbit_mq (error e) = []
  collect_rabbit_mq (answer stats) = collect_queues stats

  abbrev format_bool : Bool → String
  format_bool true = "true"
  format_bool false = "false"

  abbrev legacy_labels : GetLegacyCallMetricsRow → List String
  legacy_labels row = row.endpoint ∷ format_bool row.success ∷ []

  unfoldable pub legacy_samples : List GetLegacyCallMetricsRow → List (Sample F)
  legacy_samples [] = []
  legacy_samples (row ∷ rows) =
      sent
        (gauge "dante_legacy_call_avg_latency_milliseconds" row.avg_latency_ms (legacy_labels row))
      ++ (sent (gauge "dante_legacy_call_total" row.calls_total (legacy_labels row))
          ++ legacy_samples rows)

  unfoldable pub state_samples : List GetTransactionStateCountsRow → List (Sample F)
  state_samples [] = []
  state_samples (row ∷ rows) =
      sent (gauge "dante_transactions_by_state" row.transactions_total (row.status ∷ []))
      ++ state_samples rows

  abbrev or_nothing : {A : Type 0} → (A → List (Sample F)) → Reply A → List (Sample F)
  or_nothing samples (answer rows) = samples rows
  or_nothing samples (error e) = []

  -- An error of one query leaves the samples of the other.
  unfoldable pub collect_sqlc :
      Reply (List GetLegacyCallMetricsRow)
      → Reply (List GetTransactionStateCountsRow)
      → List (Sample F)
  collect_sqlc legacy states = or_nothing legacy_samples legacy ++ or_nothing state_samples states
