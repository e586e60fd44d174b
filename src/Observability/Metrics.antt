-- ===== src/Observability/Metrics.antt =====
-- internal/observability/metrics/handler.go: the metrics of the service, their registration and
-- their updates, as what is handed to the Prometheus client.
pub mod Collectors
pub mod Registration
pub mod States
use dante_api_systems.Base.{
  ℕ, Bool, true, false, not, List, [], ◌∷◌, ◌++◌, String, str_eq, if◌then◌else◌,
}
use dante_api_systems.Base.Int.{ℤ}
use dante_api_systems.Queue.Topology.{RabbitMqConfig}

-- The name of a metric as its options give it, its labels, and the upper bounds of a histogram in
-- thousandths of a second.
pub record Opts : Type 0 where
  pub namespace : String
  pub subsystem : String
  pub name : String
  pub labels : List String
  pub buckets : List ℕ

abbrev plain : String → List String → Opts
plain name labels = record {
  namespace = "";
  subsystem = "";
  name = name;
  labels = labels;
  buckets = [];
}

abbrev of_dante : String → String → List String → Opts
of_dante subsystem name labels = record {
  namespace = "dante";
  subsystem = subsystem;
  name = name;
  labels = labels;
  buckets = [];
}

-- What is registered: the collectors of the client itself, a metric, or one of the three unchecked
-- collectors.
pub data Collector : Type 0 where
  go_collector : Collector
  process_collector : Collector
  metric : Opts → Collector
  sqlc_collector : Collector
  rabbit_mq_collector : Collector
  cache_collector : Collector

abbrev pub http_requests_total : Opts
http_requests_total = of_dante "http" "requests_total" ("method" ∷ "path" ∷ "status_code" ∷ [])

abbrev pub http_request_duration : Opts
http_request_duration =
    record (of_dante "http" "request_duration_seconds" ("method" ∷ "path" ∷ [])) {
      buckets = 5 ∷ 10 ∷ 25 ∷ 50 ∷ 100 ∷ 200 ∷ 500 ∷ 1000 ∷ 2500 ∷ 5000 ∷ [];
    }

abbrev pub http_requests_in_flight : Opts
http_requests_in_flight = of_dante "http" "requests_in_flight" []

abbrev pub worker_lag_seconds : Opts
worker_lag_seconds = record (of_dante "worker" "message_lag_seconds" ("queue" ∷ [])) {
  buckets = 10 ∷ 50 ∷ 100 ∷ 250 ∷ 500 ∷ 1000 ∷ 2500 ∷ 5000 ∷ 15000 ∷ 30000 ∷ 60000 ∷ [];
}

abbrev pub worker_retries_total : Opts
worker_retries_total = of_dante "worker" "retries_total" ("queue" ∷ "outcome" ∷ [])

abbrev database_stats : Bool → List Collector
database_stats false = []
database_stats true =
    metric (plain "dante_db_open_connections" [])
    ∷ metric (plain "dante_db_in_use_connections" [])
    ∷ metric (plain "dante_db_idle_connections" [])
    ∷ metric (plain "dante_db_wait_count_total" [])
    ∷ metric (plain "dante_db_wait_duration_seconds_total" [])
    ∷ metric (plain "dante_db_max_idle_closed_total" [])
    ∷ metric (plain "dante_db_max_idle_time_closed_total" [])
    ∷ metric (plain "dante_db_max_lifetime_closed_total" [])
    ∷ []

abbrev redis_stats : Bool → List Collector
redis_stats false = []
redis_stats true =
    metric (plain "dante_redis_pool_hits_total" [])
    ∷ metric (plain "dante_redis_pool_misses_total" [])
    ∷ metric (plain "dante_redis_pool_timeouts_total" [])
    ∷ metric (plain "dante_redis_pool_total_connections" [])
    ∷ metric (plain "dante_redis_pool_idle_connections" [])
    ∷ metric (plain "dante_redis_pool_stale_connections" [])
    ∷ []

abbrev own_metrics : List Collector
own_metrics =
    metric (plain "dante_build_info" ("service" ∷ "version" ∷ "environment" ∷ []))
    ∷ metric (plain "dante_process_uptime_seconds" [])
    ∷ metric http_requests_total
    ∷ metric http_request_duration
    ∷ metric http_requests_in_flight
    ∷ metric worker_lag_seconds
    ∷ metric worker_retries_total
    ∷ []

abbrev when : Bool → Collector → List Collector
when true c = c ∷ []
when false c = []

abbrev pub registered : Bool → Bool → Bool → Bool → List Collector
registered has_cache has_db has_redis has_broker =
    go_collector
    ∷ process_collector
    ∷ (own_metrics
        ++ (database_stats has_db
            ++ (redis_stats has_redis
                ++ (when has_db sqlc_collector
                    ++ (when has_broker rabbit_mq_collector ++ when has_cache cache_collector)))))

-- What `NewHandler` registers, in its order.
unfoldable pub new_handler : Bool → Bool → Bool → RabbitMqConfig → List Collector
new_handler has_cache has_db has_redis rabbitmq =
    registered has_cache has_db has_redis (not (str_eq rabbitmq.url ""))

-- What the methods of the handler ask of the client: the values of the labels, and the value.
pub data Update : Type 0 where
  increment : Opts → List String → Update
  decrement : Opts → List String → Update
  observe_duration : Opts → List String → ℤ → Update

abbrev pub inc_http_in_flight : List Update
inc_http_in_flight = increment http_requests_in_flight [] ∷ []

abbrev pub dec_http_in_flight : List Update
dec_http_in_flight = decrement http_requests_in_flight [] ∷ []

-- `itoa` is strconv.Itoa.
abbrev pub observe_http_request : (ℤ → String) → String → String → ℤ → ℤ → List Update
observe_http_request itoa method path status_code duration =
    increment http_requests_total (method ∷ path ∷ itoa status_code ∷ [])
    ∷ observe_duration http_request_duration (method ∷ path ∷ []) duration
    ∷ []

abbrev pub observe_worker_lag : String → ℤ → List Update
observe_worker_lag queue_name lag = observe_duration worker_lag_seconds (queue_name ∷ []) lag ∷ []

abbrev pub observe_retry : String → Bool → List Update
observe_retry queue_name terminal =
    increment worker_retries_total (queue_name ∷ (if terminal then "dead_letter" else "retry") ∷ [])
    ∷ []
