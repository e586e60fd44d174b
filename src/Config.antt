-- ===== src/Config.antt =====
-- internal/config/config.go: the settings, read from the environment with their defaults. The
-- readers of strconv and time, and the URL of net/url, are parameters; `F` is float64.
pub mod Fallbacks
mod Tests
use dante_api_systems.Base.{
  ℕ, ◌+◌, ◌*◌, Bool, true, false, ◌&&◌, ◌||◌, not, String, str_eq, leb, ◌==◌, if◌then◌else◌,
}
use dante_api_systems.Base.Int.{ℤ, pos, eqb_ℤ}
use dante_api_systems.Go.Exec.{Reply, answer, error}
use dante_api_systems.Go.Strings.{trim_space}
use dante_api_systems.Queue.Topology.{RabbitMqConfig}
use Prim.Native.String.{◌++◌}
use Prim.Native.Char.{code}

pub record AppConfig : Type 0 where
  pub environment : String
  pub version : String
  pub port : String

pub record DatabaseConfig : Type 0 where
  pub host : String
  pub external_host : String
  pub port : ℤ
  pub external_port : ℤ
  pub user : String
  pub password : String
  pub name : String
  pub ssl_mode : String
  pub max_open_conns : ℤ
  pub max_idle_conns : ℤ
  pub conn_max_idle_time : ℤ
  pub conn_max_lifetime : ℤ

pub record RedisConfig : Type 0 where
  pub addr : String
  pub host : String
  pub port : ℤ
  pub password : String
  pub db : ℤ
  pub dial_timeout : ℤ
  pub read_timeout : ℤ
  pub write_timeout : ℤ
  pub pool_size : ℤ
  pub min_idle_conns : ℤ
  pub pool_timeout : ℤ
  pub conn_max_idle_time : ℤ
  pub conn_max_lifetime : ℤ

pub record LegacyConfig : Type 0 where
  pub bank_service_url : String
  pub timeout : ℤ

pub record ObservabilityConfig (F : Type 0) : Type 0 where
  pub service_name : String
  pub tracing_enabled : Bool
  pub jaeger_endpoint : String
  pub trace_sample_ratio : F

pub record Config (F : Type 0) : Type 0 where
  pub app : AppConfig
  pub database : DatabaseConfig
  pub redis : RedisConfig
  pub rabbit_mq : RabbitMqConfig
  pub legacy : LegacyConfig
  pub observability : ObservabilityConfig F

pub record Readers (F : Type 0) : Type 0 where
  pub atoi : String → Reply ℤ
  pub parse_bool : String → Reply Bool
  pub parse_float : String → Reply F
  pub parse_duration : String → Reply ℤ
  pub one : F

-- Nanoseconds.
abbrev seconds : ℕ → ℤ
seconds n = pos (n * 1000000000)

module _ (environment : String → String) where
  unfoldable pub getenv : String → String → String
  getenv key fallback =
      let value = trim_space (environment key) in if str_eq value "" then fallback else value

  abbrev or_fallback : {A : Type 0} → A → Reply A → A
  or_fallback fallback (answer value) = value
  or_fallback fallback (error e) = fallback

  -- What `getenvInt`, `getenvBool`, `getenvFloat` and `getenvDuration` do with their reader.
  unfoldable pub getenv_with : {A : Type 0} → (String → Reply A) → String → A → A
  getenv_with parse key fallback =
      let raw = trim_space (environment key) in
      if str_eq raw "" then fallback else or_fallback fallback (parse raw)

  module _ {F : Type 0} (readers : Readers F) where
    abbrev getenv_int : String → ℤ → ℤ
    getenv_int = getenv_with readers.atoi

    abbrev getenv_bool : String → Bool → Bool
    getenv_bool = getenv_with readers.parse_bool

    abbrev getenv_float : String → F → F
    getenv_float = getenv_with readers.parse_float

    abbrev getenv_duration : String → ℤ → ℤ
    getenv_duration = getenv_with readers.parse_duration

    unfoldable pub load : Config F
    load = record {
      app = record {
        environment = getenv "APP_ENV" "production";
        version = getenv "APP_VERSION" "0.1.0";
        port = getenv "APP_PORT" "8080";
      };
      redis = record {
        addr = getenv "REDIS_ADDR" "";
        host = getenv "REDIS_HOST" "localhost";
        port = getenv_int "REDIS_PORT" (pos 6379);
        password = environment "REDIS_PASSWORD";
        db = getenv_int "REDIS_DB" (pos 0);
        dial_timeout = getenv_duration "REDIS_DIAL_TIMEOUT" (seconds 5);
        read_timeout = getenv_duration "REDIS_READ_TIMEOUT" (seconds 3);
        write_timeout = getenv_duration "REDIS_WRITE_TIMEOUT" (seconds 3);
        pool_size = getenv_int "REDIS_POOL_SIZE" (pos 10);
        min_idle_conns = getenv_int "REDIS_MIN_IDLE_CONNS" (pos 5);
        pool_timeout = getenv_duration "REDIS_POOL_TIMEOUT" (seconds 4);
        conn_max_idle_time = getenv_duration "REDIS_CONN_MAX_IDLE_TIME" (seconds 300);
        conn_max_lifetime = getenv_duration "REDIS_CONN_MAX_LIFETIME" (seconds 1800);
      };
      rabbit_mq = record {
        url = getenv "RABBITMQ_URL" "";
        dial_timeout = getenv_duration "RABBITMQ_DIAL_TIMEOUT" (seconds 3);
        qris_payments_queue = getenv "RABBITMQ_QRIS_PAYMENTS_QUEUE" "dante.qris.payments";
        transfers_queue = getenv "RABBITMQ_TRANSFERS_QUEUE" "dante.transfers";
        max_retry_attempts = getenv_int "RABBITMQ_MAX_RETRY_ATTEMPTS" (pos 3);
        retry_base_delay = getenv_duration "RABBITMQ_RETRY_BASE_DELAY" (seconds 2);
        qris_workers = getenv_int "RABBITMQ_QRIS_WORKERS" (pos 1);
        transfer_workers = getenv_int "RABBITMQ_TRANSFER_WORKERS" (pos 1);
        prefetch_count = getenv_int "RABBITMQ_PREFETCH_COUNT" (pos 1);
      };
      database = record {
        host = getenv "DB_HOST" "localhost";
        external_host = getenv "DB_HOST_EXTERNAL" "";
        port = getenv_int "DB_PORT" (pos 5432);
        external_port = getenv_int "DB_PORT_EXTERNAL" (pos 0);
        user = getenv "DB_USER" "postgres";
        password = environment "DB_PASS";
        name = getenv "DB_NAME" "postgres";
        ssl_mode = getenv "DB_SSLMODE" "disable";
        max_open_conns = getenv_int "DB_MAX_OPEN_CONNS" (pos 25);
        max_idle_conns = getenv_int "DB_MAX_IDLE_CONNS" (pos 25);
        conn_max_idle_time = getenv_duration "DB_CONN_MAX_IDLE_TIME" (seconds 300);
        conn_max_lifetime = getenv_duration "DB_CONN_MAX_LIFETIME" (seconds 1800);
      };
      legacy = record {
        bank_service_url = getenv "LEGACY_BANKSERVICE_URL" "";
        timeout = getenv_duration "LEGACY_TIMEOUT" (seconds 5);
      };
      observability = record {
        service_name = getenv "OTEL_SERVICE_NAME" "dante-api-systems";
        tracing_enabled = getenv_bool "TRACING_ENABLED" true;
        jaeger_endpoint = getenv "JAEGER_OTLP_ENDPOINT" "jaeger:4318";
        trace_sample_ratio = getenv_float "TRACE_SAMPLE_RATIO" readers.one;
      };
    }

-- `unicode.ToLower` where its result is ASCII; elsewhere the character stands for it.
abbrev lower_code : ℕ → ℕ
lower_code c =
    if leb 65 c && leb c 90
    then c + 32
    else (if c == 0x130 then 105 else (if c == 0x212a then 107 else c))

-- Whether the text in small letters is `t`, a text of ASCII characters.
unfoldable pub lower_is : String → String → Bool
lower_is String.[] String.[] = true
lower_is String.[] (String.◌∷◌ d t) = false
lower_is (String.◌∷◌ c s) String.[] = false
lower_is (String.◌∷◌ c s) (String.◌∷◌ d t) = lower_code (code c) == code d && lower_is s t

unfoldable pub is_development : AppConfig → Bool
is_development cfg =
    let environment = trim_space cfg.environment in
    lower_is environment "development" || lower_is environment "dev" || lower_is environment "local"

-- `format_int` prints a number for `%d`; `postgres_url` is the text of a URL with the scheme postgres
-- for a user, a password, a host with its port, a path and the mode of TLS.
module _ (format_int : ℤ → String)
    (postgres_url : String → String → String → String → String → String) where
  abbrev host_port : String → ℤ → String
  host_port host port = host ++ (":" ++ format_int port)

  abbrev dsn_for : DatabaseConfig → String → ℤ → String
  dsn_for cfg host port =
      postgres_url cfg.user cfg.password (host_port host port) cfg.name cfg.ssl_mode

  unfoldable pub dsn : DatabaseConfig → String
  dsn cfg = dsn_for cfg cfg.host cfg.port

  unfoldable pub external_dsn : DatabaseConfig → String
  external_dsn cfg =
      dsn_for cfg (if str_eq cfg.external_host "" then cfg.host else cfg.external_host)
        (if eqb_ℤ cfg.external_port (pos 0) then cfg.port else cfg.external_port)

  unfoldable pub address : RedisConfig → String
  address cfg =
      if str_eq (trim_space cfg.addr) "" then host_port cfg.host cfg.port else trim_space cfg.addr

abbrev pub enabled : LegacyConfig → Bool
enabled cfg = not (str_eq (trim_space cfg.bank_service_url) "")
