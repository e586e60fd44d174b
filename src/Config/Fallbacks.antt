-- ===== src/Config/Fallbacks.antt =====
-- internal/config/config.go: the settings that have a default, and the connection of a host that
-- has no other names.
use dante_api_systems.Base.{◌≡◌, refl, false, String, str_eq, arith}
use dante_api_systems.Base.Int.{ℤ, pos}
use dante_api_systems.Config.{getenv, load, Readers, DatabaseConfig, dsn, external_dsn}

-- A setting whose default is not blank is not blank, whatever the environment holds.
getenv-filled :
    (environment : String → String)
    → (key fallback : String) → str_eq fallback "" ≡ false
    → str_eq (getenv environment key fallback) "" ≡ false
unfolding getenv
getenv-filled environment key fallback filled = ground arith

-- The loaded names of both queues are not blank.
load-queues_filled :
    (environment : String → String)
    → {F : Type 0} → (readers : Readers F)
    → (str_eq (load environment readers).rabbit_mq.qris_payments_queue "" ≡ false)
      × (str_eq (load environment readers).rabbit_mq.transfers_queue "" ≡ false)
unfolding load
load-queues_filled environment readers = (
  getenv-filled environment "RABBITMQ_QRIS_PAYMENTS_QUEUE" "dante.qris.payments" refl,
  getenv-filled environment "RABBITMQ_TRANSFERS_QUEUE" "dante.transfers" refl,
)

-- With no external host and port, host-side tools connect as the service does.
external_dsn-dsn :
    (format_int : ℤ → String)
    → (postgres_url : String → String → String → String → String → String) → (cfg : DatabaseConfig)
    → cfg.external_host ≡ ""
    → cfg.external_port ≡ pos 0
    → external_dsn format_int postgres_url cfg ≡ dsn format_int postgres_url cfg
unfolding external_dsn dsn
external_dsn-dsn format_int postgres_url cfg host port = cc
