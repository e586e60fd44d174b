-- ===== src/Queue/Topology.antt =====
-- internal/queue/topology.go: names, limits and delays, with their defaults.
pub mod Delay
use dante_api_systems.Base.{ℕ, zero, suc, ◌-◌, String, if◌then◌else◌, str_eq}
use dante_api_systems.Base.Int.{ℤ, pos, negsuc, leb_ℤ, ◌+ℤ◌, wrap64}
use dante_api_systems.Base.Dict.{Dict}
use Prim.Native.String.{◌++◌}

-- config.RabbitMQConfig
pub record RabbitMqConfig : Type 0 where
  pub url : String
  pub dial_timeout : ℤ
  pub qris_payments_queue : String
  pub transfers_queue : String
  pub max_retry_attempts : ℤ
  pub retry_base_delay : ℤ
  pub qris_workers : ℤ
  pub transfer_workers : ℤ
  pub prefetch_count : ℤ

-- A value of an amqp.Table, by its dynamic type.
pub data Value : Type 0 where
  int32_value : ℤ → Value
  int64_value : ℤ → Value
  int_value : ℤ → Value
  string_value : String → Value
  other_value : Value

-- A nil table and an empty one read alike.
abbrev pub Table : Type 0
Table = Dict Value

abbrev pub header_retry_count : String
header_retry_count = "x-retry-count"

abbrev pub header_first_enqueued_at : String
header_first_enqueued_at = "x-first-enqueued-at"

pub record QueueNames : Type 0 where
  pub primary : String
  pub retry : String
  pub dead_letter : String

abbrev pub qris_queue_name : RabbitMqConfig → String
qris_queue_name cfg =
    if str_eq cfg.qris_payments_queue "" then "dante.qris.payments" else cfg.qris_payments_queue

abbrev pub transfers_queue_name : RabbitMqConfig → String
transfers_queue_name cfg =
    if str_eq cfg.transfers_queue "" then "dante.transfers" else cfg.transfers_queue

abbrev pub names_for_queue : String → QueueNames
names_for_queue primary = record {
  primary = primary;
  retry = primary ++ ".retry";
  dead_letter = primary ++ ".dlq";
}

-- `value` if it is positive, else `fallback`.
abbrev positive_or : ℤ → ℤ → ℤ
positive_or value fallback = if leb_ℤ value (pos 0) then fallback else value

abbrev pub max_retry_attempts : RabbitMqConfig → ℤ
max_retry_attempts cfg = positive_or cfg.max_retry_attempts (pos 3)

abbrev pub retry_base_delay : RabbitMqConfig → ℤ
retry_base_delay cfg = positive_or cfg.retry_base_delay (pos 2000000000)

abbrev pub prefetch_count : RabbitMqConfig → ℤ
prefetch_count cfg = positive_or cfg.prefetch_count (pos 1)

-- `for i := 1; i < attempt; i++ { delay *= 2 }` on an int64, by the rounds left.
pub double : ℕ → ℤ → ℤ
double zero delay = delay
double (suc rounds) delay = double rounds (wrap64 (delay +ℤ delay))

abbrev rounds_before : ℤ → ℕ
rounds_before (pos n) = n - 1
rounds_before (negsuc n) = 0

pub retry_delay_for_attempt : RabbitMqConfig → ℤ → ℤ
retry_delay_for_attempt cfg attempt =
    if leb_ℤ attempt (pos 1)
    then retry_base_delay cfg
    else double (rounds_before attempt) (retry_base_delay cfg)
