-- ===== src/Queue/Consumer.antt =====
-- internal/queue/consumer.go: what one consumer does with each delivery. The handler of a job,
-- the clock, the metrics observer and the broker are reached by calls.
pub mod Headers
pub mod Settle
pub mod Retries
use dante_api_systems.Base.{
  ℕ, zero, suc, ◌/◌, Bool, true, false, Option, none, some, String, if◌then◌else◌,
}
use dante_api_systems.Base.Int.{ℤ, pos, negsuc, sub_ℕ, leb_ℤ, ◌+ℤ◌, wrap32, wrap64}
use dante_api_systems.Base.Dict.{lookup, insert}
use dante_api_systems.Go.Errors.{Error, syntax_error, type_error, failure}
use dante_api_systems.Go.Exec.{Reply, answer, error, Exec, ask, pure, ◌>>=◌, ◌>>◌}
use dante_api_systems.Queue.Topology.{
  RabbitMqConfig, Value, int32_value, int64_value, int_value, string_value, Table, QueueNames,
  header_retry_count, header_first_enqueued_at, max_retry_attempts, retry_delay_for_attempt,
}
use dante_api_systems.Queue.Publisher.{Publishing}
use dante_api_systems.Queue.Messages.{Job}

-- What the consumer reads of an amqp.Delivery.
pub record Delivery : Type 0 where
  pub content_type : String
  pub content_encoding : String
  pub headers : Table
  pub body : String

-- What the select statement of the session receives.
pub data Incoming : Type 0 where
  cancelled : Incoming
  closed : Incoming
  delivered : Delivery → Incoming

pub data Call : Type 0 where
  receive : Call
  now : Call
  handle : Job → Call
  observe_worker_lag : String → ℤ → Call
  observe_retry : String → ℤ → Bool → Call
  publish : Publishing → Call
  ack : Call
  nack_requeue : Call
  reject : Call

abbrev pub Response : Call → Type 0
Response receive = Incoming
Response now = ℕ
Response (observe_worker_lag queue lag) = Unit {0}
Response (observe_retry queue attempt terminal) = Unit {0}
Response _ = Reply (Unit {0})

abbrev pub Action : Type 0 → Type 0
Action A = Exec Response A

abbrev unit : Action (Unit {0})
unit = pure tt

-- `_ = delivery.Reject(false)` and the like: the error is dropped.
abbrev ignore : Reply (Unit {0}) → Action (Unit {0})
ignore r = unit

abbrev count_of : Option Value → (String → Option ℤ) → ℤ
count_of (some (int32_value n)) atoi = n
count_of (some (int64_value n)) atoi = n
count_of (some (int_value n)) atoi = n
count_of (some (string_value s)) atoi = elim (atoi s) [ some n ↦ n | none ↦ pos 0 ]
count_of _ atoi = pos 0

abbrev text_of : Option Value → Option String
text_of (some (string_value s)) = some s
text_of _ = none

-- The type assertions see the error itself, not what it wraps.
abbrev pub is_decode_error : Error → Bool
is_decode_error syntax_error = true
is_decode_error type_error = true
is_decode_error _ = false

-- The standard library's conversions: strconv.Atoi and the RFC 3339 layout.
pub record Formats : Type 0 where
  pub atoi : String → Option ℤ
  pub format_time : ℕ → String
  pub parse_time : String → Option ℕ

module _ (formats : Formats) where
  open formats use {atoi, format_time, parse_time}

  unfoldable pub retry_count_from_headers : Table → ℤ
  retry_count_from_headers headers = count_of (lookup header_retry_count headers) atoi

  abbrev enqueued_at : Option String → Option ℕ
  enqueued_at (some s) = parse_time s
  enqueued_at none = none

  -- When the message was first enqueued, if the headers say so.
  unfoldable pub first_enqueued : Table → Option ℕ
  first_enqueued headers = enqueued_at (text_of (lookup header_first_enqueued_at headers))

  -- The headers of the copy that `publishRetry` sends; `at` is read only where no time is kept.
  abbrev counted : ℤ → Table → Table
  counted attempt headers = insert header_retry_count (int32_value (wrap32 attempt)) headers

  abbrev stamped : ℕ → Table → Table
  stamped at headers = insert header_first_enqueued_at (string_value (format_time at)) headers

  -- `Milliseconds()` drops the part below a millisecond, towards zero.
  abbrev milliseconds : ℤ → ℤ
  milliseconds (pos n) = pos (n / 1000000)
  milliseconds (negsuc n) = sub_ℕ 0 (suc n / 1000000)

  -- `observed` says whether the consumer has an observer.
  module _ (cfg : RabbitMqConfig) (observed : Bool) (names : QueueNames) where
    abbrev lag_since : ℕ → ℕ → ℤ
    lag_since first at = if leb_ℤ (pos 0) (sub_ℕ at first) then sub_ℕ at first else pos 0

    -- `messageLag`, which reads the clock only after a time that parses, and its report.
    abbrev report_lag : ℤ → Action (Unit {0})
    report_lag lag = if leb_ℤ lag (pos 0) then unit else ask (observe_worker_lag names.primary lag)

    abbrev observe_lag_since : Option ℕ → Action (Unit {0})
    observe_lag_since none = unit
    observe_lag_since (some first) = do at ← ask now; report_lag (lag_since first at)

    pub observe_lag : Delivery → Action (Unit {0})
    observe_lag d = if observed then observe_lag_since (first_enqueued d.headers) else unit

    abbrev report_retry : ℤ → Bool → Action (Unit {0})
    report_retry attempt terminal =
        if observed then ask (observe_retry names.primary attempt terminal) else unit

    abbrev copy : Delivery → ℤ → Table → ℕ → Publishing
    copy d attempt headers timestamp = record {
      queue = names.retry;
      content_type = d.content_type;
      content_encoding = d.content_encoding;
      headers = headers;
      body = d.body;
      timestamp = timestamp;
      expiration = some (milliseconds (retry_delay_for_attempt cfg attempt));
    }

    abbrev with_first_enqueued : Option Value → Table → Action Table
    with_first_enqueued (some v) headers = pure headers
    with_first_enqueued none headers = do at ← ask now; pure (stamped at headers)

    pub publish_retry : Delivery → ℤ → Action (Reply (Unit {0}))
    publish_retry d attempt = do
      let headers = counted attempt d.headers
      headers' ← with_first_enqueued (lookup header_first_enqueued_at headers) headers
      timestamp ← ask now
      ask (publish (copy d attempt headers' timestamp))

    abbrev settle_retry : ℤ → Reply (Unit {0}) → Action (Unit {0})
    settle_retry attempt (error e) = do sent ← ask nack_requeue; ignore sent
    settle_retry attempt (answer u) = do report_retry attempt false; sent ← ask ack; ignore sent

    abbrev dead_letter : ℤ → Action (Unit {0})
    dead_letter attempt = do report_retry attempt true; sent ← ask reject; ignore sent

    abbrev retry_or_dead_letter : Delivery → ℤ → Action (Unit {0})
    retry_or_dead_letter d attempt =
        if leb_ℤ attempt (max_retry_attempts cfg)
        then (do published ← publish_retry d attempt; settle_retry attempt published)
        else dead_letter attempt

    abbrev settle_ack : Reply (Unit {0}) → Action (Unit {0})
    settle_ack (answer u) = unit
    settle_ack (error e) = do sent ← ask reject; ignore sent

    pub settle : Delivery → Reply (Unit {0}) → Action (Unit {0})
    settle d (answer u) = do acked ← ask ack; settle_ack acked
    settle d (error e) =
        if is_decode_error e
        then dead_letter (retry_count_from_headers d.headers)
        else retry_or_dead_letter d (wrap64 (retry_count_from_headers d.headers +ℤ pos 1))

    -- The closure of `runQRISPaymentSession` and `runTransferSession`.
    module _ (unmarshal : String → Reply Job) where
      abbrev handle_decoded : Reply Job → Action (Reply (Unit {0}))
      handle_decoded (answer msg) = ask (handle msg)
      handle_decoded (error e) = pure (error e)

      -- One round of the session's loop, for a delivery.
      pub process_delivery : Delivery → Action (Unit {0})
      process_delivery d = do
        observe_lag d
        handled ← handle_decoded (unmarshal d.body)
        settle d handled

      -- The loop of `runSession`, for as many rounds as `fuel`; none if it is still running.
      pub consume : ℕ → Action (Option (Reply (Unit {0})))
      consume zero = pure none
      consume (suc fuel) = do
        incoming ← ask receive
        elim incoming [
          | cancelled ↦ pure (some (answer tt))
          | closed ↦ pure (some (error (failure "rabbitmq delivery channel closed")))
          | delivered d ↦ do process_delivery d; consume fuel
        ]
