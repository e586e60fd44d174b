-- ===== src/Queue/Publisher.antt =====
-- internal/queue/publisher.go and declareQueueTopology of topology.go, over calls of the broker.
pub mod Sending
use dante_api_systems.Base.{ℕ, [], ◌∷◌, Option, none, String, str_eq, if◌then◌else◌}
use dante_api_systems.Base.Int.{ℤ, pos}
use dante_api_systems.Base.Dict.{insert}
use dante_api_systems.Go.Errors.{failure}
use dante_api_systems.Go.Exec.{Reply, Exec, ask, fail, or_wrap, annotate, ◌>>=◌, ◌>>◌}
use dante_api_systems.Queue.Topology.{
  RabbitMqConfig, int32_value, string_value, Table, QueueNames, header_retry_count,
  header_first_enqueued_at, qris_queue_name, transfers_queue_name, names_for_queue,
}

-- amqp.Publishing with the queue that it is routed to. The expiration is printed in decimal, and
-- is a number of milliseconds.
pub record Publishing : Type 0 where
  pub queue : String
  pub content_type : String
  pub content_encoding : String
  pub headers : Table
  pub body : String
  pub timestamp : ℕ
  pub expiration : Option ℤ

pub data Call : Type 0 where
  dial : String → Call
  open_channel : Call
  queue_declare : String → Table → Call
  now : Call
  publish : Publishing → Call

abbrev pub Response : Call → Type 0
Response now = ℕ
Response _ = Reply (Unit {0})

abbrev dead_letter_to : String → Table
dead_letter_to queue =
    ("x-dead-letter-exchange", string_value "")
    ∷ ("x-dead-letter-routing-key", string_value queue)
    ∷ []

pub declare_queue_topology : QueueNames → Exec Response (Unit {0})
declare_queue_topology names = do
  primary ← ask (queue_declare names.primary (dead_letter_to names.dead_letter))
  or_wrap "declare primary queue" primary
  retry ← ask (queue_declare names.retry (dead_letter_to names.primary))
  or_wrap "declare retry queue" retry
  dead_letter ← ask (queue_declare names.dead_letter [])
  or_wrap "declare dead-letter queue" dead_letter

-- `marshal` is encoding/json on the message, `format_time` the RFC 3339 layout.
module _ (format_time : ℕ → String) where
  abbrev pub enqueue : String → String → ℕ → Publishing
  enqueue queue body at = record {
    queue = queue;
    content_type = "application/json";
    content_encoding = "";
    headers =
        insert header_retry_count (int32_value (pos 0))
          (insert header_first_enqueued_at (string_value (format_time at)) []);
    body = body;
    timestamp = at;
    expiration = none;
  }

  abbrev publish_body : RabbitMqConfig → String → String → Exec Response (Unit {0})
  publish_body cfg queue body = do
    conn ← ask (dial cfg.url)
    or_wrap "dial rabbitmq" conn
    channel ← ask open_channel
    or_wrap "open rabbitmq channel" channel
    annotate "declare rabbitmq queue topology" (declare_queue_topology (names_for_queue queue))
    at ← ask now
    sent ← ask (publish (enqueue queue body at))
    or_wrap "publish queue message" sent

  pub publish_json : RabbitMqConfig → String → Reply String → Exec Response (Unit {0})
  publish_json cfg queue marshalled =
      if str_eq cfg.url ""
      then fail (failure "rabbitmq url is not configured")
      else do body ← or_wrap "marshal queue message" marshalled; publish_body cfg queue body

  module _ {Message : Type 0} (marshal : Message → Reply String) where
    pub publish_qris_payment : RabbitMqConfig → Message → Exec Response (Unit {0})
    publish_qris_payment cfg msg =
        annotate "publish qris payment message"
          (publish_json cfg (names_for_queue (qris_queue_name cfg)).primary (marshal msg))

    pub publish_transfer : RabbitMqConfig → Message → Exec Response (Unit {0})
    publish_transfer cfg msg =
        annotate "publish transfer message"
          (publish_json cfg (names_for_queue (transfers_queue_name cfg)).primary (marshal msg))
