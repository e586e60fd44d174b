-- ===== src/Queue/Tests.antt =====
-- Tests and concrete instances for the queues.
use dante_api_systems.Base.{some, ◌≡◌, refl, true, [], ◌∷◌, none, String, arith, length}
use dante_api_systems.Base.Int.{pos, negsuc}
use dante_api_systems.Base.Dict.{lookup}
use dante_api_systems.Go.Errors.{failure}
use dante_api_systems.Go.Exec.{Reply, answer, error, Env}
use dante_api_systems.Queue.Topology.{
  RabbitMqConfig, int32_value, int64_value, QueueNames, header_retry_count, names_for_queue,
  retry_delay_for_attempt,
}
use dante_api_systems.Queue.Topology.Delay.{retry_delay_lem}
use dante_api_systems.Queue.Messages.{Job, qris_payment}
use dante_api_systems.Queue.Publisher.{Publishing}
use dante_api_systems.Queue.Publisher
use dante_api_systems.Queue.Publisher.{publish_json, enqueue}
use dante_api_systems.Queue.Consumer.{
  Delivery, Formats, Response, receive, now, handle, observe_worker_lag, observe_retry, publish,
  ack, nack_requeue, reject, delivered, consume, retry_count_from_headers,
}
use dante_api_systems.Queue.Consumer.Settle.{Settled, consume_settles}
use dante_api_systems.Queue.Consumer.Retries.{rounds, sum_tried, sum_rejected, rounds_bounded}

abbrev defaults : RabbitMqConfig
defaults = record {
  url = "amqp://rabbitmq";
  dial_timeout = pos 0;
  qris_payments_queue = "";
  transfers_queue = "";
  max_retry_attempts = pos 0;
  retry_base_delay = negsuc 0;
  qris_workers = pos 1;
  transfer_workers = pos 1;
  prefetch_count = pos 1;
}

abbrev names : QueueNames
names = names_for_queue "dante.transfers"

abbrev formats : Formats
formats = record {
  atoi = λ s. none;
  format_time = λ t. "2024-05-01T00:00:00Z";
  parse_time = λ s. some 5;
}

abbrev job : Job
job = qris_payment (record {
  transaction_id = "t";
  account_uuid = "u";
  account_id = "a";
  account_number = "n";
  merchant_id = "m";
  merchant_code = "c";
  amount = pos 25000;
})

abbrev unmarshal : String → Reply Job
unmarshal s = answer job

abbrev first : Delivery
first = record {
  content_type = "application/json";
  content_encoding = "";
  headers = (header_retry_count, int32_value (pos 0)) ∷ [];
  body = "job";
}

-- The handler never succeeds; the broker takes everything.
abbrev failing : Env Response
failing h receive = delivered first
failing h now = 9
failing h (handle j) = error (failure "down")
failing h (observe_worker_lag queue lag) = tt
failing h (observe_retry queue attempt terminal) = tt
failing h (publish p) = answer tt
failing h ack = answer tt
failing h nack_requeue = answer tt
failing h reject = answer tt

abbrev returned : Publishing → Delivery
returned p = record {
  content_type = p.content_type;
  content_encoding = p.content_encoding;
  headers = p.headers;
  body = p.body;
}

retry_count-int64 :
    retry_count_from_headers formats ((header_retry_count, int64_value (pos 7)) ∷ []) ≡ pos 7
unfolding retry_count_from_headers lookup
retry_count-int64 = refl

-- The third delay of the defaults is eight seconds.
retry_delay_lem_example : retry_delay_for_attempt defaults (pos 3) ≡ pos 8000000000
retry_delay_lem_example = retry_delay_lem defaults 2 2000000000 refl (ground arith)

consume_settles_example :
    Settled failing 0 (consume formats defaults true names unmarshal 2 failing []).1
consume_settles_example = consume_settles formats defaults true names unmarshal failing 2

rounds_bounded_example :
    let ts = rounds formats defaults true names unmarshal failing returned 9 first in
    (length ts ≡ 4) × (sum_tried failing ts ≡ 4) × (sum_rejected failing ts ≡ 1)
unfolding lookup
rounds_bounded_example =
    rounds_bounded formats defaults true names unmarshal failing returned "job" job refl
      (λ h. failure "down") (λ h. refl) (λ h. refl) (λ h p. refl) (λ p. refl) (λ p. refl) 3 refl
      (ground arith) 3 0 9 first refl refl refl (ground arith)

-- The broker takes everything.
abbrev taking : Env Publisher.Response
taking h (Publisher.dial url) = answer tt
taking h Publisher.open_channel = answer tt
taking h (Publisher.queue_declare queue args) = answer tt
taking h Publisher.now = 9
taking h (Publisher.publish p) = answer tt
