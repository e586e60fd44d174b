-- ===== src/Queue/Monitor/Tests.antt =====
-- An inspection of two idle queues.
use dante_api_systems.Base.{◌≡◌, refl, [], ◌∷◌, none}
use dante_api_systems.Base.Int.{pos}
use dante_api_systems.Go.Exec.{answer, Env}
use dante_api_systems.Go.Trace.{total}
use dante_api_systems.Queue.Topology.{RabbitMqConfig}
use dante_api_systems.Queue.Monitor.{
  Response, dial, open_channel, declare_topology, queue_inspect, close_channel, close_connection,
  context_error, primaries, inspect_configured_queues, check_rabbit_mq,
}
use dante_api_systems.Queue.Monitor.Inspection.{
  CoversAll, connections, disconnections, channels, closed_channels, inspect_configured_queues-Tidy,
}

abbrev config : RabbitMqConfig
config = record {
  url = "amqp://broker";
  dial_timeout = pos 3000000000;
  qris_payments_queue = "";
  transfers_queue = "moves";
  max_retry_attempts = pos 3;
  retry_base_delay = pos 0;
  qris_workers = pos 1;
  transfer_workers = pos 1;
  prefetch_count = pos 1;
}

abbrev broker : Env Response
broker h dial = answer tt
broker h open_channel = answer tt
broker h (declare_topology names) = answer tt
broker h (queue_inspect name) = answer (record { name = name; messages = pos 0; consumers = pos 1 })
broker h context_error = none
broker h close_channel = answer tt
broker h close_connection = answer tt

inspect_configured_queues-Tidy_example :
    let (r, t) = inspect_configured_queues config broker [] in
    CoversAll (primaries config) [] r
    × (total connections broker t ≡ total disconnections broker t)
    × (total channels broker t ≡ total closed_channels broker t)
inspect_configured_queues-Tidy_example = inspect_configured_queues-Tidy config broker

run_check : (check_rabbit_mq config broker []).1 ≡ close_connection ∷ context_error ∷ dial ∷ []
unfolding check_rabbit_mq
run_check = refl
