-- ===== src/Queue/Worker/Tests.antt =====
-- A concrete run of a worker: its first session fails on the channel, the second one is cut off.
use dante_api_systems.Base.{ℕ, suc, ◌≡◌, refl, false, List, [], ◌∷◌, some, ◌==◌, if◌then◌else◌}
use dante_api_systems.Base.Int.{pos}
use dante_api_systems.Go.Errors.{failure}
use dante_api_systems.Go.Exec.{answer, error, ok, Env}
use dante_api_systems.Go.Trace.{total}
use dante_api_systems.Queue.Topology.{RabbitMqConfig, QueueNames}
use dante_api_systems.Queue.Worker.{
  Call, Response, timer, canceled, context_done, dial, open_channel, declare_topology, qos,
  start_consuming, deliveries, close_channel, close_connection, wait_reconnect, run_session,
  keep_alive, run_worker,
}
use dante_api_systems.Queue.Worker.Connections.{connected}

abbrev cfg : RabbitMqConfig
cfg = record {
  url = "amqp://broker";
  dial_timeout = pos 3;
  qris_payments_queue = "qris";
  transfers_queue = "transfers";
  max_retry_attempts = pos 3;
  retry_base_delay = pos 2;
  qris_workers = pos 1;
  transfer_workers = pos 1;
  prefetch_count = pos 1;
}

abbrev names : QueueNames
names = record { primary = "qris"; retry = "qris.retry"; dead_letter = "qris.dead" }

abbrev dials : List Call → ℕ
dials [] = 0
dials (dial ∷ h) = suc (dials h)
dials (_ ∷ h) = dials h

abbrev broker : Env Response
broker h context_done = false
broker h dial = answer tt
broker h open_channel = if dials h == 1 then error (failure "no channel") else answer tt
broker h (declare_topology q) = answer tt
broker h (qos n) = answer tt
broker h (start_consuming queue) = answer tt
broker h deliveries = error (failure "rabbitmq delivery channel closed")
broker h close_channel = answer tt
broker h close_connection = answer tt
broker h wait_reconnect = if dials h == 1 then timer else canceled

two_sessions :
    let (r, t) = run_worker cfg names 5 broker [] in
    (r ≡ ok (some (answer tt))) × (total connected broker t ≡ 2)
unfolding run_worker keep_alive run_session
two_sessions = (refl, refl)
