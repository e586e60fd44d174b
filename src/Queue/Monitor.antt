-- ===== src/Queue/Monitor.antt =====
-- internal/queue/rabbitmq.go: the probes of the broker. The broker's client, amqp091-go, is reached
-- by calls.
pub mod Inspection
mod Tests
use dante_api_systems.Base.{Bool, List, [], ◌∷◌, Option, none, some, String, str_eq, if◌then◌else◌}
use dante_api_systems.Base.Int.{ℤ}
use dante_api_systems.Base.Dict.{Dict, insert}
use dante_api_systems.Go.Errors.{Error, failure, wrap}
use dante_api_systems.Go.Exec.{Reply, answer, error, Exec, ask, pure, fail, ◌>>=◌}
use dante_api_systems.Queue.Topology.{
  RabbitMqConfig, QueueNames, names_for_queue, qris_queue_name, transfers_queue_name,
}
use Prim.Native.String.{◌++◌}

pub record QueueStats : Type 0 where
  pub name : String
  pub messages : ℤ
  pub consumers : ℤ

-- `context_error` is the error of a context that is done.
pub data Call : Type 0 where
  dial : Call
  open_channel : Call
  declare_topology : QueueNames → Call
  queue_inspect : String → Call
  context_error : Call
  close_channel : Call
  close_connection : Call

abbrev pub Response : Call → Type 0
Response (queue_inspect name) = Reply QueueStats
Response context_error = Option Error
Response _ = Reply (Unit {0})

abbrev pub Action : Type 0 → Type 0
Action A = Exec Response A

-- A deferred call, made however the action ends; its error is dropped.
abbrev deferring : {A : Type 0} → Call → Action A → Action A
deferring c m env h = let (r, t) = m env h in (r, c ∷ t)

abbrev unless_done : Option Error → Action (Unit {0})
unless_done none = pure tt
unless_done (some e) = fail e

abbrev reached : Reply (Unit {0}) → Action (Unit {0})
reached (error e) = fail (wrap "dial rabbitmq" e)
reached (answer u) = deferring close_connection (do done ← ask context_error; unless_done done)

-- `CheckRabbitMQ`
unfoldable pub check_rabbit_mq : RabbitMqConfig → Action (Unit {0})
check_rabbit_mq cfg =
    if str_eq cfg.url ""
    then fail (failure "rabbitmq url is not configured")
    else (do connection ← ask dial; reached connection)

-- The two loops of InspectConfiguredQueues.
abbrev inspected :
    (Dict QueueStats → Action (Dict QueueStats))
    → String
    → Dict QueueStats
    → Reply QueueStats
    → Action (Dict QueueStats)
inspected again name stats (error e) = fail (wrap ("inspect queue " ++ name) e)
inspected again name stats (answer q) = again (insert name q stats)

unfoldable pub inspect_names : List String → Dict QueueStats → Action (Dict QueueStats)
inspect_names [] stats = pure stats
inspect_names (name ∷ names) stats =
    let again = inspect_names names in
    (do q ← ask (queue_inspect name); inspected again name stats q)

abbrev pub all_names : QueueNames → List String
all_names names = names.primary ∷ names.retry ∷ names.dead_letter ∷ []

abbrev declared :
    (Dict QueueStats → Action (Dict QueueStats))
    → QueueNames
    → Dict QueueStats
    → Reply (Unit {0})
    → Action (Dict QueueStats)
declared again names stats (error e) = fail e
declared again names stats (answer u) = do
  known ← inspect_names (all_names names) stats
  again known

unfoldable pub inspect_queues : List String → Dict QueueStats → Action (Dict QueueStats)
inspect_queues [] stats = pure stats
inspect_queues (primary ∷ primaries) stats =
    let again = inspect_queues primaries in
    let names = names_for_queue primary in
    (do made ← ask (declare_topology names); declared again names stats made)

module _ (cfg : RabbitMqConfig) where
  abbrev pub primaries : List String
  primaries = qris_queue_name cfg ∷ transfers_queue_name cfg ∷ []

  abbrev opened : Reply (Unit {0}) → Action (Dict QueueStats)
  opened (error e) = fail (wrap "open rabbitmq channel" e)
  opened (answer u) = deferring close_channel (inspect_queues primaries [])

  abbrev dialled : Reply (Unit {0}) → Action (Dict QueueStats)
  dialled (error e) = fail (wrap "dial rabbitmq" e)
  dialled (answer u) = deferring close_connection (do channel ← ask open_channel; opened channel)

  -- `InspectConfiguredQueues`
  unfoldable pub inspect_configured_queues : Action (Dict QueueStats)
  inspect_configured_queues =
      if str_eq cfg.url ""
      then fail (failure "rabbitmq url is not configured")
      else (do connection ← ask dial; dialled connection)
