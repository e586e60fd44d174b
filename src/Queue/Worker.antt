-- ===== src/Queue/Worker.antt =====
-- internal/queue/consumer.go: the workers that keep a session of the consumer alive, and the start
-- and end of a session. Its loop, Queue.Consumer.consume, is one call here.
pub mod Connections
mod Tests
use dante_api_systems.Base.{
  ℕ, zero, suc, Bool, true, false, List, ◌∷◌, Option, none, some, String, str_eq, if◌then◌else◌,
}
use dante_api_systems.Base.Int.{ℤ}
use dante_api_systems.Go.Errors.{Error, wrap, failure}
use dante_api_systems.Go.Exec.{
  Reply, answer, error, Result, ok, err, panic, Exec, ask, pure, fail, crash, ◌>>=◌,
}
use dante_api_systems.Queue.Topology.{RabbitMqConfig, QueueNames, prefetch_count}

-- What ends the wait before a new session.
pub data Woken : Type 0 where
  timer : Woken
  canceled : Woken

-- `context_done` tells whether the parent context is canceled; `deliveries` is the loop of a session.
pub data Call : Type 0 where
  context_done : Call
  dial : Call
  open_channel : Call
  declare_topology : QueueNames → Call
  qos : ℤ → Call
  start_consuming : String → Call
  deliveries : Call
  close_channel : Call
  close_connection : Call
  wait_reconnect : Call

abbrev pub Response : Call → Type 0
Response context_done = Bool
Response wait_reconnect = Woken
Response _ = Reply (Unit {0})

abbrev pub Action : Type 0 → Type 0
Action A = Exec Response A

-- A deferred call, made however the action ends; its error is dropped.
abbrev deferring : {A : Type 0} → Call → Action A → Action A
deferring c m env h = let (r, t) = m env h in (r, c ∷ t)

module _ (cfg : RabbitMqConfig) (names : QueueNames) where
  abbrev ended : Reply (Unit {0}) → Action (Unit {0})
  ended (answer u) = pure tt
  ended (error e) = fail e

  abbrev consuming : Reply (Unit {0}) → Action (Unit {0})
  consuming (error e) = fail (wrap "consume rabbitmq queue" e)
  consuming (answer u) = do done ← ask deliveries; ended done

  abbrev configured : Reply (Unit {0}) → Action (Unit {0})
  configured (error e) = fail (wrap "configure rabbitmq qos" e)
  configured (answer u) = do started ← ask (start_consuming names.primary); consuming started

  abbrev declared : Reply (Unit {0}) → Action (Unit {0})
  declared (error e) = fail (wrap "declare rabbitmq queue topology" e)
  declared (answer u) = do set ← ask (qos (prefetch_count cfg)); configured set

  abbrev opened : Reply (Unit {0}) → Action (Unit {0})
  opened (error e) = fail (wrap "open rabbitmq channel" e)
  opened (answer u) =
      deferring close_channel (do made ← ask (declare_topology names); declared made)

  abbrev dialled : Reply (Unit {0}) → Action (Unit {0})
  dialled (error e) = fail (wrap "dial rabbitmq" e)
  dialled (answer u) = deferring close_connection (do channel ← ask open_channel; opened channel)

  unfoldable pub run_session : Action (Unit {0})
  run_session = do connection ← ask dial; dialled connection

  -- The answer of a worker, or none if it is still running.
  abbrev pub Outcome : Type 0
  Outcome = Option (Reply (Unit {0}))

  abbrev woken : Action Outcome → Woken → Action Outcome
  woken again timer = again
  woken again canceled = pure (some (answer tt))

  abbrev failed_in : Action Outcome → Error → Bool → Action Outcome
  failed_in again e true = pure (some (error e))
  failed_in again e false = do next ← ask wait_reconnect; woken again next

  abbrev session_ended : Action Outcome → Result (Unit {0}) → Action Outcome
  session_ended again (ok u) = pure (some (answer tt))
  session_ended again (err e) = do done ← ask context_done; failed_in again e done
  session_ended again panic = crash

  abbrev through_session : Action Outcome → Action Outcome
  through_session again env h = let (r, t) = run_session env h in session_ended again r env t

  abbrev session_of : Action Outcome → Bool → Action Outcome
  session_of again true = pure (some (answer tt))
  session_of again false = through_session again

  -- The loop of a worker, for as many sessions as `fuel`
  unfoldable pub keep_alive : ℕ → Action Outcome
  keep_alive zero = pure none
  keep_alive (suc fuel) = do done ← ask context_done; session_of (keep_alive fuel) done

  -- `RunQRISPaymentWorker` and `RunTransferWorker`, by the names of their queue
  unfoldable pub run_worker : ℕ → Action Outcome
  run_worker fuel =
      if str_eq cfg.url "" then fail (failure "rabbitmq url is not configured") else keep_alive fuel
