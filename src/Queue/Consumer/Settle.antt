-- ===== src/Queue/Consumer/Settle.antt =====
-- What becomes of each delivery, whatever the broker, the handler and the clock answer.
use dante_api_systems.Base.{
  ℕ, zero, suc, ◌+◌, ◌≤◌, ◌≡◌, refl, Bool, true, false, List, [], ◌∷◌, String, arith,
}
use dante_api_systems.Go.Exec.{Reply, answer, error, ok, Env, ◌>>=◌}
use dante_api_systems.Go.Trace.{total}
use dante_api_systems.Queue.Topology.{RabbitMqConfig, QueueNames}
use dante_api_systems.Queue.Publisher.{Publishing}
use dante_api_systems.Base.Int.{ℤ, pos, wrap64, ◌+ℤ◌}
use dante_api_systems.Go.Errors.{Error}
use dante_api_systems.Queue.Consumer.Headers.{publish_retry_lem}
use dante_api_systems.Queue.Messages.{Job}
use dante_api_systems.Queue.Consumer.{
  Delivery, Formats, Call, Response, receive, delivered, handle, publish, ack, nack_requeue, reject,
  settle, publish_retry, process_delivery, consume, observe_lag, handle_decoded, settle_retry,
  dead_letter, retry_count_from_headers,
}

abbrev received : (c : Call) → Response c → ℕ
received receive (delivered d) = 1
received receive _ = 0
received _ _ = 0

abbrev handled : (c : Call) → Response c → ℕ
handled (handle job) (answer u) = 1
handled _ _ = 0

abbrev copied : (c : Call) → Response c → ℕ
copied (publish p) (answer u) = 1
copied _ _ = 0

abbrev acked : (c : Call) → Response c → ℕ
acked ack r = 1
acked _ _ = 0

abbrev ack_failed : (c : Call) → Response c → ℕ
ack_failed ack (error e) = 1
ack_failed _ _ = 0

abbrev requeued : (c : Call) → Response c → ℕ
requeued nack_requeue r = 1
requeued _ _ = 0

abbrev rejected : (c : Call) → Response c → ℕ
rejected reject r = 1
rejected _ _ = 0

-- In a trace with `due` deliveries still in hand: every other one that came was acknowledged, put
-- back or rejected; none twice, but where an acknowledgement failed; and as many were acknowledged
-- as were handled without an error or copied to the retry queue.
pub record Settled (env : Env Response) (due : ℕ) (t : List Call) : Type 0 where
  pub none_lost :
      total received env t ≤ total acked env t + total requeued env t + total rejected env t + due
  pub none_twice :
      total acked env t + total requeued env t + total rejected env t + due
      ≤ total received env t + total ack_failed env t
  pub covered : total acked env t ≡ total handled env t + total copied env t

module _ (formats : Formats) (cfg : RabbitMqConfig) (observed : Bool) (names : QueueNames)
    (unmarshal : String → Reply Job) (env : Env Response) where
  -- Observing the lag makes no call that counts.
  observe_lag-Settled :
      (d : Delivery) (h : List Call)
      → Settled env 1 h
      → ((observe_lag formats cfg observed names d env h).0 ≡ ok tt)
        × Settled env 1 (observe_lag formats cfg observed names d env h).1
  unfolding observe_lag
  observe_lag-Settled d h s = ground arith

  -- A copy's outcome is counted where it is settled.
  settle_retry-Settled :
      (seen : Bool) (p : Publishing) (attempt : ℤ) (h : List Call) (r : Reply (Unit {0}))
      → env h (publish p) ≡ r
      → Settled env 1 h
      → Settled env 0 (settle_retry formats cfg seen names attempt r env (publish p ∷ h)).1
  settle_retry-Settled true p attempt h (answer u) e s = ground arith
  settle_retry-Settled false p attempt h (answer u) e s = ground arith
  settle_retry-Settled seen p attempt h (error x) e s = ground arith

  publish_retry-Settled :
      (d : Delivery) (attempt : ℤ) (h : List Call)
      → Settled env 1 h
      → Settled env 0
          ((publish_retry formats cfg observed names d attempt
              >>= settle_retry formats cfg observed names attempt)
            env h).1
  publish_retry-Settled d attempt h s =
      let (p, h', e, _, read) = publish_retry_lem formats cfg observed names env d attempt h in
      rw e (settle_retry-Settled observed p attempt h' _ refl (ground arith))

  dead_letter-Settled :
      (seen : Bool) (attempt : ℤ) (h : List Call)
      → Settled env 1 h
      → Settled env 0 (dead_letter formats cfg seen names attempt env h).1
  dead_letter-Settled true attempt h s = ground arith
  dead_letter-Settled false attempt h s = ground arith

  -- An error of the handler or of the decoding.
  settle_error-Settled :
      (d : Delivery) (e : Error) (h : List Call)
      → Settled env 1 h
      → Settled env 0 (settle formats cfg observed names d (error e) env h).1
  unfolding settle
  settle_error-Settled d e h s = ground (
    arith,
    dead_letter-Settled observed (retry_count_from_headers formats d.headers) h s,
    dead_letter-Settled observed (wrap64 (retry_count_from_headers formats d.headers +ℤ pos 1)) h s,
    publish_retry-Settled d (wrap64 (retry_count_from_headers formats d.headers +ℤ pos 1)) h s,
  )

  settle-Settled :
      (d : Delivery) (h : List Call) (job : Reply Job)
      → Settled env 1 h
      → Settled env 0
          ((handle_decoded formats cfg observed names unmarshal job
              >>= settle formats cfg observed names d)
            env h).1
  unfolding settle
  settle-Settled d h (error e) s = settle_error-Settled d e h s
  settle-Settled d h (answer job) s = handled_as (env h (handle job)) refl
    where
      handled_as :
          (r : Reply (Unit {0}))
          → env h (handle job) ≡ r
          → Settled env 0
              ((handle_decoded formats cfg observed names unmarshal (answer job)
                  >>= settle formats cfg observed names d)
                env h).1
      handled_as (answer u) e = rw e (ground arith)
      handled_as (error x) e = rw e (settle_error-Settled d x (handle job ∷ h) (ground arith))

  process_delivery-Settled :
      (d : Delivery) (h : List Call)
      → Settled env 1 h
      → Settled env 0 (process_delivery formats cfg observed names unmarshal d env h).1
  unfolding process_delivery
  process_delivery-Settled d h s =
      let (done, s') = observe_lag-Settled d h s in
      rw done (settle-Settled d _ (unmarshal d.body) s')

  consume-Settled :
      (fuel : ℕ) (h : List Call)
      → Settled env 0 h
      → Settled env 0 (consume formats cfg observed names unmarshal fuel env h).1
  unfolding consume
  consume-Settled zero h s = s
  consume-Settled (suc fuel) h s = grind (arith, process_delivery-Settled, consume-Settled fuel)

-- However long a session runs, and whatever the broker, the handler and the clock answer: every
-- delivery that it takes is acknowledged, put back in the queue or rejected to the dead-letter
-- queue; only one is, but for failed acknowledgements; and it acknowledges exactly as many as were
-- handled without an error or copied to the retry queue.
pub consume_settles :
    (formats : Formats) (cfg : RabbitMqConfig) (observed : Bool) (names : QueueNames)
    (unmarshal : String → Reply Job) (env : Env Response) (fuel : ℕ)
    → Settled env 0 (consume formats cfg observed names unmarshal fuel env []).1
consume_settles formats cfg observed names unmarshal env fuel =
    consume-Settled formats cfg observed names unmarshal env fuel [] (omega arith)
