-- ===== src/Queue/Publisher/Sending.antt =====
-- What publishing a job does, and what a consumer reads of it.
use dante_api_systems.Base.{
  ℕ, ◌≡◌, ◌≢◌, ◌≤◌, ◌+◌, refl, List, [], ◌∷◌, some, String, arith, inl, inr,
}
use dante_api_systems.Base.Int.{pos}
use dante_api_systems.Base.Dict.{lookup, insert}
use dante_api_systems.Go.Exec.{Reply, answer, error, Result, ok, panic, Env, Result-cases}
use dante_api_systems.Go.Trace.{total}
use dante_api_systems.Queue.Topology.{RabbitMqConfig, QueueNames, names_for_queue}
use dante_api_systems.Queue.Consumer.{Formats, retry_count_from_headers, first_enqueued}
use dante_api_systems.Queue.Publisher.{
  Call, Response, publish, queue_declare, dial, open_channel, publish_json, publish_body, enqueue,
  declare_queue_topology,
}

abbrev pub sendings : (c : Call) → Response c → ℕ
sendings (publish p) r = 1
sendings _ _ = 0

abbrev pub sent : (c : Call) → Response c → ℕ
sent (publish p) (answer u) = 1
sent _ _ = 0

abbrev pub declared : (c : Call) → Response c → ℕ
declared (queue_declare queue args) (answer u) = 1
declared _ _ = 0

abbrev pub succeeded : Result (Unit {0}) → ℕ
succeeded (ok u) = 1
succeeded _ = 0

declare_quiet :
    (names : QueueNames) (env : Env Response) (h : List Call)
    → let (r, t) = declare_queue_topology names env h in
      (total sendings env t ≡ total sendings env h)
      × (total sent env t ≡ total sent env h)
      × (total declared env h + succeeded r + succeeded r + succeeded r ≤ total declared env t)
      × (total declared env t ≤ total declared env h + 3)
      × (r ≢ panic)
unfolding declare_queue_topology
declare_quiet names env h = ground arith

module _ (format_time : ℕ → String) (cfg : RabbitMqConfig) (queue body : String)
    (env : Env Response) where
  publish_body_lem :
      (h : List Call)
      → let (r, t) = publish_body format_time cfg queue body env h in
        (total sent env t ≡ total sent env h + succeeded r)
        × (total sendings env t ≤ total sendings env h + 1)
        × (total declared env h + total sendings env t + total sendings env t + total sendings env t
            ≤ total declared env t
              + total sendings env h
              + total sendings env h
              + total sendings env h)
        × (r ≢ panic)
  publish_body_lem h =
      let h' = open_channel ∷ dial cfg.url ∷ h in
      let (a, b, c, d, p) = declare_quiet (names_for_queue queue) env h' in
      elim (Result-cases (declare_queue_topology (names_for_queue queue) env h').0) [
        | inl (u, e) ↦ ground (arith, e, a, b, c, d)
        | inr (inl (x, e)) ↦ ground (arith, e, a, b, c, d)
        | inr (inr e) ↦ absurd (p e)
      ]

-- Whatever the broker answers: publishing a message attempts to send it at most once, and only
-- after its three queues were declared; it ends without an error exactly if the broker took the
-- message; and it does not panic.
pub publish_json_sends :
    (format_time : ℕ → String) (cfg : RabbitMqConfig) (queue : String) (marshalled : Reply String)
    (env : Env Response)
    → let (r, t) = publish_json format_time cfg queue marshalled env [] in
      (total sent env t ≡ succeeded r)
      × (total sendings env t ≤ 1)
      × (total sendings env t + total sendings env t + total sendings env t ≤ total declared env t)
      × (r ≢ panic)
unfolding publish_json
publish_json_sends format_time cfg queue (error e) env = ground arith
publish_json_sends format_time cfg queue (answer body) env =
    ground (arith, publish_body_lem format_time cfg queue body env [])

-- A consumer that gets a published message counts no retry for it, and takes the time of its
-- publishing as the time at which it was first enqueued, if that time is read back as written.
pub enqueue-read :
    (formats : Formats) (queue body : String) (at : ℕ)
    → formats.parse_time (formats.format_time at) ≡ some at
    → let headers = (enqueue formats.format_time queue body at).headers in
      (retry_count_from_headers formats headers ≡ pos 0)
      × (first_enqueued formats headers ≡ some at)
unfolding retry_count_from_headers first_enqueued lookup insert
enqueue-read formats queue body at back = rw back (refl, refl)
