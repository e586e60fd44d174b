-- ===== src/Queue/Consumer/Retries.antt =====
-- How often a job whose handler keeps failing is tried.
use dante_api_systems.Base.{
  ℕ, zero, suc, ◌+◌, ◌<◌, ◌≡◌, refl, sym, subst, ◌∙◌, ap, ◌⊎◌, Bool, true, false, Option, none,
  some, String, List, [], ◌∷◌, length, arith,
}
use dante_api_systems.Base.Int.{ℤ, pos, ◌+ℤ◌, wrap64, +ℤ-pos, wrap64-pos, wrap32-pos, leb_ℤ}
use dante_api_systems.Base.Dict.{lookup}
use dante_api_systems.Go.Errors.{Error}
use dante_api_systems.Go.Exec.{Reply, answer, error, ok, Env}
use dante_api_systems.Go.Trace.{total}
use dante_api_systems.Queue.Topology.{
  RabbitMqConfig, QueueNames, int32_value, header_retry_count, max_retry_attempts,
}
use dante_api_systems.Queue.Messages.{Job}
use dante_api_systems.Queue.Publisher.{Publishing}
use dante_api_systems.Queue.Consumer.{
  Delivery, Formats, Call, Response, handle, publish, reject, now, settle, process_delivery,
  observe_lag, settle_retry, dead_letter, is_decode_error, retry_count_from_headers,
}
use dante_api_systems.Queue.Consumer.Headers.{IsCopy, publish_retry_lem}

-- The copy that was published last.
abbrev last_copy : List Call → Option Publishing
last_copy [] = none
last_copy (publish p ∷ h) = some p
last_copy (c ∷ h) = last_copy h

abbrev tried : (c : Call) → Response c → ℕ
tried (handle job) r = 1
tried _ _ = 0

abbrev rejected : (c : Call) → Response c → ℕ
rejected reject r = 1
rejected _ _ = 0

-- What the trace of one delivery shows.
record Round (env : Env Response) (copy : Option Publishing) (dead : ℕ) (t : List Call)
    : Type 0 where
  copied : last_copy t ≡ copy
  once : total tried env t ≡ 1
  buried : total rejected env t ≡ dead

module _ (formats : Formats) (cfg : RabbitMqConfig) (observed : Bool) (names : QueueNames)
    (unmarshal : String → Reply Job) (env : Env Response) (returned : Publishing → Delivery) where
  next_rounds : Option Publishing → (Delivery → List (List Call)) → List (List Call)
  next_rounds none rest = []
  next_rounds (some p) rest = rest (returned p)

  -- The traces of the deliveries of one message: where a copy was published, the broker returns it
  -- to the primary queue.
  pub rounds : ℕ → Delivery → List (List Call)
  rounds zero d = []
  rounds (suc fuel) d =
      let t = (process_delivery formats cfg observed names unmarshal d env []).1 in
      t ∷ next_rounds (last_copy t) (rounds fuel)

-- Observing the lag makes no call that shows in a round.
observe_lag_quiet :
    (formats : Formats) (cfg : RabbitMqConfig) (observed : Bool) (names : QueueNames)
    (env : Env Response) (d : Delivery)
    → ((observe_lag formats cfg observed names d env []).0 ≡ ok tt)
      × (last_copy (observe_lag formats cfg observed names d env []).1 ≡ none)
      × (total tried env (observe_lag formats cfg observed names d env []).1 ≡ 0)
      × (total rejected env (observe_lag formats cfg observed names d env []).1 ≡ 0)
unfolding observe_lag
observe_lag_quiet formats cfg observed names env d = ground arith

-- The attempt that follows a count of `k`.
next_attempt :
    (formats : Formats) (d : Delivery) (k : ℕ)
    → lookup header_retry_count d.headers ≡ some (int32_value (pos k))
    → k < 2147483648
    → wrap64 (retry_count_from_headers formats d.headers +ℤ pos 1) ≡ pos (k + 1)
unfolding retry_count_from_headers
next_attempt formats d k e h = rw e (rw (+ℤ-pos k 1) (wrap64-pos (k + 1) (omega arith)))

module _ (formats : Formats) (cfg : RabbitMqConfig) (observed : Bool) (names : QueueNames)
    (env : Env Response) (d : Delivery) (h : List Call) (copied : last_copy h ≡ none)
    (once : total tried env h ≡ 1) (buried : total rejected env h ≡ 0) where
  dead_letter-Round :
      (seen : Bool) (attempt : ℤ)
      → Round env none 1 (dead_letter formats cfg seen names attempt env h).1
  dead_letter-Round true attempt = ground arith
  dead_letter-Round false attempt = ground arith

  settle_retry-Round :
      (seen : Bool) (attempt : ℤ) (p : Publishing) (h' : List Call)
      → (h' ≡ now ∷ h) ⊎ (h' ≡ now ∷ now ∷ h)
      → env h' (publish p) ≡ answer tt
      → Round env
          (some p)
          0
          (settle_retry formats cfg seen names attempt (env h' (publish p)) env (publish p ∷ h')).1
  settle_retry-Round true attempt p h' e sent = rw sent (ground arith)
  settle_retry-Round false attempt p h' e sent = rw sent (ground arith)

  module _ (e : Error) (k m : ℕ) (lasting : is_decode_error e ≡ false)
      (count : lookup header_retry_count d.headers ≡ some (int32_value (pos k)))
      (max : max_retry_attempts cfg ≡ pos m) (small : m < 2147483648) where
    -- Below the limit a handler's error leads to a copy.
    settle-copies :
        ((h : List Call) (p : Publishing) → env h (publish p) ≡ answer tt)
        → k < m
        → (p : Publishing) × IsCopy formats cfg names d (pos (k + 1)) p
          × Round env (some p) 0 (settle formats cfg observed names d (error e) env h).1
    unfolding settle
    settle-copies sends below =
        let (p, h', sent, copy, read) =
          publish_retry_lem formats cfg observed names env d (pos (k + 1)) h in
        let allowed : leb_ℤ (pos (k + 1)) (max_retry_attempts cfg) ≡ true = rw max (ground arith) in
        (
          p,
          copy,
          rw (lasting, next_attempt formats d k count (omega arith), allowed, sent)
              (settle_retry-Round observed (pos (k + 1)) p h' read (sends h' p)),
        )

    -- At the limit it leads to a rejection.
    settle-rejects :
        k ≡ m → Round env none 1 (settle formats cfg observed names d (error e) env h).1
    unfolding settle
    settle-rejects at =
        let refused : leb_ℤ (pos (k + 1)) (max_retry_attempts cfg) ≡ false =
          rw max (ground arith) in
        rw (lasting, next_attempt formats d k count (omega arith), refused)
          (dead_letter-Round observed (pos (k + 1)))

-- How many deliveries, and in all their traces.
abbrev pub sum_rejected : Env Response → List (List Call) → ℕ
sum_rejected env [] = 0
sum_rejected env (t ∷ ts) = total rejected env t + sum_rejected env ts

abbrev pub sum_tried : Env Response → List (List Call) → ℕ
sum_tried env [] = 0
sum_tried env (t ∷ ts) = total tried env t + sum_tried env ts

module _ (formats : Formats) (cfg : RabbitMqConfig) (observed : Bool) (names : QueueNames)
    (unmarshal : String → Reply Job) (env : Env Response) (returned : Publishing → Delivery) where
  -- A round is what follows from the error of the handler.
  process_delivery_lem :
      (d : Delivery) (job : Job) (e : List Call → Error)
      → unmarshal d.body ≡ answer job
      → ((h : List Call) → env h (handle job) ≡ error (e h))
      → let h = (observe_lag formats cfg observed names d env []).1 in
        process_delivery formats cfg observed names unmarshal d env []
        ≡ settle formats cfg observed names d (error (e h)) env (handle job ∷ h)
  unfolding process_delivery
  process_delivery_lem d job e decoded fails =
      let q = observe_lag_quiet formats cfg observed names env d in rw (q.0, decoded, fails)

  module _ (body : String) (job : Job) (decoded : unmarshal body ≡ answer job)
      (reason : List Call → Error) (fails : (h : List Call) → env h (handle job) ≡ error (reason h))
      (lasting : (h : List Call) → is_decode_error (reason h) ≡ false)
      (sends : (h : List Call) (p : Publishing) → env h (publish p) ≡ answer tt)
      (returned_body : (p : Publishing) → (returned p).body ≡ p.body)
      (returned_count : (p : Publishing)
        → lookup header_retry_count (returned p).headers ≡ lookup header_retry_count p.headers)
      (m : ℕ) (max : max_retry_attempts cfg ≡ pos m) (small : m < 2147483648) where
    abbrev trace : Delivery → List Call
    trace d = (process_delivery formats cfg observed names unmarshal d env []).1

    trace-copies :
        (d : Delivery) (k : ℕ)
        → d.body ≡ body
        → lookup header_retry_count d.headers ≡ some (int32_value (pos k))
        → k < m
        → (p : Publishing) × IsCopy formats cfg names d (pos (k + 1)) p
          × Round env (some p) 0 (trace d)
    trace-copies d k same count below =
        let q = observe_lag_quiet formats cfg observed names env d in
        let h = (observe_lag formats cfg observed names d env []).1 in
        let (p, copy, r) =
          settle-copies formats cfg observed names env d (handle job ∷ h) q.1 (omega (arith, q.2))
            (omega (arith, q.3)) (reason h) k m (lasting h) count max small sends below in
        (
          p,
          copy,
          subst (λ x. Round env (some p) 0 x.1)
              (sym (process_delivery_lem d job reason (rw same decoded) fails)) r,
        )

    trace-rejects :
        (d : Delivery) (k : ℕ)
        → d.body ≡ body
        → lookup header_retry_count d.headers ≡ some (int32_value (pos k))
        → k ≡ m
        → Round env none 1 (trace d)
    trace-rejects d k same count at =
        let q = observe_lag_quiet formats cfg observed names env d in
        let h = (observe_lag formats cfg observed names d env []).1 in
        subst (λ x. Round env none 1 x.1)
          (sym (process_delivery_lem d job reason (rw same decoded) fails))
          (settle-rejects formats cfg observed names env d (handle job ∷ h) q.1 (omega (arith, q.2))
            (omega (arith, q.3)) (reason h) k m (lasting h) count max small at)

    -- A job that is decoded, whose handler always fails, and whose copies are published and come
    -- back with their body and count: with `n` retries left it is tried exactly `n + 1` times, and
    -- rejected to the dead-letter queue exactly once.
    pub rounds_bounded :
        (n k fuel : ℕ) (d : Delivery)
        → d.body ≡ body
        → lookup header_retry_count d.headers ≡ some (int32_value (pos k))
        → k + n ≡ m
        → n < fuel
        → let ts = rounds formats cfg observed names unmarshal env returned fuel d in
          (length ts ≡ suc n) × (sum_tried env ts ≡ suc n) × (sum_rejected env ts ≡ 1)
    unfolding rounds next_rounds
    rounds_bounded n k zero d same count left enough = absurd (omega arith)
    rounds_bounded zero k (suc fuel) d same count left enough =
        let r = trace-rejects d k same count (omega arith) in
        rw r.copied (refl, omega (arith, r.once), omega (arith, r.buried))
    rounds_bounded (suc n) k (suc fuel) d same count left enough =
        let (p, copy, r) = trace-copies d k same count (omega arith) in
        let counted : lookup header_retry_count (returned p).headers
            ≡ some (int32_value (pos (k + 1))) =
          returned_count p
          ∙ copy.count
          ∙ ap (λ (x : ℤ). some (int32_value x)) (wrap32-pos (k + 1) (omega arith)) in
        let (a, b, c) =
          rounds_bounded n (k + 1) fuel (returned p) (returned_body p ∙ copy.same_body ∙ same)
            counted (omega arith) (omega arith) in
        rw r.copied (omega (arith, a), omega (arith, r.once, b), omega (arith, r.buried, c))
