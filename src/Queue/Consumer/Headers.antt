-- ===== src/Queue/Consumer/Headers.antt =====
-- What a copy on the retry queue carries.
use dante_api_systems.Base.{ℕ, ◌≡◌, refl, ◌∙◌, ◌⊎◌, inl, inr, Bool, some, List, ◌∷◌, Option-cases}
use dante_api_systems.Base.Int.{ℤ, wrap32}
use dante_api_systems.Base.Dict.{lookup, lookup-insert}
use dante_api_systems.Go.Exec.{ok, Env}
use dante_api_systems.Queue.Topology.{
  RabbitMqConfig, Value, int32_value, Table, QueueNames, header_retry_count,
  header_first_enqueued_at, retry_delay_for_attempt,
}
use dante_api_systems.Queue.Publisher.{Publishing}
use dante_api_systems.Queue.Consumer.{
  Delivery, Formats, Call, Response, now, publish, publish_retry, copy, counted, stamped,
  milliseconds,
}

-- The copy goes to the retry queue after the delay for its attempt, with the same body, the number
-- of its attempt, and the time of the first enqueueing if there was one.
pub record IsCopy (formats : Formats) (cfg : RabbitMqConfig) (names : QueueNames) (d : Delivery)
    (attempt : ℤ) (p : Publishing) : Type 0 where
  pub to_retry : p.queue ≡ names.retry
  pub same_body : p.body ≡ d.body
  pub same_type : p.content_type ≡ d.content_type
  pub same_encoding : p.content_encoding ≡ d.content_encoding
  pub count : lookup header_retry_count p.headers ≡ some (int32_value (wrap32 attempt))
  pub keeps_time :
      (v : Value)
      → lookup header_first_enqueued_at d.headers ≡ some v
      → lookup header_first_enqueued_at p.headers ≡ some v
  pub delayed : p.expiration ≡ some (milliseconds formats (retry_delay_for_attempt cfg attempt))

lookup-counted_self :
    (formats : Formats) (attempt : ℤ) (headers : Table)
    → lookup header_retry_count (counted formats attempt headers)
      ≡ some (int32_value (wrap32 attempt))
lookup-counted_self formats attempt headers = rw lookup-insert refl

lookup-counted_time :
    (formats : Formats) (attempt : ℤ) (headers : Table)
    → lookup header_first_enqueued_at (counted formats attempt headers)
      ≡ lookup header_first_enqueued_at headers
lookup-counted_time formats attempt headers = rw lookup-insert refl

lookup-stamped :
    (formats : Formats) (at : ℕ) (headers : Table)
    → lookup header_retry_count (stamped formats at headers) ≡ lookup header_retry_count headers
lookup-stamped formats at headers = rw lookup-insert refl

module _ (formats : Formats) (cfg : RabbitMqConfig) (observed : Bool) (names : QueueNames)
    (env : Env Response) (d : Delivery) (attempt : ℤ) (h : List Call) where
  abbrev headers : Table
  headers = counted formats attempt d.headers

  -- `publishRetry` makes one publishing, of a copy, after one or two readings of the clock.
  pub publish_retry_lem :
      (p : Publishing) × (h' : List Call) × (publish_retry formats cfg observed names d attempt env
          h
        ≡ (ok (env h' (publish p)), publish p ∷ h'))
      × IsCopy formats cfg names d attempt p
      × ((h' ≡ now ∷ h) ⊎ (h' ≡ now ∷ now ∷ h))
  unfolding publish_retry
  publish_retry_lem = elim (Option-cases (lookup header_first_enqueued_at headers)) [
    | inl missing ↦ (
      copy formats cfg observed names d attempt (stamped formats (env h now) headers)
          (env (now ∷ h) now),
      now ∷ now ∷ h,
      rw missing refl,
      record {
        to_retry = refl;
        same_body = refl;
        same_type = refl;
        same_encoding = refl;
        count =
            lookup-stamped formats (env h now) headers
            ∙ lookup-counted_self formats attempt d.headers;
        keeps_time = λ v e. cc (lookup-counted_time formats attempt d.headers);
        delayed = refl;
      },
      inr refl,
    )
    | inr (v, kept) ↦ (
      copy formats cfg observed names d attempt headers (env h now),
      now ∷ h,
      rw kept refl,
      record {
        to_retry = refl;
        same_body = refl;
        same_type = refl;
        same_encoding = refl;
        count = lookup-counted_self formats attempt d.headers;
        keeps_time = λ v e. lookup-counted_time formats attempt d.headers ∙ e;
        delayed = refl;
      },
      inl refl,
    )
  ]
