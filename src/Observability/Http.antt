-- ===== src/Observability/Http.antt =====
-- internal/observability/httpobs/middleware.go: Metrics and Tracing around a handler.
pub mod Recording
use dante_api_systems.Base.{
  ℕ, ◌-◌, Bool, true, false, Option, none, some, String, str_eq, leb, ◌==◌, if◌then◌else◌,
}
use dante_api_systems.Go.Exec.{Exec, ask, pure, crash, ◌>>=◌}
use dante_api_systems.Models.{Time}
use Prim.Native.String.{◌++◌}

-- How the handler ended: the status that it wrote, 0 if none; what it panicked with; and the route
-- pattern that chi found for the request, if it routes it.
pub record Served : Type 0 where
  pub status : ℕ
  pub recovered : Option String
  pub pattern : Option String

-- `url_path` is none for a request without a URL.
pub record Request : Type 0 where
  pub method : String
  pub url_path : Option String
  pub request_uri : String
  pub host : String
  pub remote_addr : String
  pub user_agent : String
  pub tls : Bool
  pub forwarded_proto : String

pub record SpanAttributes : Type 0 where
  pub http_method : String
  pub http_target : String
  pub http_scheme : String
  pub net_host_name : String
  pub client_address : String
  pub user_agent_original : String

-- The methods of MetricsRecorder and of a span. `start_span` answers the id of its trace, if its
-- context is valid; `serve_next` is the handler inside.
pub data Call : Type 0 where
  now : Call
  inc_http_in_flight : Call
  dec_http_in_flight : Call
  observe_http_request : String → String → ℕ → ℕ → Call
  serve_next : Call
  start_span : String → SpanAttributes → Call
  set_header : String → String → Call
  set_name : String → Call
  set_attributes : String → ℕ → Call
  set_error_status : String → Call
  record_error : String → Call
  end_span : Call

abbrev pub Response : Call → Type 0
Response now = Time
Response serve_next = Served
Response (start_span name attributes) = Option String
Response _ = Unit {0}

abbrev pub Action : Type 0 → Type 0
Action A = Exec Response A

abbrev path_of : Option String → String
path_of none = "unknown"
path_of (some path) = if str_eq path "" then "unknown" else path

-- `routePattern`, read when the handler has ended.
abbrev pub route_pattern : Option String → Option String → String
route_pattern none url_path = path_of url_path
route_pattern (some pattern) url_path = if str_eq pattern "" then path_of url_path else pattern

abbrev pub scheme : Request → String
scheme r =
    if r.tls then "https" else (if str_eq r.forwarded_proto "" then "http" else r.forwarded_proto)

abbrev unwritten : Option String → ℕ
unwritten none = 200
unwritten (some reason) = 500

-- A handler that wrote no status has answered 200, or 500 if it panicked.
abbrev pub status_code : Served → ℕ
status_code served = if served.status == 0 then unwritten served.recovered else served.status

-- A middleware runs the handler inside, and hands on how that ended: a panic goes on.
-- `Metrics`
unfoldable pub metrics : Request → Action Served → Action Served
metrics r next = do
  started ← ask now
  incremented ← ask inc_http_in_flight
  served ← next
  decremented ← ask dec_http_in_flight
  ended ← ask now
  observed ← ask (
      observe_http_request r.method (route_pattern served.pattern r.url_path) (status_code served)
        (ended - started))
  pure served

abbrev pub attributes_of : Request → SpanAttributes
attributes_of r = record {
  http_method = r.method;
  http_target = r.request_uri;
  http_scheme = scheme r;
  net_host_name = r.host;
  client_address = r.remote_addr;
  user_agent_original = r.user_agent;
}

-- `status_text` is http.StatusText.
module _ (status_text : ℕ → String) where
  abbrev erroneous : ℕ → Action (Unit {0})
  erroneous status = if leb 500 status then ask (set_error_status (status_text status)) else pure tt

  abbrev finish_span : Request → Option String → ℕ → Action (Unit {0})
  finish_span r pattern status = do
    named ← ask (set_name (r.method ++ (" " ++ route_pattern pattern r.url_path)))
    attributed ← ask (set_attributes (route_pattern pattern r.url_path) status)
    erroneous status

  abbrev with_trace_id : Option String → Action (Unit {0})
  with_trace_id none = pure tt
  with_trace_id (some id) = ask (set_header "X-Trace-Id" id)

  abbrev recorded : Option String → Action (Unit {0})
  recorded none = pure tt
  recorded (some reason) = do
    noted ← ask (record_error ("panic: " ++ reason))
    ask (set_error_status "panic")

  -- The deferred `span.End()` comes last, also when a panic goes on.
  abbrev traced : Request → Action Served → String → Action Served
  traced r next path = do
    trace ← ask (start_span (r.method ++ (" " ++ path)) (attributes_of r))
    shown ← with_trace_id trace
    served ← next
    finished ← finish_span r served.pattern (status_code served)
    noted ← recorded served.recovered
    ended ← ask end_span
    pure served

  -- A request without a URL is a nil dereference.
  abbrev traced_at : Request → Action Served → Option String → Action Served
  traced_at r next none = crash
  traced_at r next (some path) = traced r next path

  -- `Tracing`
  unfoldable pub tracing : Request → Action Served → Action Served
  tracing r next = traced_at r next r.url_path

  -- The two middlewares as internal/bridge/bridge.go puts them around the rest.
  pub observed : Request → Action Served
  observed r = tracing r (metrics r (ask serve_next))
