-- ===== src/Observability/Http/Recording.antt =====
-- What the two middlewares record of one request.
use dante_api_systems.Base.{
  ℕ, false, ◌+◌, ◌≡◌, ◌≢◌, ◌⊎◌, ◌∙◌, refl, sym, ap, [], ◌∷◌, ◌&&◌, List, Option, none, some, String,
  str_eq, eq_iff, Option-cases, inl, inr, leb, ◌==◌, if◌then◌else◌, arith,
}
use dante_api_systems.Go.Exec.{ok, Env}
use dante_api_systems.Go.Trace.{total}
use Prim.Native.String.{◌++◌}
use dante_api_systems.Observability.Http.{
  Served, Request, Call, Response, now, inc_http_in_flight, dec_http_in_flight,
  observe_http_request, serve_next, start_span, set_header, set_attributes, set_error_status,
  end_span, route_pattern, status_code, attributes_of, metrics, tracing, observed,
}

-- Handlings of the request by the handler inside.
abbrev pub servings : (c : Call) → Response c → ℕ
servings serve_next r = 1
servings _ _ = 0

-- Observations of a request with this method, route and status.
abbrev pub observing : String → String → ℕ → (c : Call) → Response c → ℕ
observing method path status (observe_http_request method' path' status' duration) r =
    if str_eq method' method && str_eq path' path && status' == status then 1 else 0
observing method path status _ _ = 0

abbrev pub observations : (c : Call) → Response c → ℕ
observations (observe_http_request method path status duration) r = 1
observations _ _ = 0

-- Spans begun, ended, and given this route and status, and marks of a span as an error.
abbrev pub begun : (c : Call) → Response c → ℕ
begun (start_span name attributes) r = 1
begun _ _ = 0

abbrev pub ended : (c : Call) → Response c → ℕ
ended end_span r = 1
ended _ _ = 0

abbrev pub described : String → ℕ → (c : Call) → Response c → ℕ
described path status (set_attributes path' status') r =
    if str_eq path' path && status' == status then 1 else 0
described path status _ _ = 0

abbrev pub failures : (c : Call) → Response c → ℕ
failures (set_error_status description) r = 1
failures _ _ = 0

abbrev pub panics : Option String → ℕ
panics none = 0
panics (some reason) = 1

abbrev pub increments : (c : Call) → Response c → ℕ
increments inc_http_in_flight r = 1
increments _ _ = 0

abbrev pub decrements : (c : Call) → Response c → ℕ
decrements dec_http_in_flight r = 1
decrements _ _ = 0

abbrev pub headers : (c : Call) → Response c → ℕ
headers (set_header name value) r = 1
headers _ _ = 0

-- The span of a request is marked as an error for its status, and for a panic.
abbrev pub marks_of : ℕ → Option String → ℕ
marks_of code recovered = (if leb 500 code then 1 else 0) + panics recovered

observed-status_code :
    (status_text : ℕ → String) (r : Request) (path : String) (env : Env Response) (served : Served)
    → r.url_path ≡ some path
    → ((h : List Call) → env h serve_next ≡ served)
    → let (m, t) = observed status_text r env [] in
      let route = route_pattern served.pattern r.url_path in
      (m ≡ ok served)
      × (total servings env t ≡ 1)
      × (total increments env t ≡ 1)
      × (total decrements env t ≡ 1)
      × (total observations env t ≡ 1)
      × (total (observing r.method route (status_code served)) env t ≡ 1)
      × (total begun env t ≡ 1)
      × (total ended env t ≡ 1)
      × (total (described route (status_code served)) env t ≡ 1)
      × (total failures env t ≡ marks_of (status_code served) served.recovered)
unfolding observed tracing metrics
observed-status_code status_text r path env served url ends =
    let route = route_pattern served.pattern (some path) in
    let begin = start_span (r.method ++ (" " ++ path)) (attributes_of r) in
    let plain = ends (inc_http_in_flight ∷ now ∷ begin ∷ []) in
    let shown =
      λ (id : String). ends (inc_http_in_flight ∷ now ∷ set_header "X-Trace-Id" id ∷ begin ∷ []) in
    rw url (elim (Option-cases (env [] begin)) [
      | inl e ↦ rw (e, plain) (ground (arith, eq_iff r.method r.method, eq_iff route route))
      | inr (id, e) ↦
          rw (e, shown id) (ground (arith, eq_iff r.method r.method, eq_iff route route))
    ])

-- The status of a request: the one that was written, and if none was, 200 after an answer and 500
-- after a panic.
abbrev pub IsStatus : Served → ℕ → Type 0
IsStatus served code =
    ((served.status ≢ 0) × (code ≡ served.status))
    ⊎ ((served.status ≡ 0) × (served.recovered ≡ none) × (code ≡ 200))
    ⊎ ((served.status ≡ 0) × (served.recovered ≢ none) × (code ≡ 500))

-- The route of a request: its pattern, if it has one that is not empty; or its path, if that is not
-- empty.
abbrev pub IsRoute : Option String → String → String → Type 0
IsRoute pattern path route =
    ((pattern ≡ some route) × (str_eq route "" ≡ false))
    ⊎ (((pattern ≡ none) ⊎ (pattern ≡ some "")) × (str_eq path "" ≡ false) × (route ≡ path))

IsStatus-code : (served : Served) (code : ℕ) → IsStatus served code → status_code served ≡ code
IsStatus-code served code told = ground arith

IsRoute-pattern :
    (pattern : Option String) (path route : String)
    → IsRoute pattern path route
    → route_pattern pattern (some path) ≡ route
IsRoute-pattern pattern path route (inl (named, shown)) = rw (named, shown) refl
IsRoute-pattern pattern path route (inr (inl unnamed, shown, same)) = rw (unnamed, shown) (sym same)
IsRoute-pattern pattern path route (inr (inr unnamed, shown, same)) = rw (unnamed, shown) (sym same)

-- Whatever the handler inside does, answer or panic, a request with a URL is handled once and ends
-- as the handler ends; it is counted in flight up and down once, observed once, and has one span,
-- begun and ended once. The observation and the span have the same route, the pattern that chi found
-- or else the path, and the same status: the one that the handler wrote, and if it wrote none, 200
-- after an answer and 500 after a panic. The span is marked as an error once for a status from 500
-- on, and once for a panic.
pub observed-records :
    (status_text : ℕ → String) (r : Request) (path route : String) (code : ℕ) (env : Env Response)
    (served : Served)
    → r.url_path ≡ some path
    → ((h : List Call) → env h serve_next ≡ served)
    → IsRoute served.pattern path route
    → IsStatus served code
    → let (m, t) = observed status_text r env [] in
      (m ≡ ok served)
      × (total servings env t ≡ 1)
      × (total increments env t ≡ 1)
      × (total decrements env t ≡ 1)
      × (total observations env t ≡ 1)
      × (total (observing r.method route code) env t ≡ 1)
      × (total begun env t ≡ 1)
      × (total ended env t ≡ 1)
      × (total (described route code) env t ≡ 1)
      × (total failures env t ≡ marks_of code served.recovered)
observed-records status_text r path route code env served url ends routed told =
    let is_route =
      ap (route_pattern served.pattern) url ∙ IsRoute-pattern served.pattern path route routed in
    rw (IsStatus-code served code told, is_route) at
      (observed-status_code status_text r path env served url ends)
