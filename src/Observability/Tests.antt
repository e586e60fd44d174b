-- ===== src/Observability/Tests.antt =====
-- A request whose handler panics, and a table of three transactions.
use dante_api_systems.Base.{
  ℕ, inl, inr, arith, ◌≡◌, refl, false, [], ◌∷◌, length, some, none, String,
}
use dante_api_systems.Base.Dict.{insert, lookup}
use dante_api_systems.Base.Int.{pos}
use dante_api_systems.Go.Exec.{ok, Env}
use dante_api_systems.Go.Trace.{total}
use dante_api_systems.Models.{Transaction}
use dante_api_systems.Observability.Counters.{inc, snapshot}
use dante_api_systems.Observability.Http.{
  Served, Request, Response, now, inc_http_in_flight, dec_http_in_flight, observe_http_request,
  serve_next, start_span, set_header, set_name, set_attributes, set_error_status, record_error,
  end_span, observed,
}
use dante_api_systems.Observability.Http.Recording.{
  servings, increments, decrements, observations, observing, begun, ended, described, failures,
  marks_of, observed-records,
}

abbrev request : Request
request = record {
  method = "GET";
  url_path = some "/accounts/7";
  request_uri = "/accounts/7?x=1";
  host = "dante";
  remote_addr = "10.0.0.1:80";
  user_agent = "app";
  tls = false;
  forwarded_proto = "";
}

abbrev panicking : Served
panicking = record {
  status = 0;
  recovered = some "index out of range";
  pattern = some "/accounts/{id}";
}

abbrev around : Env Response
around h now = length h
around h inc_http_in_flight = tt
around h dec_http_in_flight = tt
around h (observe_http_request method path status duration) = tt
around h serve_next = panicking
around h (start_span name attributes) = some "4bf9"
around h (set_header name value) = tt
around h (set_name name) = tt
around h (set_attributes path status) = tt
around h (set_error_status description) = tt
around h (record_error description) = tt
around h end_span = tt

abbrev status_text : ℕ → String
status_text status = "Internal Server Error"

observed-records_example :
    let (m, t) = observed status_text request around [] in
    let route : String = "/accounts/{id}" in
    (m ≡ ok panicking)
    × (total servings around t ≡ 1)
    × (total increments around t ≡ 1)
    × (total decrements around t ≡ 1)
    × (total observations around t ≡ 1)
    × (total (observing "GET" route 500) around t ≡ 1)
    × (total begun around t ≡ 1)
    × (total ended around t ≡ 1)
    × (total (described route 500) around t ≡ 1)
    × (total failures around t ≡ marks_of 500 panicking.recovered)
observed-records_example =
    observed-records status_text request "/accounts/7" "/accounts/{id}" 500 around panicking refl
      (λ h. refl) (inl (refl, refl)) (inr (inr (refl, ground arith, refl)))

abbrev row : Transaction
row = record {
  id = 3;
  user_id = 7;
  merchant_id = none;
  account_id = 2;
  amount = pos 250;
  status = "SUCCESS";
  idempotency_key = "key";
  legacy_reference_id = none;
  failure_reason = none;
  requested_at = 5;
  processed_at = some 6;
  created_at = 5;
  updated_at = 6;
}

run_snapshot :
    snapshot (inc "a" (inc "b" (inc "a" [])))
    ≡ record { name = "a"; value = 2 } ∷ record { name = "b"; value = 1 } ∷ []
unfolding snapshot inc insert lookup
run_snapshot = refl
