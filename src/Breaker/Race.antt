-- ===== src/Breaker/Race.antt =====
-- What overlapping requests can do to a circuit breaker.
use dante_api_systems.Base.{ℕ, ◌≡◌, true, [], ◌∷◌, arith}
use dante_api_systems.Base.Int.{pos, ◌≤ℤ◌}
use dante_api_systems.Breaker.{
  CircuitBreaker, state_open, state_half_open, timed_out, allow_request, record_success,
  record_failure, allow, success, failure, step, run,
}

-- If the answer to a request from before the opening arrives while the breaker is open, and its
-- failure threshold is at least two, then the first probe after the timeout leaves the breaker
-- half open when it fails, so that requests go on to the legacy system.
pub late_success_disarms :
    (cb : CircuitBreaker) (now later : ℕ)
    → cb.state ≡ state_open
    → timed_out now cb ≡ true
    → pos 2 ≤ℤ cb.cfg.failure_threshold
    → (run cb (success ∷ allow now ∷ failure later ∷ [])).state ≡ state_half_open
unfolding run step allow_request record_success record_failure
late_success_disarms cb now later o t two = ground arith
