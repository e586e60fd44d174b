-- ===== src/Breaker/Invariant.antt =====
-- What holds of a circuit breaker between any two calls of its methods.
use dante_api_systems.Base.{ℕ, suc, ◌≡◌, ◌≢◌, List, [], ◌∷◌, arith}
use dante_api_systems.Base.Int.{pos, ◌≤ℤ◌}
use dante_api_systems.Go.Exec.{Reply}
use dante_api_systems.Breaker.{
  CircuitBreaker, CircuitBreakerConfig, state_closed, state_half_open, new_circuit_breaker,
  allow_request, record_success, record_failure, execute, Event, allow, success, failure, step, run,
}

-- Thresholds are positive; a closed breaker is below its failure threshold, and a half-open one
-- below its success threshold.
pub record IsValid (cb : CircuitBreaker) : Type 0 where
  pub failure_pos : pos 1 ≤ℤ cb.cfg.failure_threshold
  pub success_pos : pos 1 ≤ℤ cb.cfg.success_threshold
  pub timeout_pos : pos 1 ≤ℤ cb.cfg.open_timeout
  pub below : cb.state ≡ state_closed → pos (suc cb.failure_count) ≤ℤ cb.cfg.failure_threshold
  pub probing : cb.state ≡ state_half_open → pos (suc cb.success_count) ≤ℤ cb.cfg.success_threshold

-- One that is open or half open still carries the failures that opened it.
abbrev pub IsTripped : CircuitBreaker → Type 0
IsTripped cb = cb.state ≢ state_closed → cb.cfg.failure_threshold ≤ℤ pos cb.failure_count

pub new_circuit_breaker-IsValid : (cfg : CircuitBreakerConfig) → IsValid (new_circuit_breaker cfg)
unfolding new_circuit_breaker
new_circuit_breaker-IsValid cfg = ground arith

pub step-IsValid : (cb : CircuitBreaker) (e : Event) → IsValid cb → IsValid (step cb e)
unfolding step allow_request record_success record_failure
step-IsValid cb (allow now) v = ground arith
step-IsValid cb success v = ground arith
step-IsValid cb (failure now) v = ground arith

run-IsValid : (cb : CircuitBreaker) (es : List Event) → IsValid cb → IsValid (run cb es)
unfolding run
run-IsValid cb [] v = v
run-IsValid cb (e ∷ es) v = run-IsValid (step cb e) es (step-IsValid cb e v)

-- A breaker made from any configuration keeps to its thresholds, whatever calls of its methods
-- follow and in whatever order concurrent requests make them.
pub run-new-IsValid :
    (cfg : CircuitBreakerConfig) (es : List Event) → IsValid (run (new_circuit_breaker cfg) es)
run-new-IsValid cfg es = run-IsValid (new_circuit_breaker cfg) es (new_circuit_breaker-IsValid cfg)

module _ {A : Type 0} (now : ℕ) (reply : Reply A) (later : ℕ) where
  pub execute-IsValid : (cb : CircuitBreaker) → IsValid cb → IsValid (execute now reply later cb).1
  unfolding execute allow_request record_success record_failure
  execute-IsValid cb v = ground arith

  pub execute-IsTripped :
      (cb : CircuitBreaker) → IsTripped cb → IsTripped (execute now reply later cb).1
  unfolding execute allow_request record_success record_failure
  execute-IsTripped cb t = ground arith
