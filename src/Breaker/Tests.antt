-- ===== src/Breaker/Tests.antt =====
-- Tests and concrete instances for the circuit breaker.
use dante_api_systems.Base.{ℕ, ◌≡◌, refl, List, [], ◌∷◌, arith}
use dante_api_systems.Base.Int.{pos, negsuc}
use dante_api_systems.Go.Errors.{failure}
use dante_api_systems.Go.Exec.{error}
use dante_api_systems.Breaker.{
  CircuitBreaker, CircuitBreakerConfig, Event, allow, success, state_closed, state_open,
  state_half_open, new_circuit_breaker, allow_request, record_failure, execute, run,
}
use dante_api_systems.Breaker.Invariant.{IsValid, run-new-IsValid}
use dante_api_systems.Breaker.Spec.{promised, phase, execute_refines}
use dante_api_systems.Breaker.Runs.{repeat}
use dante_api_systems.Breaker.Race.{late_success_disarms}

-- The configuration that `bridge.Start` gives.
abbrev configured : CircuitBreakerConfig
configured = record {
  failure_threshold = pos 3;
  success_threshold = pos 1;
  open_timeout = pos 5000000000;
}

abbrev fresh : CircuitBreaker
fresh = record {
  state = state_closed;
  failure_count = 0;
  success_count = 0;
  opened_at = 0;
  cfg = configured;
}

-- Opened at 7 s by three failures.
abbrev open_at_seven : CircuitBreaker
open_at_seven = record fresh { state = state_open; failure_count = 3; opened_at = 7000000000 }

abbrev three : List (ℕ × ℕ)
three = (0, 1) ∷ (2, 3) ∷ (4, 7000000000) ∷ []

new-configured : new_circuit_breaker configured ≡ fresh
unfolding new_circuit_breaker
new-configured = refl

new-defaults :
    new_circuit_breaker
      (record { failure_threshold = pos 0; success_threshold = negsuc 4; open_timeout = pos 0 })
    ≡ fresh
unfolding new_circuit_breaker
new-defaults = refl

three_failures : repeat (error (failure "down")) three fresh ≡ open_at_seven
unfolding repeat execute allow_request record_failure
three_failures = refl

run-new-IsValid_example :
    IsValid (run (new_circuit_breaker configured) (Event.failure 3 ∷ success ∷ allow 9 ∷ []))
run-new-IsValid_example = run-new-IsValid configured (Event.failure 3 ∷ success ∷ allow 9 ∷ [])

execute_refines_example :
    let probe = execute {A = ℕ} 13000000000 (error (failure "down")) 13000000001 open_at_seven in
    let spec =
      promised {A = ℕ} configured 13000000000 13000000001
        (error (failure "down"))
        (phase open_at_seven) in
    (probe.0 ≡ spec.0) × (phase probe.1 ≡ spec.1)
execute_refines_example =
    execute_refines 13000000000 (error (failure "down")) 13000000001 open_at_seven (omega arith)

late_success_disarms_example :
    (run open_at_seven (success ∷ allow 12000000000 ∷ Event.failure 12000000001 ∷ [])).state
    ≡ state_half_open
late_success_disarms_example =
    late_success_disarms open_at_seven 12000000000 12000000001 refl refl (omega arith)
