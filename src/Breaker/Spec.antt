-- ===== src/Breaker/Spec.antt =====
-- What a circuit breaker promises to requests that do not overlap, and that the code does it.
use dante_api_systems.Base.{ℕ, ◌+◌, ◌≡◌, ◌⊎◌, true, false, arith, if◌then◌else◌}
use dante_api_systems.Base.Int.{pos, leb_ℤ, sub_ℕ}
use dante_api_systems.Go.Errors.{sentinel, circuit_open}
use dante_api_systems.Go.Exec.{Reply, answer, error}
use dante_api_systems.Breaker.{
  CircuitBreakerConfig, CircuitBreaker, CircuitBreakerState, state_closed, state_open,
  state_half_open, timed_out, allow_request, record_success, record_failure, execute,
}
use dante_api_systems.Breaker.Invariant.{IsTripped}

-- Closed, with the failures in a row; open, since when; or half open, with the successes in a row.
pub data Phase : Type 0 where
  closed : ℕ → Phase
  opened : ℕ → Phase
  half_open : ℕ → Phase

module _ {A : Type 0} (cfg : CircuitBreakerConfig) (now : ℕ) (later : ℕ) where
  abbrev probe : Reply A → ℕ → Reply A × Phase
  probe (answer a) n =
      (answer a, if leb_ℤ cfg.success_threshold (pos (n + 1)) then closed 0 else half_open (n + 1))
  probe (error e) n = (error e, opened later)

  abbrev pub promised : Reply A → Phase → Reply A × Phase
  promised (answer a) (closed n) = (answer a, closed 0)
  promised (error e) (closed n) =
      (error e, if leb_ℤ cfg.failure_threshold (pos (n + 1)) then opened later else closed (n + 1))
  promised reply (half_open n) = probe reply n
  promised reply (opened since) =
      if leb_ℤ cfg.open_timeout (sub_ℕ now since)
      then probe reply 0
      else (error (sentinel circuit_open), opened since)

abbrev phase_of : CircuitBreakerState → CircuitBreaker → Phase
phase_of state_closed cb = closed cb.failure_count
phase_of state_open cb = opened cb.opened_at
phase_of state_half_open cb = half_open cb.success_count

abbrev pub phase : CircuitBreaker → Phase
phase cb = phase_of cb.state cb

-- Of a breaker that carries its failures while it is not closed, a request that no other overlaps
-- gets the promised reply and leaves the promised phase; so one failed probe opens it again.
pub execute_refines :
    {A : Type 0} (now : ℕ) (reply : Reply A) (later : ℕ) (cb : CircuitBreaker)
    → IsTripped cb
    → ((execute now reply later cb).0 ≡ (promised cb.cfg now later reply (phase cb)).0)
      × (phase (execute now reply later cb).1 ≡ (promised cb.cfg now later reply (phase cb)).1)
unfolding execute allow_request record_success record_failure
execute_refines now (answer a) later cb t = ground arith
execute_refines now (error e) later cb t = ground arith

-- A request is refused, with the breaker unchanged and whatever the operation would answer, if
-- the breaker is open and its timeout has not passed; any other gets the operation's answer.
pub execute_refuses :
    {A : Type 0} (now : ℕ) (reply : Reply A) (later : ℕ) (cb : CircuitBreaker)
    → ((cb.state ≡ state_open)
        × (timed_out now cb ≡ false)
        × (execute now reply later cb ≡ (error (sentinel circuit_open), cb)))
      ⊎ (((cb.state ≡ state_open → timed_out now cb ≡ true))
          × ((execute now reply later cb).0 ≡ reply))
unfolding execute allow_request
execute_refuses now (answer a) later cb = ground arith
execute_refuses now (error e) later cb = ground arith
