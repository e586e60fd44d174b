-- ===== src/Breaker.antt =====
-- internal/legacy/circuitbreaker.go: the circuit breaker in front of the legacy merchant reader.
-- A method that takes the lock is one function from the breaker to the breaker after it; the
-- clock's reading is an argument, in nanoseconds. Times are ordinary numbers and durations
-- integers. The two counters are numbers: they wrap only after 2^63 calls.
pub mod Invariant
pub mod Spec
pub mod Runs
pub mod Race
mod Tests
use dante_api_systems.Base.{ℕ, ◌+◌, Bool, true, false, List, [], ◌∷◌, if◌then◌else◌}
use dante_api_systems.Base.Int.{ℤ, pos, sub_ℕ, leb_ℤ}
use dante_api_systems.Go.Errors.{Error, sentinel, circuit_open}
use dante_api_systems.Go.Exec.{Reply, answer, error}

pub data CircuitBreakerState : Type 0 where
  state_closed : CircuitBreakerState
  state_open : CircuitBreakerState
  state_half_open : CircuitBreakerState

pub record CircuitBreakerConfig : Type 0 where
  pub failure_threshold : ℤ
  pub success_threshold : ℤ
  pub open_timeout : ℤ

pub record CircuitBreaker : Type 0 where
  pub state : CircuitBreakerState
  pub failure_count : ℕ
  pub success_count : ℕ
  pub opened_at : ℕ
  pub cfg : CircuitBreakerConfig

abbrev or_default : ℤ → ℤ → ℤ
or_default value fallback = if leb_ℤ value (pos 0) then fallback else value

pub new_circuit_breaker : CircuitBreakerConfig → CircuitBreaker
new_circuit_breaker cfg = record {
  state = state_closed;
  failure_count = 0;
  success_count = 0;
  opened_at = 0;
  cfg = record {
    failure_threshold = or_default cfg.failure_threshold (pos 3);
    success_threshold = or_default cfg.success_threshold (pos 1);
    open_timeout = or_default cfg.open_timeout (pos 5000000000);
  };
}

-- `time.Since(cb.openedAt) >= cb.cfg.OpenTimeout`
abbrev pub timed_out : ℕ → CircuitBreaker → Bool
timed_out now cb = leb_ℤ cb.cfg.open_timeout (sub_ℕ now cb.opened_at)

abbrev allow_open : Bool → CircuitBreaker → Reply (Unit {0}) × CircuitBreaker
allow_open true cb = (answer tt, record cb { state = state_half_open; success_count = 0 })
allow_open false cb = (error (sentinel circuit_open), cb)

abbrev allow_in : CircuitBreakerState → Bool → CircuitBreaker → Reply (Unit {0}) × CircuitBreaker
allow_in state_open elapsed cb = allow_open elapsed cb
allow_in _ elapsed cb = (answer tt, cb)

unfoldable pub allow_request : ℕ → CircuitBreaker → Reply (Unit {0}) × CircuitBreaker
allow_request now cb = allow_in cb.state (timed_out now cb) cb

abbrev success_in : CircuitBreakerState → CircuitBreaker → CircuitBreaker
success_in state_half_open cb =
    if leb_ℤ cb.cfg.success_threshold (pos (cb.success_count + 1))
    then record cb { state = state_closed; failure_count = 0; success_count = 0 }
    else record cb { success_count = cb.success_count + 1 }
success_in _ cb = record cb { failure_count = 0 }

pub record_success : CircuitBreaker → CircuitBreaker
record_success cb = success_in cb.state cb

unfoldable pub record_failure : ℕ → CircuitBreaker → CircuitBreaker
record_failure now cb =
    if leb_ℤ cb.cfg.failure_threshold (pos (cb.failure_count + 1))
    then record cb {
      state = state_open;
      failure_count = cb.failure_count + 1;
      opened_at = now;
      success_count = 0;
    }
    else record cb { failure_count = cb.failure_count + 1 }

-- `Execute` and `ExecuteWithValue` with no other request in between: `now` is the clock before
-- the operation, `reply` what the operation answers if it is called, `later` the clock after it.
module _ {A : Type 0} where
  abbrev finish : Reply A → ℕ → CircuitBreaker → Reply A × CircuitBreaker
  finish (answer a) later cb = (answer a, record_success cb)
  finish (error e) later cb = (error e, record_failure later cb)

  abbrev run_allowed : Reply (Unit {0}) → Reply A → ℕ → CircuitBreaker → Reply A × CircuitBreaker
  run_allowed (answer tt) reply later cb = finish reply later cb
  run_allowed (error e) reply later cb = (error e, cb)

  unfoldable pub execute : ℕ → Reply A → ℕ → CircuitBreaker → Reply A × CircuitBreaker
  execute now reply later cb =
      let (allowed, cb') = allow_request now cb in run_allowed allowed reply later cb'

-- With several requests under way the methods interleave in any order: each holds the lock.
pub data Event : Type 0 where
  allow : ℕ → Event
  success : Event
  failure : ℕ → Event

pub step : CircuitBreaker → Event → CircuitBreaker
step cb (allow now) = (allow_request now cb).1
step cb success = record_success cb
step cb (failure now) = record_failure now cb

pub run : CircuitBreaker → List Event → CircuitBreaker
run cb [] = cb
run cb (e ∷ es) = run (step cb e) es
