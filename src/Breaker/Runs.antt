-- ===== src/Breaker/Runs.antt =====
-- Runs of requests that do not overlap: how many failures open a breaker, and how many successes
-- close it again.
use dante_api_systems.Base.{
  ℕ, suc, ◌+◌, ◌≤◌, ◌<◌, ◌≡◌, true, List, [], ◌∷◌, arith, length, leb, if◌then◌else◌,
}
use dante_api_systems.Base.Int.{pos}
use dante_api_systems.Go.Errors.{Error}
use dante_api_systems.Go.Exec.{Reply, answer, error}
use dante_api_systems.Breaker.{
  CircuitBreaker, state_closed, state_open, state_half_open, timed_out, allow_request,
  record_success, record_failure, execute,
}

-- One request, of which only the error counts; the clock before and after it.
abbrev after : Reply (Unit {0}) → ℕ × ℕ → CircuitBreaker → CircuitBreaker
after reply (now, later) cb = (execute now reply later cb).1

-- Requests one after another that all get the same reply.
unfoldable pub repeat : Reply (Unit {0}) → List (ℕ × ℕ) → CircuitBreaker → CircuitBreaker
repeat reply [] cb = cb
repeat reply (t ∷ rest) cb = repeat reply rest (after reply t cb)

fail_once :
    (e : Error) (t : ℕ × ℕ) (cb : CircuitBreaker) (f : ℕ)
    → cb.state ≡ state_closed
    → cb.cfg.failure_threshold ≡ pos f
    → ((after (error e) t cb).cfg.failure_threshold ≡ pos f)
      × ((after (error e) t cb).failure_count ≡ cb.failure_count + 1)
      × ((after (error e) t cb).state
          ≡ (if leb f (cb.failure_count + 1) then state_open else state_closed))
unfolding execute allow_request record_failure
fail_once e t cb f c p = ground arith

-- A closed breaker opens with exactly the failed request that brings the failures in a row up to
-- its threshold, and is closed before that.
pub repeat-error :
    (e : Error) (times : List (ℕ × ℕ)) (cb : CircuitBreaker) (f : ℕ)
    → cb.state ≡ state_closed
    → cb.cfg.failure_threshold ≡ pos f
    → cb.failure_count < f
    → cb.failure_count + length times ≤ f
    → (repeat (error e) times cb).state
      ≡ (if leb f (cb.failure_count + length times) then state_open else state_closed)
unfolding repeat
repeat-error e [] cb f c p below h = ground arith
repeat-error e (t ∷ []) cb f c p below h = ground (arith, fail_once e t cb f c p)
repeat-error e (t ∷ u ∷ rest) cb f c p below h =
    ground (arith, fail_once e t cb f c p, repeat-error e (u ∷ rest) (after (error e) t cb) f)

succeed_once :
    (t : ℕ × ℕ) (cb : CircuitBreaker) (s : ℕ)
    → cb.state ≡ state_half_open
    → cb.cfg.success_threshold ≡ pos s
    → ((after (answer tt) t cb).cfg.success_threshold ≡ pos s)
      × ((after (answer tt) t cb).success_count
          ≡ (if leb s (cb.success_count + 1) then 0 else cb.success_count + 1))
      × ((after (answer tt) t cb).state
          ≡ (if leb s (cb.success_count + 1) then state_closed else state_half_open))
unfolding execute allow_request record_success
succeed_once t cb s c p = ground arith

half_open-repeat-answer :
    (times : List (ℕ × ℕ)) (cb : CircuitBreaker) (s : ℕ)
    → cb.state ≡ state_half_open
    → cb.cfg.success_threshold ≡ pos s
    → cb.success_count < s
    → cb.success_count + length times ≤ s
    → (repeat (answer tt) times cb).state
      ≡ (if leb s (cb.success_count + length times) then state_closed else state_half_open)
unfolding repeat
half_open-repeat-answer [] cb s c p below h = ground arith
half_open-repeat-answer (t ∷ []) cb s c p below h = ground (arith, succeed_once t cb s c p)
half_open-repeat-answer (t ∷ u ∷ rest) cb s c p below h =
    ground (
      arith,
      succeed_once t cb s c p,
      half_open-repeat-answer (u ∷ rest) (after (answer tt) t cb) s,
    )

wake_once :
    (t : ℕ × ℕ) (cb : CircuitBreaker) (s : ℕ)
    → cb.state ≡ state_open
    → timed_out t.0 cb ≡ true
    → cb.cfg.success_threshold ≡ pos s
    → ((after (answer tt) t cb).cfg.success_threshold ≡ pos s)
      × ((after (answer tt) t cb).success_count ≡ (if leb s 1 then 0 else 1))
      × ((after (answer tt) t cb).state ≡ (if leb s 1 then state_closed else state_half_open))
unfolding execute allow_request record_success
wake_once t cb s o w p = ground arith

-- An open breaker whose timeout has passed closes with exactly as many successful requests in a
-- row as its success threshold asks for, and is half open from the first until then.
pub repeat-answer :
    (t : ℕ × ℕ) (rest : List (ℕ × ℕ)) (cb : CircuitBreaker) (s : ℕ)
    → cb.state ≡ state_open
    → timed_out t.0 cb ≡ true
    → cb.cfg.success_threshold ≡ pos s
    → suc (length rest) ≤ s
    → (repeat (answer tt) (t ∷ rest) cb).state
      ≡ (if leb s (suc (length rest)) then state_closed else state_half_open)
unfolding repeat
repeat-answer t [] cb s o w p h = ground (arith, wake_once t cb s o w p)
repeat-answer t (u ∷ rest) cb s o w p h =
    ground
      (arith, wake_once t cb s o w p, half_open-repeat-answer (u ∷ rest) (after (answer tt) t cb) s)
