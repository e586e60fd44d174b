-- ===== src/Go/Trace.antt =====
-- Counting in the calls that an action has made.
use dante_api_systems.Base.{ℕ, ◌+◌, List, [], ◌∷◌}
use dante_api_systems.Go.Exec.{Env}

module _ {Call : Type 0} {Response : Call → Type 0} where
  -- The calls of a trace, each weighed by what it was and what it returned.
  abbrev pub total : ((c : Call) → Response c → ℕ) → Env Response → List Call → ℕ
  total weigh env [] = 0
  total weigh env (c ∷ h) = weigh c (env h c) + total weigh env h
