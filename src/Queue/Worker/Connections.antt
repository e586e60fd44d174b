-- ===== src/Queue/Worker/Connections.antt =====
-- The connections of a worker.
use dante_api_systems.Base.{ℕ, ◌+◌, ◌-◌, ◌≡◌, List, [], ◌∷◌}
use dante_api_systems.Go.Exec.{answer, Env}
use dante_api_systems.Go.Trace.{total}
use dante_api_systems.Queue.Worker.{
  Call, Response, dial, open_channel, close_channel, close_connection,
}

abbrev pub connected : (c : Call) → Response c → ℕ
connected dial (answer u) = 1
connected _ _ = 0

abbrev pub disconnected : (c : Call) → Response c → ℕ
disconnected close_connection r = 1
disconnected _ _ = 0

abbrev pub channels : (c : Call) → Response c → ℕ
channels open_channel (answer u) = 1
channels _ _ = 0

abbrev pub closed_channels : (c : Call) → Response c → ℕ
closed_channels close_channel r = 1
closed_channels _ _ = 0

-- Dials while a connection was open.
abbrev pub crowded : Env Response → List Call → ℕ
crowded env [] = 0
crowded env (dial ∷ h) = (total connected env h - total disconnected env h) + crowded env h
crowded env (_ ∷ h) = crowded env h

-- All that was opened is closed, and there was one connection at most at a time.
pub record Tidy (env : Env Response) (t : List Call) : Type 0 where
  pub connections : total connected env t ≡ total disconnected env t
  pub all_channels : total channels env t ≡ total closed_channels env t
  pub alone : crowded env t ≡ 0
