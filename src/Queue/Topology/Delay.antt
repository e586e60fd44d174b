-- ===== src/Queue/Topology/Delay.antt =====
-- How the delay before a retry grows.
use dante_api_systems.Base.{ℕ, zero, suc, ◌*◌, ◌^◌, ◌<◌, ◌≤◌, ◌≡◌, ◌∙◌, ap, arith, ◌+◌}
use dante_api_systems.Base.Int.{pos, wrap64-pos, +ℤ-pos}
use dante_api_systems.Queue.Topology.{
  RabbitMqConfig, double, retry_base_delay, retry_delay_for_attempt,
}
use native.Mathlib.Nat.{pow-suc}

pow_pos : (n : ℕ) → 1 ≤ 2 ^ n
pow_pos zero = omega arith
pow_pos (suc n) = omega (arith, pow-suc 2 n, pow_pos n)

twice-pow : (d n : ℕ) → (d + d) * 2 ^ n ≡ d * 2 ^ suc n
twice-pow d n = rw pow-suc (omega arith)

le-mul-pow : (d n : ℕ) → d ≤ d * 2 ^ n
le-mul-pow d n = grind (arith, pow_pos n)

double-pos : (n d : ℕ) → d * 2 ^ n < 9223372036854775808 → double n (pos d) ≡ pos (d * 2 ^ n)
unfolding double
double-pos zero d h = ground arith
double-pos (suc n) d h =
    let small : d + d < 9223372036854775808 = omega (arith, twice-pow d n, le-mul-pow (d + d) n) in
    rw (+ℤ-pos, wrap64-pos (d + d) small)
      (double-pos n (d + d) (omega (arith, twice-pow d n)) ∙ ap pos (twice-pow d n))

-- Before attempt `n + 1` the delay is the base delay doubled `n` times, as long as that number of
-- nanoseconds is an int64.
pub retry_delay_lem :
    (cfg : RabbitMqConfig) (n base : ℕ)
    → retry_base_delay cfg ≡ pos base
    → base * 2 ^ n < 9223372036854775808
    → retry_delay_for_attempt cfg (pos (suc n)) ≡ pos (base * 2 ^ n)
unfolding retry_delay_for_attempt
retry_delay_lem cfg zero base e h = rw e (ground arith)
retry_delay_lem cfg (suc n) base e h = rw e (ground (arith, double-pos (suc n) base h))
