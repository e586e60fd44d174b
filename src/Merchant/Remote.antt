-- ===== src/Merchant/Remote.antt =====
-- internal/legacy/merchant.go and the CircuitBreakingMerchantClient of
-- internal/legacy/circuitbreaker.go: the reader of merchants that the program puts behind lookups.
use dante_api_systems.Base.{ℕ}
use dante_api_systems.Go.Errors.{sentinel, legacy_unavailable}
use dante_api_systems.Go.Exec.{Reply, error}
use dante_api_systems.Models.{Uuid, Merchant}
use dante_api_systems.Breaker.{CircuitBreaker, execute}

-- `NoopMerchantClient.GetMerchant`
abbrev pub noop_get_merchant : Uuid → Reply Merchant
noop_get_merchant id = error (sentinel legacy_unavailable)

-- `CircuitBreakingMerchantClient.GetMerchant` around a reader, with the clock before and after it.
abbrev pub breaking_get_merchant :
    (Uuid → Reply Merchant) → ℕ → ℕ → Uuid → CircuitBreaker → Reply Merchant × CircuitBreaker
breaking_get_merchant inner now later id cb = execute now (inner id) later cb
