-- ===== src/Observability.antt =====
-- internal/observability: the middlewares of a request (httpobs), the counters of the caches
-- (cachemetrics) and the metrics of the service (metrics).
pub mod Http
pub mod Counters
pub mod Metrics
mod Tests
