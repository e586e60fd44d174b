-- ===== src/Cache.antt =====
-- internal/cache: the keys and lifetimes of the cached entries (policy.go).
pub mod Policy
pub mod Client
