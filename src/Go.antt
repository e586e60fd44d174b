-- ===== src/Go.antt =====
-- What the Go runtime gives the services: error values and calls of other components.
pub mod Errors
pub mod Exec
pub mod Trace
pub mod Strings
