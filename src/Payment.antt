-- ===== src/Payment.antt =====
-- internal/service/payment: intake of QRIS payments (qris.go) and transfers (transfer.go), and the
-- workers that finish them (worker.go, transfer_worker.go).
pub mod Calls
pub mod Merchants
pub mod Effects
pub mod Store
pub mod Qris
pub mod Transfer
pub mod Worker
mod Tests
