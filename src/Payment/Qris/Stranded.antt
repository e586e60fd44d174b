-- ===== src/Payment/Qris/Stranded.antt =====
-- What an outage of the cache does to a QRIS payment.
