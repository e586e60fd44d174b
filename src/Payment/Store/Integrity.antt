-- ===== src/Payment/Store/Integrity.antt =====
-- The constraints of the table of transactions over any calls of the services and the workers.
