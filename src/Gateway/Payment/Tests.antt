-- ===== src/Gateway/Payment/Tests.antt =====
-- A payment in one step on a concrete gateway.
