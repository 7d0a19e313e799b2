-- ===== src/Slots/Tests.antt =====
-- Runs of the client.
